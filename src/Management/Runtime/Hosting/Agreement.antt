-- ===== src/Management/Runtime/Hosting/Agreement.antt =====
-- How a set of members is counted at one node, against what a command does to the members.
use raftoral.Prelude.{
  ℕ, ◌≡◌, Option, none, some, Bool, true, false, not, ◌||◌, ◌&&◌, if◌then◌else◌, nat_beq_iff, arith,
  Bool-cases, inl, inr,
}
use raftoral.Prelude.Eq.{nat_eq, ◌==◌}
use raftoral.Prelude.Eq.{text_eq}
use raftoral.Management.StateMachine.Lookup.{map_option, is_some}

abbrev pub holds : Option Bool → Bool
holds none = false
holds (some b) = b

-- How a member is counted, against what the command does to the members.
pub create-agrees :
    (next c : ℕ) (member before : Bool) (v : Option Bool)
    → before ≡ holds v
    → (next ≡ c → holds v ≡ false)
    → (if next == c && member then true else before) ≡ holds (if next == c then some member else v)
create-agrees next c true before v h new = ground (arith, nat_beq_iff next c)
create-agrees next c false before v h new = ground (arith, nat_beq_iff next c)

pub add-agrees :
    (cid c : ℕ) (own before : Bool) (v : Option Bool)
    → before ≡ holds v
    → (cid ≡ c → is_some v ≡ true)
    → (if cid == c && own then true else before)
      ≡ holds (if cid == c then map_option (λ b. own || b) v else v)
add-agrees cid c own before none h there = ground (arith, nat_beq_iff cid c)
add-agrees cid c true before (some b) h there = ground (arith, nat_beq_iff cid c)
add-agrees cid c false before (some b) h there = ground (arith, nat_beq_iff cid c)

pub delete-agrees :
    (cid c : ℕ) (before : Bool) (v : Option Bool)
    → before ≡ holds v
    → (if cid == c then false else before) ≡ holds (if cid == c then none else v)
delete-agrees cid c before v h = ground (arith, nat_beq_iff cid c)

pub remove-agrees :
    (cid c : ℕ) (own before : Bool) (v : Option Bool)
    → before ≡ holds v
    → (if own && cid == c then false else before)
      ≡ holds (if cid == c then map_option (λ b. not own && b) v else v)
remove-agrees cid c own before none h = ground (arith, nat_beq_iff cid c)
remove-agrees cid c true before (some b) h = ground (arith, nat_beq_iff cid c)
remove-agrees cid c false before (some b) h = ground (arith, nat_beq_iff cid c)

pub absent-agrees :
    (cid c : ℕ) (f : Bool → Bool) (before : Bool) (v : Option Bool)
    → before ≡ holds v
    → (cid ≡ c → v ≡ none)
    → before ≡ holds (if cid == c then map_option f v else v)
absent-agrees cid c f before none h absent = ground (arith, nat_beq_iff cid c)
absent-agrees cid c f before (some b) h absent = elim (Bool-cases (cid == c)) [
  | inl same ↦ absurd (cc (absent ((nat_beq_iff cid c).0 same)))
  | inr other ↦ rw other h
]

pub already :
    (cid c : ℕ) (own before : Bool)
    → (cid ≡ c → before ≡ true)
    → before ≡ (if cid == c && own then true else before)
already cid c own before h = ground (arith, nat_beq_iff cid c)

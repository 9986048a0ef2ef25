-- ===== src/Raft/ProposalRouter/Retries.antt =====
-- proposal_router.rs: the loop in which `propose` waits for a leader.
use raftoral.Prelude.{
  ℕ, zero, suc, ◌+◌, ◌≤◌, ◌<◌, ◌≡◌, refl, ap, Option, none, some, if◌then◌else◌, ltb, arith, ◌∙◌,
  ◌⊎◌, inl, inr, ◌≢◌, Bool, true, false, ltb→lt,
}
use raftoral.Raft.Node.{Env}
use raftoral.Raft.Node.Mailbox.{leader_id}
use raftoral.Raft.ProposalRouter.{
  next_delay, ProposalRouter, Retry, Search, found, gave_up, out_of_fuel, seen, retry, retry_loop,
}

-- The delay of each round, and what the delays of the rounds before it add up to.
abbrev pub delay_of : ℕ → ℕ
delay_of zero = 10
delay_of (suc n) = next_delay (delay_of n)

abbrev delays : ℕ → ℕ
delays zero = 0
delays (suc n) = delays n + delay_of n

nat_cases : (i n : ℕ) → (i ≡ n) ⊎ (i ≢ n)
nat_cases i n = ground arith

module _ (env : Env) where
  -- How long the first rounds took.
  abbrev pub waited : (ℕ → Retry env) → ℕ → ℕ
  waited retries zero = 0
  waited retries (suc n) = waited retries n + delay_of n + (retries n).late

  abbrev pub Leaderless : (ℕ → Retry env) → ℕ → Type 0
  Leaderless retries n = (i : ℕ) → i < n → leader_id env (retries i).router.node ≡ none

  -- What the loop may end with: the leader of the first round that sees one, with two seconds not over
  -- before it, or nothing after two seconds without one.
  unfoldable pub IsOutcome : (ℕ → Retry env) → ProposalRouter env × Search env → Type 0
  IsOutcome retries (r, found l) =
      (n : ℕ) × (n < 9)
      × (waited retries n < 2000)
      × Leaderless retries n
      × (leader_id env (retries n).router.node ≡ some l)
      × (r ≡ record (retries n).router { leader_id = some l })
  IsOutcome retries (r, gave_up) =
      (n : ℕ) × (n ≤ 9) × (2000 ≤ waited retries n) × Leaderless retries n
  IsOutcome retries (r, out_of_fuel) = ⊥

  delays-waited : (retries : ℕ → Retry env) (n : ℕ) → delays n ≤ waited retries n
  delays-waited retries zero = omega arith
  delays-waited retries (suc n) = omega (arith, delays-waited retries n)

  Leaderless-suc :
      (retries : ℕ → Retry env) (n : ℕ)
      → Leaderless retries n
      → leader_id env (retries n).router.node ≡ none
      → Leaderless retries (suc n)
  Leaderless-suc retries n h last i i<n = elim (nat_cases i n) [
    | inl i≡n ↦ ap (λ j. leader_id env (retries j).router.node) i≡n ∙ last
    | inr i≢n ↦ h i (omega arith)
  ]

  -- The body of the loop, by its test and by the leader that the node knows after the sleep.
  body-IsOutcome :
      (i : ℕ) (retries : ℕ → Retry env) (self : ProposalRouter env)
      (rest : ProposalRouter env × Search env) (waiting : Bool) (leader : Option ℕ)
      → i < 9
      → Leaderless retries i
      → ltb (waited retries i) 2000 ≡ waiting
      → leader_id env (retries i).router.node ≡ leader
      → (leader ≡ none → IsOutcome retries rest)
      → IsOutcome retries
          (if waiting then seen env (retries i).router leader rest else (self, gave_up))
  unfolding IsOutcome
  body-IsOutcome i retries self rest false leader room h test sees next =
      (i, omega arith, ground arith, h)
  body-IsOutcome i retries self rest true none room h test sees next = next refl
  body-IsOutcome i retries self rest true (some l) room h test sees next =
      (i, room, ltb→lt _ _ test, h, sees, refl)

  end-IsOutcome :
      (i : ℕ) (retries : ℕ → Retry env) (self : ProposalRouter env) (waiting : Bool)
      → i ≡ 9
      → Leaderless retries i
      → ltb (waited retries i) 2000 ≡ waiting
      → IsOutcome retries (self, if waiting then out_of_fuel else gave_up)
  unfolding IsOutcome
  end-IsOutcome i retries self false room h test = (i, omega arith, ground arith, h)
  end-IsOutcome i retries self true room h test =
      absurd (omega (arith, ltb→lt _ _ test, ap (waited retries) room, delays-waited retries 9))

  retry-IsOutcome :
      (fuel i : ℕ) (retries : ℕ → Retry env) (self : ProposalRouter env)
      → fuel + i ≡ 9
      → Leaderless retries i
      → IsOutcome retries (retry env fuel retries i (delay_of i) (waited retries i) self)
  unfolding retry
  retry-IsOutcome zero i retries self room h = end-IsOutcome i retries self _ (omega arith) h refl
  retry-IsOutcome (suc fuel) i retries self room h =
      body-IsOutcome i retries self _ (ltb (waited retries i) 2000) _ (omega arith) h refl refl
        (λ last.
          retry-IsOutcome fuel (suc i) retries (retries i).router (omega arith)
            (Leaderless-suc retries i h last))

  -- The loop ends: after at most nine rounds it has the leader of the first round that sees one, or
  -- two seconds are over.
  pub retry_loop-IsOutcome :
      (retries : ℕ → Retry env) (self : ProposalRouter env)
      → IsOutcome retries (retry_loop env retries self)
  unfolding retry_loop
  retry_loop-IsOutcome retries self =
      retry-IsOutcome 9 0 retries self refl (λ i h. absurd (omega arith))

-- ===== src/Management/ClusterManager/NonDraining.antt =====
-- The clusters that are not draining, sorted by size.
use mathlib.Core.List.{Mem}
use raftoral.Prelude.{◌≡◌, ◌≤◌, List, [], ◌∷◌, true, false, not, arith, All, All-map, subst, sym}
use raftoral.Prelude.Sort.{sort_by, ascending, ascending-Decides, sort_by-first, sort_by-nil}
use raftoral.Prelude.Filter.{mem-filter_by, All-of-filter}
use raftoral.Management.ClusterManager.{Cluster, is_draining, size, non_draining}

-- `P` holds of every cluster that is not draining.
abbrev pub Active {ℓ} : (Cluster → Type ℓ) → List Cluster → Type ℓ
Active P = All (λ d. is_draining d.1 ≡ false → P d)

pub Active-of-non_draining {ℓ} :
    (P : Cluster → Type ℓ) (xs : List Cluster) → All P (non_draining xs) → Active P xs
unfolding non_draining
Active-of-non_draining P xs h =
    All-map (λ d. not (is_draining d.1) ≡ true → P d) (λ d. is_draining d.1 ≡ false → P d)
      (λ d f e. f (ground arith)) xs (All-of-filter (λ d. not (is_draining d.1)) P xs h)

module _ (xs : List Cluster) where
  -- The first cluster by size: from the list, not draining, and no larger than any that is not.
  pub smallest :
      (c : Cluster) (rest : List Cluster)
      → sort_by (ascending size) (non_draining xs) ≡ c ∷ rest
      → Mem c xs × (is_draining c.1 ≡ false) × Active (λ d. size c ≤ size d) xs
  unfolding non_draining
  smallest c rest e =
      let (found, least) = sort_by-first (ascending-Decides size) (non_draining xs) c rest e in
      let (listed, active) = mem-filter_by (λ d. not (is_draining d.1)) xs found in
      (listed, ground arith, Active-of-non_draining (λ d. size c ≤ size d) xs least)

  pub none-Active :
      (P : Cluster → Type 0) → sort_by (ascending size) (non_draining xs) ≡ [] → Active P xs
  none-Active P e =
      Active-of-non_draining P xs
        (subst (All P) (sym (sort_by-nil (ascending-Decides size) (non_draining xs) e)) tt)

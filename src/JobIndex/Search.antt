-- ===== src/JobIndex/Search.antt =====
-- src/job-index.ts: the binary search of `sortedInsert` ends on the fuel that it is given.
use codex_job_orchestrator.Common.{
  ℕ, zero, suc, ◌+◌, ◌/◌, ◌≤◌, ◌<◌, String, ◌≡◌, refl, inl, inr, Bool, false, List, arith, Dict,
  ltb, ltb→lt, Bool-cases,
}
use codex_job_orchestrator.JobIndex.Types.{IndexedJob}
use codex_job_orchestrator.JobIndex.Sessions.{get_elem?, record_at, goes_left, find_place}

between : (lo hi : ℕ) → lo < hi → (lo ≤ (lo + hi) / 2) × ((lo + hi) / 2 < hi)
between lo hi h = omega arith

module _ (job : IndexedJob) (list : List String) (d : Dict IndexedJob) where
  goes : ℕ → Bool
  goes mid = goes_left job (record_at d (get_elem? list mid))

  nothing_left : (lo hi : ℕ) → hi ≤ lo → ltb lo hi ≡ false
  nothing_left lo hi h = ground arith

  -- With a round for each entry between the bounds the search comes to its end: any fuel that is as
  -- much gives the same place, and it is within the bounds.
  find_place_enough :
      (n m lo hi : ℕ)
      → hi ≤ lo + n
      → hi ≤ lo + m
      → lo ≤ hi
      → (find_place n job list d lo hi ≡ find_place m job list d lo hi)
        × (lo ≤ find_place n job list d lo hi)
        × (find_place n job list d lo hi ≤ hi)
  unfolding find_place goes
  find_place_enough zero zero lo hi h j i = (refl, omega arith, omega arith)
  find_place_enough zero (suc m) lo hi h j i =
      rw (nothing_left lo hi (omega arith)) (refl, omega arith, omega arith)
  find_place_enough (suc n) zero lo hi h j i =
      rw (nothing_left lo hi (omega arith)) (refl, omega arith, omega arith)
  find_place_enough (suc n) (suc m) lo hi h j i = elim (Bool-cases (ltb lo hi)) [
    | inr f ↦ rw f (refl, omega arith, omega arith)
    | inl t ↦
        let (a, b) = between lo hi (ltb→lt lo hi t) in
        elim (Bool-cases (goes ((lo + hi) / 2))) [
          | inl l ↦
              let (e, p, q) =
                find_place_enough n m lo ((lo + hi) / 2) (omega arith) (omega arith) a in
              rw (t, l) (e, p, omega arith)
          | inr r ↦
              let (e, p, q) =
                find_place_enough n m (suc ((lo + hi) / 2)) hi (omega arith) (omega arith) b in
              rw (t, r) (e, omega arith, q)
        ]
  ]

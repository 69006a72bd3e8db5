-- ===== src/Proc/Ancestors.antt =====
-- src/proc.ts: `buildAncestorPidSet` and `evaluatePidCandidate`, which keep a kill from the
-- processes above. A set of pids is a list; a query that throws, or a time that is no number,
-- stands as `none`.
use codex_job_orchestrator.Common.{
  ℕ, zero, suc, ◌≤◌, ◌<◌, ◌≡◌, refl, subst, ◌≢◌, ◌↔◌, ◌⊎◌, inl, inr, Bool, true, false, Option,
  none, some, List, [], ◌∷◌, arith, any, ltb, ◌==◌, if◌then◌else◌, Bool-cases, Option-cases,
  or_default, if_cases, Number, is_pos_int, to_nat,
}

abbrev pub has : ℕ → List ℕ → Bool
has p set = any (λ k. k == p) set

-- A positive integer, else nothing.
abbrev pub positive : Option Number → Option ℕ
positive none = none
positive (some n) = if is_pos_int n then some (to_nat n) else none

abbrev add_parent : List ℕ → (ℕ → List ℕ) → Option ℕ → List ℕ
add_parent set go none = set
add_parent set go (some p) = let further = go p in if has p set then set else further

-- The loop, with the rounds left and the pid that it looks at.
unfoldable pub ancestors_from : (ℕ → Option Number) → ℕ → List ℕ → Option Number → List ℕ
ancestors_from query zero set current = set
ancestors_from query (suc n) set current =
    add_parent set (λ p. ancestors_from query n (p ∷ set) (query p)) (positive current)

unfoldable pub build_ancestor_pid_set : (ℕ → Option Number) → ℕ → Number → List ℕ
unfolding ancestors_from
build_ancestor_pid_set query depth ppid = ancestors_from query depth [] (some ppid)

pub data CandidateReason : Type 0 where
  invalid_pid self ancestor no_run_threshold unverifiable pre_run_start : CandidateReason

pub record PidCandidateOptions : Type 0 where
  pub own_pid : Option ℕ
  pub ancestor_pids : Option (List ℕ)
  pub run_started_at_ms : Option ℕ
  pub os_start_time_fn : Option (ℕ → Option ℕ)

abbrev by_start : ℕ → Option ℕ → Option CandidateReason
by_start t none = some unverifiable
by_start t (some s) = if ltb s t then some pre_run_start else none

abbrev by_clock : ℕ → ℕ → Option (ℕ → Option ℕ) → Option CandidateReason
by_clock p t none = some unverifiable
by_clock p t (some f) = by_start t (f p)

abbrev by_threshold : ℕ → PidCandidateOptions → Option ℕ → Option CandidateReason
by_threshold p o none = some no_run_threshold
by_threshold p o (some t) = by_clock p t o.os_start_time_fn

abbrev is_own : ℕ → Option ℕ → Bool
is_own p none = false
is_own p (some q) = p == q

abbrev by_pid : PidCandidateOptions → Option ℕ → Option CandidateReason
by_pid o none = some invalid_pid
by_pid o (some p) =
    if is_own p o.own_pid
    then some self
    else if has p (or_default o.ancestor_pids [])
    then some ancestor
    else by_threshold p o o.run_started_at_ms

-- The reason of a refusal, or `none` for a safe candidate.
unfoldable pub evaluate_pid_candidate : Number → PidCandidateOptions → Option CandidateReason
evaluate_pid_candidate pid o = by_pid o (positive (some pid))

-- The pid that is n + 1 steps above, each step a positive integer.
pub data IsAbove (query : ℕ → Option Number) : Option Number → ℕ → ℕ → Type 0 where
  parent : (current : Option Number) (p : ℕ) → positive current ≡ some p → IsAbove query current p 0
  further :
      (current : Option Number) (p a n : ℕ)
      → positive current ≡ some p
      → IsAbove query (query p) a n
      → IsAbove query current a (suc n)

module _ (query : ℕ → Option Number) where
  -- The parent of each pid in the set is in it, or the next to be looked at.
  Closed : List ℕ → Option Number → Type 0
  Closed set current =
      (x y : ℕ)
      → has x set ≡ true
      → positive (query x) ≡ some y
      → (has y set ≡ true) ⊎ (positive current ≡ some y)

  ancestors_from-keeps :
      (n : ℕ) (set : List ℕ) (current : Option Number) (a : ℕ)
      → has a set ≡ true
      → has a (ancestors_from query n set current) ≡ true
  unfolding ancestors_from
  ancestors_from-keeps zero set current a h = h
  ancestors_from-keeps (suc n) set current a h =
      by_parent (positive current)
        (λ p. ancestors_from-keeps n (p ∷ set) (query p) a (ground arith))
    where
      by_parent :
          (o : Option ℕ)
          → ((p : ℕ) → has a (ancestors_from query n (p ∷ set) (query p)) ≡ true)
          → has a (add_parent set (λ p. ancestors_from query n (p ∷ set) (query p)) o) ≡ true
      by_parent none go = h
      by_parent (some p) go = if_cases (λ z. has a z ≡ true) (has p set) (λ t. h) (λ f. go p)

  all_above :
      (set : List ℕ) (current : Option Number) (a n : ℕ)
      → ((x y : ℕ) → has x set ≡ true → positive (query x) ≡ some y → has y set ≡ true)
      → ((y : ℕ) → positive current ≡ some y → has y set ≡ true)
      → IsAbove query current a n
      → has a set ≡ true
  all_above set _ a _ c i (parent current p e) = i p e
  all_above set _ _ _ c i (further current p a n e u) =
      all_above set (query p) a n c (λ y g. c p y (i p e) g) u

  same_parent :
      (current : Option Number) (p y : ℕ)
      → positive current ≡ some p
      → positive current ≡ some y
      → p ≡ y
  same_parent current p y e g = cc

  Closed-cons :
      (set : List ℕ) (current : Option Number) (p : ℕ)
      → positive current ≡ some p
      → Closed set current
      → Closed (p ∷ set) (query p)
  unfolding Closed
  Closed-cons set current p e c x y h g = elim (Bool-cases (has x set)) [
    | inl t ↦ elim (c x y t g) [
      | inl i ↦ inl (ground arith)
      | inr i ↦ let q = same_parent current p y e i in inl (ground arith)
    ]
    | inr f ↦ let q = only_head x p set h f in inr (subst (λ z. positive (query z) ≡ some y) q g)
  ]
    where
      only_head : (x p : ℕ) (set : List ℕ) → has x (p ∷ set) ≡ true → has x set ≡ false → x ≡ p
      only_head x p set h f = ground arith

  -- A pid that is in the set already: so is all that stands above it.
  cycle_covers :
      (set : List ℕ) (current : Option Number) (p a n : ℕ)
      → Closed set current
      → positive current ≡ some p
      → has p set ≡ true
      → IsAbove query current a n
      → has a set ≡ true
  unfolding Closed
  cycle_covers set current p a n c e t u =
      all_above set current a n
        (λ x y h g. elim (c x y h g) [
          | inl i ↦ i
          | inr i ↦ subst (λ z. has z set ≡ true) (same_parent current p y e i) t
        ])
        (λ y g. subst (λ z. has z set ≡ true) (same_parent current p y e g) t) u

  covers_from :
      (n : ℕ) (set : List ℕ) (current : Option Number) (a k : ℕ)
      → Closed set current
      → IsAbove query current a k
      → k < n
      → has a (ancestors_from query n set current) ≡ true
  unfolding ancestors_from
  covers_from zero set current a k c u h = ground arith
  covers_from (suc n) set _ a _ c (parent current p e) h = rw e (
      if_cases (λ z. has p z ≡ true) (has p set) (λ t. t)
        (λ f. ancestors_from-keeps n (p ∷ set) (query p) p (ground arith)))
  covers_from (suc n) set _ _ _ c (further current p a k e u) h = rw e (
      if_cases (λ z. has a z ≡ true) (has p set)
        (λ t. cycle_covers set current p a (suc k) c e t (further current p a k e u))
        (λ f.
          covers_from n (p ∷ set) (query p) a k (Closed-cons set current p e c) u (omega arith)))

-- What makes a candidate safe.
pub record IsSafe (pid : Number) (o : PidCandidateOptions) : Type 0 where
  pub p : ℕ
  pub threshold : ℕ
  pub read : ℕ → Option ℕ
  pub start : ℕ
  pub is_positive : positive (some pid) ≡ some p
  pub not_own : is_own p o.own_pid ≡ false
  pub not_above : has p (or_default o.ancestor_pids []) ≡ false
  pub given : o.run_started_at_ms ≡ some threshold
  pub readable : o.os_start_time_fn ≡ some read
  pub started : read p ≡ some start
  pub in_run : threshold ≤ start

evaluate_sound :
    (pid : Number) (o : PidCandidateOptions) → evaluate_pid_candidate pid o ≡ none → IsSafe pid o
unfolding evaluate_pid_candidate
evaluate_sound pid o h = elim (Option-cases (positive (some pid))) [
  | inl e ↦ let g = subst (λ z. by_pid o z ≡ none) e h in cc
  | inr (p, e) ↦ with_pid p e (subst (λ z. by_pid o z ≡ none) e h)
]
  where
    with_start :
        (p t : ℕ) (f : ℕ → Option ℕ) (s : ℕ)
        → (if ltb s t then some pre_run_start else none) ≡ none
        → t ≤ s
    with_start p t f s h = ground arith

    with_clock :
        (p t : ℕ) (c : Option (ℕ → Option ℕ))
        → by_clock p t c ≡ none
        → (f : ℕ → Option ℕ) × (s : ℕ) × (c ≡ some f) × (f p ≡ some s) × (t ≤ s)
    with_clock p t none h = cc
    with_clock p t (some f) h = elim (Option-cases (f p)) [
      | inl e ↦ let g = subst (λ z. by_start t z ≡ none) e h in cc
      | inr (s, e) ↦ (f, s, refl, e, with_start p t f s (subst (λ z. by_start t z ≡ none) e h))
    ]

    with_threshold :
        (p : ℕ)
        → positive (some pid) ≡ some p
        → is_own p o.own_pid ≡ false
        → has p (or_default o.ancestor_pids []) ≡ false
        → (r : Option ℕ) → o.run_started_at_ms ≡ r
        → by_threshold p o r ≡ none
        → IsSafe pid o
    with_threshold p e own above none g h = cc
    with_threshold p e own above (some t) g h =
        let (f, s, c, d, i) = with_clock p t o.os_start_time_fn h in
        record {
          p = p;
          threshold = t;
          read = f;
          start = s;
          is_positive = e;
          not_own = own;
          not_above = above;
          given = g;
          readable = c;
          started = d;
          in_run = i;
        }

    with_pid : (p : ℕ) → positive (some pid) ≡ some p → by_pid o (some p) ≡ none → IsSafe pid o
    with_pid p e =
        if_cases {A = Option CandidateReason} (λ z. z ≡ none → IsSafe pid o) (is_own p o.own_pid)
          (λ t h. cc)
          (λ own.
            if_cases {A = Option CandidateReason} (λ z. z ≡ none → IsSafe pid o)
              (has p (or_default o.ancestor_pids [])) (λ t h. cc)
              (λ above h. with_threshold p e own above o.run_started_at_ms refl h))

evaluate_complete :
    (pid : Number) (o : PidCandidateOptions) → IsSafe pid o → evaluate_pid_candidate pid o ≡ none
unfolding evaluate_pid_candidate
evaluate_complete pid o v =
    rw (v.is_positive, v.not_own, v.not_above, v.given, v.readable, v.started)
      (if_cases {A = Option CandidateReason} (λ z. z ≡ none) (ltb v.start v.threshold)
        (λ t. late t v.in_run) (λ f. refl))
  where
    late : {s t : ℕ} → ltb s t ≡ true → t ≤ s → some pre_run_start ≡ none
    late h i = ground arith

-- A candidate passes exactly when its pid is a positive integer other than the caller's own and not
-- in the set of pids above, and it started, by a start time that can be read, no earlier than a run
-- whose start is given. If that set was built from the caller's parent, it is none of the pids above
-- the caller, up to the depth of the set, even where the chain of parents has a cycle.
pub evaluate_pid_candidate_iff :
    (pid : Number) (o : PidCandidateOptions) (query : ℕ → Option Number) (depth : ℕ) (ppid : Number)
    → ((evaluate_pid_candidate pid o ≡ none) ↔ IsSafe pid o)
      × (o.ancestor_pids ≡ some (build_ancestor_pid_set query depth ppid)
          → evaluate_pid_candidate pid o ≡ none
          → (a k : ℕ) → IsAbove query (some ppid) a k
          → k < depth
          → positive (some pid) ≢ some a)
unfolding build_ancestor_pid_set Closed
evaluate_pid_candidate_iff pid o query depth ppid = (
  (evaluate_sound pid o, evaluate_complete pid o),
  λ built passed a k u h e.
      let v = evaluate_sound pid o passed in
      let q = same_parent query (some pid) v.p a v.is_positive e in
      let there = covers_from query depth [] (some ppid) a k nothing_in u h in
      let absent =
        subst (λ (s : Option (List ℕ)). has v.p (or_default s []) ≡ false) built v.not_above in
      let absent_too =
        subst (λ z. has z (ancestors_from query depth [] (some ppid)) ≡ false) q absent in
      cc,
)
  where
    nothing_in : Closed query [] (some ppid)
    nothing_in = λ x y h g. cc

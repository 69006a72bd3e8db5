-- ===== src/JobIndex/Chain.antt =====
-- src/job-index.ts: `replyChain`, which follows the replies up from a job to its root.
use codex_job_orchestrator.Common.{
  dict_get, ℕ, zero, suc, ◌≤◌, ◌<◌, String, ◌≡◌, refl, sym, ap, ◌∙◌, subst, ◌≢◌, ◌↔◌, ◌⊎◌, inl, inr,
  Bool, true, false, not, Option, none, some, List, [], ◌∷◌, ◌++◌, arith, str_eq, eq_iff, Dict,
  length, count_if, count_if-le, if◌then◌else◌, Bool-cases, is_some, if_cases,
}
use codex_job_orchestrator.JobIndex.Types.{IndexedJob, JobIndex}
use codex_job_orchestrator.JobIndex.Sessions.{contains}
use codex_job_orchestrator.JobIndex.Record.{index_size}

-- `out_of_fuel` has no counterpart in the source; `nothing` is its null.
pub data Walk : Type 0 where
  found : List String → Walk
  nothing out_of_fuel : Walk

abbrev go_up : String → (Option String → Walk) → Option IndexedJob → Walk
go_up c go none = nothing
go_up c go (some r) = go r.reply_to_job_id

-- The loop `while (cur !== null)`, with `seen` and `chain` as they stand at its head.
unfoldable pub walk : JobIndex → ℕ → List String → List String → Option String → Walk
walk x n seen chain none = found chain
walk x zero seen chain (some c) = out_of_fuel
walk x (suc n) seen chain (some c) =
    let further = go_up c (λ cur. walk x n (c ∷ seen) (c ∷ chain) cur) (dict_get c x.by_id) in
    if contains c seen then nothing else further

-- The fuel is one round more than there are jobs.
unfoldable pub reply_chain : JobIndex → String → Walk
unfolding walk
reply_chain x id =
    let walked = walk x (suc (index_size x)) [] [] (some id) in
    if is_some (dict_get id x.by_id) then walked else nothing

-- A list whose first job answers `parent`, and each other the one before it.
abbrev pub Linked : JobIndex → Option String → List String → Type 0
Linked x parent [] = Unit
Linked x parent (c ∷ cs) =
    ((r : IndexedJob) × (dict_get c x.by_id ≡ some r) × (r.reply_to_job_id ≡ parent))
    × Linked x (some c) cs

abbrev pub Distinct : List String → Type 0
Distinct [] = Unit
Distinct (c ∷ cs) = (contains c cs ≡ false) × Distinct cs

abbrev pub last_of : Option String → List String → Option String
last_of o [] = o
last_of o (c ∷ cs) = last_of (some c) cs

-- The jobs that have not been seen.
unseen : List String → Dict IndexedJob → ℕ
unseen seen d = count_if (λ e. not (contains e.0 seen)) d

unseen-cons :
    (c : String) (seen : List String) (d : Dict IndexedJob) → unseen (c ∷ seen) d ≤ unseen seen d
unfolding unseen
unseen-cons c seen [] = omega arith
unseen-cons c seen ((j, r) ∷ d) = ground (arith, unseen-cons c seen d)

unseen-less :
    (c : String) (seen : List String) (d : Dict IndexedJob) (r : IndexedJob)
    → contains c seen ≡ false
    → dict_get c d ≡ some r
    → suc (unseen (c ∷ seen) d) ≤ unseen seen d
unfolding unseen dict_get
unseen-less c seen [] r h g = cc
unseen-less c seen ((j, w) ∷ d) r h g = elim (Bool-cases (str_eq j c)) [
  | inl e ↦
      rw (ap (λ z. contains z seen) ((eq_iff j c).0 e) ∙ h, e)
        (ground (arith, unseen-cons c seen d))
  | inr e ↦ ground (arith, unseen-less c seen d r h, unseen-cons c seen d)
]

-- A round ends the walk with nothing, or goes on from a job that had not been seen.
round_cases :
    (x : JobIndex) (c : String) (seen : List String) (go : Option String → Walk) (w : Walk)
    → (if contains c seen then nothing else go_up c go (dict_get c x.by_id)) ≡ w
    → (nothing ≡ w)
      ⊎ ((r : IndexedJob) × (contains c seen ≡ false)
          × (dict_get c x.by_id ≡ some r)
          × (go r.reply_to_job_id ≡ w))
round_cases x c seen go w h = by_seen (contains c seen) (dict_get c x.by_id) refl refl h
  where
    by_seen :
        (b : Bool) (o : Option IndexedJob)
        → contains c seen ≡ b
        → dict_get c x.by_id ≡ o
        → (if b then nothing else go_up c go o) ≡ w
        → (nothing ≡ w)
          ⊎ ((r : IndexedJob) × (contains c seen ≡ false)
              × (dict_get c x.by_id ≡ some r)
              × (go r.reply_to_job_id ≡ w))
    by_seen true o e g h = inl h
    by_seen false none e g h = inl h
    by_seen false (some r) e g h = inr (r, e, g, h)

walk_ends :
    (x : JobIndex) (n : ℕ) (seen chain : List String) (cur : Option String)
    → unseen seen x.by_id < n
    → walk x n seen chain cur ≢ out_of_fuel
unfolding walk
walk_ends x n seen chain none h e = cc
walk_ends x zero seen chain (some c) h e = omega arith
walk_ends x (suc n) seen chain (some c) h e =
    elim (round_cases x c seen (λ cur. walk x n (c ∷ seen) (c ∷ chain) cur) out_of_fuel e) [
      | inl f ↦ cc
      | inr (r, f, g, next) ↦
          walk_ends x n (c ∷ seen) (c ∷ chain) r.reply_to_job_id
            (omega (arith, unseen-less c seen x.by_id r f g)) next
    ]

unseen-start : (d : Dict IndexedJob) → unseen [] d ≤ length d
unfolding unseen
unseen-start d = count_if-le (λ e. not (contains e.0 [])) d

-- The walk up the replies ends within one round more than there are jobs in the index.
pub reply_chain-ends : (x : JobIndex) (id : String) → reply_chain x id ≢ out_of_fuel
unfolding reply_chain
reply_chain-ends x id =
    if_cases (λ w. w ≢ out_of_fuel) (is_some (dict_get id x.by_id))
      (λ t. walk_ends x (suc (index_size x)) [] [] (some id) (omega (arith, unseen-start x.by_id)))
      (λ f e. cc)

-- What the walk has gathered so far.
walk-found :
    (x : JobIndex) (id : String) (n : ℕ) (chain : List String) (cur : Option String)
    (cs : List String)
    → Linked x cur chain
    → Distinct chain
    → last_of cur chain ≡ some id
    → walk x n chain chain cur ≡ found cs
    → Linked x none cs × Distinct cs × (last_of none cs ≡ some id)
unfolding walk
walk-found x id n chain none cs l d e h =
    subst (λ ds. Linked x none ds × Distinct ds × (last_of none ds ≡ some id)) (same h) (l, d, e)
  where
    same : found chain ≡ found cs → chain ≡ cs
    same h = cc
walk-found x id zero chain (some c) cs l d e h = cc
walk-found x id (suc n) chain (some c) cs l d e h =
    elim (round_cases x c chain (λ cur. walk x n (c ∷ chain) (c ∷ chain) cur) (found cs) h) [
      | inl f ↦ cc
      | inr (r, f, g, next) ↦
          walk-found x id n (c ∷ chain) r.reply_to_job_id cs ((r, g, refl), l) (f, d) e next
    ]

-- The same chain, from its root on: the jobs above one whose parent is given.
data Above (x : JobIndex) : List String → Option String → Type 0 where
  top : Above x [] none
  below :
      (done : List String) (c : String) (r : IndexedJob)
      → Above x done r.reply_to_job_id
      → dict_get c x.by_id ≡ some r
      → Above x (done ++ (c ∷ [])) (some c)

append-snoc :
    (xs : List String) (c : String) (ys : List String) → (xs ++ (c ∷ [])) ++ ys ≡ xs ++ (c ∷ ys)
append-snoc [] c ys = refl
append-snoc (x ∷ xs) c ys = ap (λ zs. x ∷ zs) (append-snoc xs c ys)

append-nil : (xs : List String) → xs ++ [] ≡ xs
append-nil [] = refl
append-nil (x ∷ xs) = ap (λ zs. x ∷ zs) (append-nil xs)

Linked-Above :
    (x : JobIndex) (done rest : List String) (o : Option String)
    → Above x done o
    → Linked x o rest
    → Above x (done ++ rest) (last_of o rest)
Linked-Above x done [] o a l = subst (λ zs. Above x zs o) (sym (append-nil done)) a
Linked-Above x done (c ∷ rest) o a ((r, g, e), l) =
    subst (λ zs. Above x zs (last_of (some c) rest)) (append-snoc done c rest)
      (Linked-Above x (done ++ (c ∷ [])) rest (some c)
        (below done c r (subst (Above x done) (sym e) a) g) l)

Distinct-rest :
    (xs : List String) (c : String) (ys : List String)
    → Distinct (xs ++ (c ∷ ys))
    → contains c ys ≡ false
Distinct-rest [] c ys (e, d) = e
Distinct-rest (x ∷ xs) c ys (e, d) = Distinct-rest xs c ys d

-- A chain that is there is not missed.
walk-Above :
    (x : JobIndex) (above : List String) (cur : Option String)
    → Above x above cur
    → (n : ℕ) (chain : List String) → Distinct (above ++ chain)
    → unseen chain x.by_id < n
    → walk x n chain chain cur ≡ found (above ++ chain)
unfolding walk
walk-Above x above cur top n chain d h = refl
walk-Above x above cur (below done c r a g) zero chain d h = ground arith
walk-Above x above cur (below done c r a g) (suc n) chain d h =
    let e = subst Distinct (append-snoc done c chain) d in
    let fresh = Distinct-rest done c chain e in
    let rest =
      walk-Above x done r.reply_to_job_id a n (c ∷ chain) e
        (omega (arith, unseen-less c chain x.by_id r fresh g)) in
    rw (fresh, g, append-snoc done c chain) rest

last_known :
    (x : JobIndex) (o : Option String) (id : String) (cs : List String)
    → Linked x o cs
    → last_of o cs ≡ some id
    → (o ≡ some id) ⊎ (is_some (dict_get id x.by_id) ≡ true)
last_known x o id [] l e = inl e
last_known x o id (c ∷ cs) ((r, g, p), l) e = elim (last_known x (some c) id cs l e) [
  | inl h ↦ inr (rw (← one_id h, g) refl)
  | inr h ↦ inr h
]
  where
    one_id : some c ≡ some id → c ≡ id
    one_id h = cc

known_id :
    (x : JobIndex) (id : String) (cs : List String)
    → Linked x none cs
    → last_of none cs ≡ some id
    → is_some (dict_get id x.by_id) ≡ true
known_id x id cs l e = elim (last_known x none id cs l e) [ inl h ↦ cc | inr h ↦ h ]

-- The answer is a list exactly when it goes from a root, a job that answers none, to the given job,
-- each of the others answering the one before it, with every job of it on record and none twice.
pub reply_chain_iff :
    (x : JobIndex) (id : String) (cs : List String)
    → (reply_chain x id ≡ found cs) ↔ (Linked x none cs × Distinct cs × (last_of none cs ≡ some id))
unfolding reply_chain
reply_chain_iff x id cs = (
  sound,
  λ (l, d, e). rw (known_id x id cs l e) (
      walk-Above x cs (some id) (subst (Above x cs) e (Linked-Above x [] cs none top l))
        (suc (index_size x)) [] (subst Distinct (sym (append-nil cs)) d)
        (omega (arith, unseen-start x.by_id))
      ∙ ap found (append-nil cs)),
)
  where
    sound :
        reply_chain x id ≡ found cs → Linked x none cs × Distinct cs × (last_of none cs ≡ some id)
    sound h =
        if_cases (λ w. w ≡ found cs → Linked x none cs × Distinct cs × (last_of none cs ≡ some id))
          (is_some (dict_get id x.by_id))
          (λ t g. walk-found x id (suc (index_size x)) [] (some id) cs tt tt refl g) (λ f g. cc) h

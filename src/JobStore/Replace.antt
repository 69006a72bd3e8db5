-- ===== src/JobStore/Replace.antt =====
-- src/job-store.ts: `renameWithRetry` and `atomicWriteJson`. The file system and the clock are given
-- by what each attempt meets; sleeping, and the text of an error, are not modelled.
-- What `renameSync` does, and the time since the start at which a failure is seen.
use codex_job_orchestrator.Common.{
  ℕ, zero, suc, ◌+◌, ◌≤◌, ◌<◌, ◌≡◌, refl, ap, ◌⊎◌, inl, inr, Bool, true, false, not, ◌&&◌, ◌||◌,
  Option, some, arith, ltb, if◌then◌else◌, ltb→lt, lt→ltb, Bool-cases,
}

pub data RenameOutcome : Type 0 where
  renamed : RenameOutcome
  transient : ℕ → RenameOutcome
  other_error : RenameOutcome

pub data Loop : Type 0 where
  done raised unfinished : Loop

abbrev pub rename_max_attempts : ℕ
rename_max_attempts = 6

abbrev pub rename_max_total_ms : ℕ
rename_max_total_ms = 300

-- The loop from attempt n on: `go` is the rest of the loop.
abbrev pub rename_step : RenameOutcome → ℕ → Loop → Loop
rename_step renamed n go = done
rename_step (transient elapsed) n go =
    if ltb n rename_max_attempts && ltb elapsed rename_max_total_ms then go else raised
rename_step other_error n go = raised

unfoldable pub rename_loop : ℕ → ℕ → (ℕ → RenameOutcome) → Loop
rename_loop zero n meets = unfinished
rename_loop (suc fuel) n meets = rename_step (meets n) n (rename_loop fuel (suc n) meets)

-- As many passes as attempts are enough, so there is never an `unfinished` one.
unfoldable pub rename_with_retry : (ℕ → RenameOutcome) → Loop
unfolding rename_loop
rename_with_retry meets = rename_loop rename_max_attempts 1 meets

-- The target and the temporary file beside it.
pub record Target {ℓ} (A : Type ℓ) : Type ℓ where
  pub content : Option A
  pub tmp_left : Bool

pub data TmpWrite : Type 0 where
  complete : TmpWrite
  failed_with_file failed_without_file : TmpWrite

module _ {ℓ} {A : Type ℓ} where
  abbrev pub after_rename : Loop → Bool → A → Target A → Bool × Target A
  after_rename done unlinked x t = (true, record { content = some x; tmp_left = t.tmp_left })
  after_rename raised unlinked x t =
      (false, record { content = t.content; tmp_left = t.tmp_left || not unlinked })
  after_rename unfinished unlinked x t = (false, t)

  -- Whether the call returns, and the files after it. `unlinked` says whether the cleanup works.
  unfoldable pub atomic_write_json :
      TmpWrite → (ℕ → RenameOutcome) → Bool → A → Target A → Bool × Target A
  unfolding rename_with_retry
  atomic_write_json complete meets unlinked x t =
      after_rename (rename_with_retry meets) unlinked x t
  atomic_write_json failed_with_file meets unlinked x t =
      (false, record { content = t.content; tmp_left = t.tmp_left || not unlinked })
  atomic_write_json failed_without_file meets unlinked x t = (false, t)

-- Within k attempts from the n-th on, the rename works, after failures that are all transient and
-- within the time.
abbrev pub Reaches : (ℕ → RenameOutcome) → ℕ → ℕ → Type 0
Reaches meets zero n = true ≡ false
Reaches meets (suc k) n =
    (meets n ≡ renamed)
    ⊎ ((e : ℕ) × (meets n ≡ transient e) × (e < rename_max_total_ms) × Reaches meets k (suc n))

-- How the loop ended, against what the attempts meet.
abbrev pub Ends : Type 0 → Loop → Type 0
Ends R l = ((l ≡ done) × R) ⊎ ((l ≡ raised) × (R → true ≡ false))

abbrev Later : (ℕ → RenameOutcome) → ℕ → ℕ → RenameOutcome → Type 0
Later meets k n o =
    (o ≡ renamed)
    ⊎ ((e : ℕ) × (o ≡ transient e) × (e < rename_max_total_ms) × Reaches meets k (suc n))

abbrev elapsed_of : RenameOutcome → ℕ
elapsed_of renamed = 0
elapsed_of (transient e) = e
elapsed_of other_error = 0

-- The last attempt allowed.
transient-last :
    (meets : ℕ → RenameOutcome) (n e : ℕ) (r : Loop)
    → rename_max_attempts ≤ n
    → Ends (Later meets zero n (transient e)) (rename_step (transient e) n r)
transient-last meets n e r b = inr (ground arith, λ x. elim x [ inl h ↦ cc | inr (f, h, l, s) ↦ s ])

transient-more :
    (meets : ℕ → RenameOutcome) (k n e : ℕ) (r : Loop)
    → n < rename_max_attempts
    → Ends (Reaches meets k (suc n)) r
    → Ends (Later meets k n (transient e)) (rename_step (transient e) n r)
transient-more meets k n e r b rest = elim (Bool-cases (ltb e rename_max_total_ms)) [
  | inl t ↦
      rw (lt→ltb n rename_max_attempts b, t)
        (elim rest [
          | inl (d, s) ↦ inl (d, inr (e, refl, ltb→lt e rename_max_total_ms t, s))
          | inr (d, never) ↦ inr (d, λ x. elim x [ inl h ↦ cc | inr (f, h, l, s) ↦ never s ])
        ])
  | inr f ↦ inr (
    ground arith,
    λ x. elim x [
      | inl h ↦ cc
      | inr (g, h, l, s) ↦
          let q = ap elapsed_of h in let w = lt→ltb g rename_max_total_ms l in ground arith
    ],
  )
]

step-Ends :
    (meets : ℕ → RenameOutcome) (k n : ℕ) (r : Loop) (o : RenameOutcome)
    → k + n ≡ rename_max_attempts
    → (n < rename_max_attempts → Ends (Reaches meets k (suc n)) r)
    → Ends (Later meets k n o) (rename_step o n r)
step-Ends meets k n r renamed b rest = inl (refl, inl refl)
step-Ends meets k n r other_error b rest =
    inr (refl, λ x. elim x [ inl h ↦ cc | inr (e, h, l, s) ↦ cc ])
step-Ends meets zero n r (transient e) b rest = transient-last meets n e r (omega arith)
step-Ends meets (suc k) n r (transient e) b rest =
    transient-more meets (suc k) n e r (omega arith) (rest (omega arith))

rename_loop-Ends :
    (meets : ℕ → RenameOutcome) (k n : ℕ)
    → k + n ≡ rename_max_attempts
    → Ends (Reaches meets (suc k) n) (rename_loop (suc k) n meets)
unfolding rename_loop
rename_loop-Ends meets zero n b =
    step-Ends meets zero n (rename_loop zero (suc n) meets) (meets n) b (λ l. ground arith)
rename_loop-Ends meets (suc k) n b =
    step-Ends meets (suc k) n (rename_loop (suc k) (suc n) meets) (meets n) b
      (λ l. rename_loop-Ends meets k (suc n) (omega arith))

-- The retry loop ends: it returns if the rename works at one of the first six attempts, after
-- failures that are all transient and within 300 ms, and raises the error otherwise.
pub rename_with_retry-Ends :
    (meets : ℕ → RenameOutcome)
    → Ends (Reaches meets rename_max_attempts 1) (rename_with_retry meets)
unfolding rename_with_retry
rename_with_retry-Ends meets = rename_loop-Ends meets 5 1 refl

-- The temporary file is complete, and the rename works within its attempts.
abbrev pub Replaces : TmpWrite → (ℕ → RenameOutcome) → Type 0
Replaces w meets = (w ≡ complete) × Reaches meets rename_max_attempts 1

left_over :
    (a u : Bool) → a || not u ≡ true → (a ≡ true) ⊎ (◌≡◌ {A = Bool} false false × (u ≡ false))
left_over true u e = inl refl
left_over false false e = inr (refl, refl)
left_over false true e = cc

module _ {ℓ} {A : Type ℓ} where
  -- Against the file before: the call returns and the file holds the new content, exactly if the
  -- file is really replaced; else it throws and the file holds the old one. A temporary file is
  -- left over only if one was before, or the call throws and its cleanup fails.
  abbrev pub IsAtomic :
      TmpWrite → (ℕ → RenameOutcome) → Bool → A → Target A → Bool × Target A → Type ℓ
  IsAtomic w meets unlinked x t r =
      (((r.0 ≡ true) × Replaces w meets × (r.1.content ≡ some x))
        ⊎ ((r.0 ≡ false) × (Replaces w meets → true ≡ false) × (r.1.content ≡ t.content)))
      × (r.1.tmp_left ≡ true → (t.tmp_left ≡ true) ⊎ ((r.0 ≡ false) × (unlinked ≡ false)))

  after_rename-IsAtomic :
      (meets : ℕ → RenameOutcome) (l : Loop) (unlinked : Bool) (x : A) (t : Target A)
      → Ends (Reaches meets rename_max_attempts 1) l
      → IsAtomic complete meets unlinked x t (after_rename l unlinked x t)
  after_rename-IsAtomic meets done u x t (inl (e, s)) = (inl (refl, (refl, s), refl), inl)
  after_rename-IsAtomic meets done u x t (inr (e, never)) = cc
  after_rename-IsAtomic meets raised u x t (inl (e, s)) = cc
  after_rename-IsAtomic meets raised u x t (inr (e, never)) =
      (inr (refl, (λ r. never r.1), refl), left_over t.tmp_left u)
  after_rename-IsAtomic meets unfinished u x t (inl (e, s)) = cc
  after_rename-IsAtomic meets unfinished u x t (inr (e, never)) = cc

  -- However the write of the temporary file, the renames and the cleanup end: if the temporary file
  -- is complete and the rename works at one of its six attempts, after failures that are all
  -- transient and within 300 ms, the call returns and the file holds the new content. Otherwise it
  -- throws and the file is as it was. No temporary file of the call is left, unless it throws and
  -- its cleanup fails.
  pub atomic_write_json-IsAtomic :
      (w : TmpWrite) (meets : ℕ → RenameOutcome) (unlinked : Bool) (x : A) (t : Target A)
      → IsAtomic w meets unlinked x t (atomic_write_json w meets unlinked x t)
  unfolding atomic_write_json
  atomic_write_json-IsAtomic complete meets u x t =
      after_rename-IsAtomic meets (rename_with_retry meets) u x t (rename_with_retry-Ends meets)
  atomic_write_json-IsAtomic failed_with_file meets u x t =
      (inr (refl, (λ r. not_complete r.0), refl), left_over t.tmp_left u)
    where
      not_complete : failed_with_file ≡ complete → true ≡ false
      not_complete e = cc
  atomic_write_json-IsAtomic failed_without_file meets u x t =
      (inr (refl, (λ r. not_complete r.0), refl), inl)
    where
      not_complete : failed_without_file ≡ complete → true ≡ false
      not_complete e = cc

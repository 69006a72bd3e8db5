-- ===== src/JobStore/History.antt =====
-- src/job-store.ts: any sequence of creations and updates, by any processes.
-- One operation of the store, by whichever process.
use codex_job_orchestrator.Common.{
  String, ◌≡◌, refl, sym, ap, ◌∙◌, subst, inl, inr, Bool, true, false, not, ◌&&◌, is_empty, Option,
  none, some, List, [], ◌∷◌, str_eq, eq_iff, All, Bool-cases, or_default, if_cases,
}
use codex_job_orchestrator.JobStore.{
  is_valid_job_record, Job, JobPatch, Store, LockAnswer, Answer, apply_patch, read_job, write_file,
  update_job_under_lock, update_job, patch_if, update_job_if, create_under_lock, create_job_record,
  acquired, held, lock_throws,
}
use codex_job_orchestrator.JobStore.Monotone.{
  allowed_refl, read_job-write_file, checked-eq, Keeps, IsNamed, Forward, Good, Forward-refl,
  Forward-trans, attempts-Good,
}

pub data Operation {ℓ} (A : Type ℓ) : Type ℓ where
  creates : LockAnswer → Bool → Job A → Operation A
  updates : (LockAnswer × LockAnswer × LockAnswer) → Bool → String → JobPatch A → Operation A
  updates_if :
      (LockAnswer × LockAnswer × LockAnswer)
      → Bool
      → String
      → (Job A → Bool)
      → JobPatch A
      → Operation A

in_second : {b c : Bool} (a : Bool) → (b ≡ true → c ≡ true) → a && b ≡ true → a && c ≡ true
in_second true f e = f e
in_second false f e = e

module _ {ℓ} {A : Type ℓ} (ok : A → Bool) where
  unfoldable pub perform : Operation A → Store A → Store A
  perform (creates l w j) s = (create_job_record ok l w j s).1
  perform (updates l w id p) s = (update_job ok l w id p s).1
  perform (updates_if l w id g p) s = (update_job_if ok l w id g p s).1

  unfoldable pub run : List (Operation A) → Store A → Store A
  unfolding perform
  run [] s = s
  run (o ∷ os) s = run os (perform o s)

  -- A patch renames no job and leaves the fields of a valid record valid.
  abbrev pub IsSound : JobPatch A → Type ℓ
  IsSound p = (p.job_id ≡ none) × ((b : A) → ok b ≡ true → ok (p.body b) ≡ true)

  abbrev pub PatchesSoundly : Operation A → Type ℓ
  PatchesSoundly (creates l w j) = Unit
  PatchesSoundly (updates l w id p) = IsSound p
  PatchesSoundly (updates_if l w id g p) = IsSound p

  apply_patch-keeps :
      (p : JobPatch A) (cur : Job A)
      → IsSound p
      → is_valid_job_record ok cur ≡ true
      → ((apply_patch cur p).job_id ≡ cur.job_id)
        × (is_valid_job_record ok (apply_patch cur p) ≡ true)
  unfolding apply_patch
  apply_patch-keeps p cur (e, k) v =
      let same = ap (λ i. or_default i cur.job_id) e in
      (same, rw same (in_second (not (is_empty cur.job_id)) (k cur.body) v))

  patch-Keeps : (p : JobPatch A) → IsSound p → Keeps ok (λ cur. some (apply_patch cur p))
  patch-Keeps p k cur next v h =
      subst
        (λ o.
          ((or_default o cur).job_id ≡ cur.job_id)
          × (is_valid_job_record ok (or_default o cur) ≡ true))
        h (apply_patch-keeps p cur k v)

  patch_if-Keeps : (g : Job A → Bool) (p : JobPatch A) → IsSound p → Keeps ok (patch_if g p)
  patch_if-Keeps g p k cur next v =
      if_cases {A = Option (Job A)}
        (λ o. o ≡ some next → (next.job_id ≡ cur.job_id) × (is_valid_job_record ok next ≡ true))
        (g cur) (λ t h. patch-Keeps p k cur next v h) (λ f h. cc)

  fresh-Good :
      (s : Store A) (j : Job A)
      → IsNamed ok s.files
      → read_job ok j.job_id s.files ≡ none
      → IsNamed ok (write_file j.job_id j s.files)
        × Forward ok s.files (write_file j.job_id j s.files)
  fresh-Good s j n e = (
    λ i c f.
        if_cases {A = Option (Job A)} (λ o. o ≡ some c → c.job_id ≡ i) (str_eq j.job_id i)
          (λ t eq.
            subst (λ o. (or_default o j).job_id ≡ i) (checked-eq ok (some j) c eq)
              ((eq_iff j.job_id i).0 t))
          (λ x eq. n i c eq) (sym (read_job-write_file ok i j.job_id j s.files) ∙ f),
    λ i c f. elim (Bool-cases (str_eq j.job_id i)) [
      | inl t ↦
          let g = subst (λ x. read_job ok x s.files ≡ some c) (sym ((eq_iff j.job_id i).0 t)) f in
          cc
      | inr x ↦ (c, read_job-write_file ok i j.job_id j s.files ∙ rw x f, allowed_refl c.status)
    ],
  )

  create_under_lock-Good :
      (w : Bool) (j : Job A) (o : Option (Job A)) (s : Store A)
      → IsNamed ok s.files
      → read_job ok j.job_id s.files ≡ o
      → Good ok s.files (create_under_lock w j o s)
  create_under_lock-Good w j (some cur) s n e = (n, Forward-refl ok s.files)
  create_under_lock-Good w j none s n e =
      if_cases {A = Answer (Option (Job A)) × Store A} (Good ok s.files) w (λ t. fresh-Good s j n e)
        (λ f. (n, Forward-refl ok s.files))

  perform-Forward :
      (o : Operation A) (s : Store A)
      → PatchesSoundly o
      → IsNamed ok s.files
      → IsNamed ok (perform o s).files × Forward ok s.files (perform o s).files
  unfolding perform create_job_record update_job update_job_if update_job_under_lock
  perform-Forward (creates acquired w j) s k n =
      create_under_lock-Good w j (read_job ok j.job_id s.files) s n refl
  perform-Forward (creates held w j) s k n = (n, Forward-refl ok s.files)
  perform-Forward (creates lock_throws w j) s k n = (n, Forward-refl ok s.files)
  perform-Forward (updates (a, b, c) w id p) s k n =
      attempts-Good ok (a ∷ b ∷ c ∷ []) w s id (λ cur. some (apply_patch cur p)) n (patch-Keeps p k)
  perform-Forward (updates_if (a, b, c) w id g p) s k n =
      attempts-Good ok (a ∷ b ∷ c ∷ []) w s id (patch_if g p) n (patch_if-Keeps g p k)

  -- Whatever creations and updates are made, by any processes, and whichever of them fail to lock
  -- or to write: a record that reads as valid still does, under its own id, and its status stays or
  -- moves forward through queued, running, needs_attention and a terminal status. At the start each
  -- valid record stands in the file of its id; no patch renames its job, and none makes a valid
  -- record fail the tests of a read. A record may be created invalid.
  pub run-Forward :
      (os : List (Operation A)) (s : Store A)
      → All PatchesSoundly os
      → IsNamed ok s.files
      → IsNamed ok (run os s).files × Forward ok s.files (run os s).files
  unfolding run
  run-Forward [] s k n = (n, Forward-refl ok s.files)
  run-Forward (o ∷ os) s (k, ks) n =
      let (n2, f) = perform-Forward o s k n in
      let (n3, g) = run-Forward os (perform o s) ks n2 in
      (n3, Forward-trans ok s.files (perform o s).files (run os (perform o s)).files f g)

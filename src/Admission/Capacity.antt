-- ===== src/Admission/Capacity.antt =====
-- src/admission.ts: the limits that the leases of a table respect, and what keeps them.
use codex_job_orchestrator.Common.{
  ℕ, ◌≤◌, ◌≡◌, inl, inr, Bool, true, false, ◌&&◌, none, List, [], ◌∷◌, ◌++◌, map, arith, str_eq,
  length, any, count_if, All, Bool-cases,
}
use codex_job_orchestrator.Admission.Types.{AdmissionRequest, AdmissionLease, Host}
use codex_job_orchestrator.Admission.Evaluate.{
  canonical_work_folder, is_heavy, uses_space, same_space,
}
use codex_job_orchestrator.Admission.Files.{PidInspector, is_live}
use codex_job_orchestrator.Admission.Manager.{lease_info}
use codex_job_orchestrator.Admission.Table.{find_lease, live_only}

abbrev pub heavy_lease : AdmissionLease → Bool
heavy_lease l = is_heavy l.resource_class

-- Two leases that write to the same derived space.
abbrev pub clashes : Host → AdmissionLease → AdmissionLease → Bool
clashes h l m =
    uses_space l.resource_class
    && uses_space m.resource_class
    && str_eq (canonical_work_folder h l.work_folder) (canonical_work_folder h m.work_folder)

-- No lease of the list clashes with a later one.
abbrev pub Apart : Host → List AdmissionLease → Type 0
Apart h [] = Unit
Apart h (l ∷ ls) = All (λ m. clashes h l m ≡ false) ls × Apart h ls

abbrev pub Distinct : List AdmissionLease → Type 0
Distinct [] = Unit
Distinct (l ∷ ls) = All (λ m. str_eq l.job_id m.job_id ≡ false) ls × Distinct ls

-- At most `ceiling` leases and `heavies` heavy ones, one a job, no two in one derived space.
pub record IsWithin (ceiling heavies : ℕ) (h : Host) (ls : List AdmissionLease) : Type 0 where
  pub bounded : length ls ≤ ceiling
  pub heavy_bounded : count_if heavy_lease ls ≤ heavies
  pub apart : Apart h ls
  pub distinct : Distinct ls

-- What a sweep leaves is part of what was there.
pub All-live_only :
    (P : AdmissionLease → Type 0) (i : PidInspector) (now : ℕ) (ls : List AdmissionLease)
    → All P ls
    → All P (live_only i now ls)
unfolding live_only
All-live_only P i now [] v = tt
All-live_only P i now (l ∷ ls) v = elim (Bool-cases (is_live i now l)) [
  | inl e ↦ rw e (v.0, All-live_only P i now ls v.1)
  | inr e ↦ rw e (All-live_only P i now ls v.1)
]

length-live_only :
    (i : PidInspector) (now : ℕ) (ls : List AdmissionLease)
    → length (live_only i now ls) ≤ length ls
unfolding live_only
length-live_only i now [] = omega arith
length-live_only i now (l ∷ ls) = ground (arith, length-live_only i now ls)

heavies-live_only :
    (i : PidInspector) (now : ℕ) (ls : List AdmissionLease)
    → count_if heavy_lease (live_only i now ls) ≤ count_if heavy_lease ls
unfolding live_only
heavies-live_only i now [] = omega arith
heavies-live_only i now (l ∷ ls) = ground (arith, heavies-live_only i now ls)

Apart-live_only :
    (h : Host) (i : PidInspector) (now : ℕ) (ls : List AdmissionLease)
    → Apart h ls
    → Apart h (live_only i now ls)
unfolding live_only
Apart-live_only h i now [] a = tt
Apart-live_only h i now (l ∷ ls) a = elim (Bool-cases (is_live i now l)) [
  | inl e ↦
      rw e (All-live_only (λ m. clashes h l m ≡ false) i now ls a.0, Apart-live_only h i now ls a.1)
  | inr e ↦ rw e (Apart-live_only h i now ls a.1)
]

Distinct-live_only :
    (i : PidInspector) (now : ℕ) (ls : List AdmissionLease)
    → Distinct ls
    → Distinct (live_only i now ls)
unfolding live_only
Distinct-live_only i now [] a = tt
Distinct-live_only i now (l ∷ ls) a = elim (Bool-cases (is_live i now l)) [
  | inl e ↦ rw e (
    All-live_only (λ m. str_eq l.job_id m.job_id ≡ false) i now ls a.0,
    Distinct-live_only i now ls a.1,
  )
  | inr e ↦ rw e (Distinct-live_only i now ls a.1)
]

pub IsWithin-live_only :
    (c v : ℕ) (h : Host) (i : PidInspector) (now : ℕ) (ls : List AdmissionLease)
    → IsWithin c v h ls
    → IsWithin c v h (live_only i now ls)
IsWithin-live_only c v h i now ls w = record {
  bounded = omega (arith, w, length-live_only i now ls);
  heavy_bounded = omega (arith, w, heavies-live_only i now ls);
  apart = Apart-live_only h i now ls w.apart;
  distinct = Distinct-live_only i now ls w.distinct;
}

-- A lease added at the end.
pub All-append {ℓ κ} :
    {A : Type ℓ} (P : A → Type κ) (xs : List A) (x : A) → All P xs → P x → All P (xs ++ x ∷ [])
All-append P [] x v p = (p, tt)
All-append P (y ∷ ys) x v p = (v.0, All-append P ys x v.1 p)

pub Apart-append :
    (h : Host) (ls : List AdmissionLease) (x : AdmissionLease)
    → Apart h ls
    → All (λ m. clashes h m x ≡ false) ls
    → Apart h (ls ++ x ∷ [])
Apart-append h [] x a c = (tt, tt)
Apart-append h (l ∷ ls) x a c =
    (All-append (λ m. clashes h l m ≡ false) ls x a.0 c.0, Apart-append h ls x a.1 c.1)

pub Distinct-append :
    (ls : List AdmissionLease) (x : AdmissionLease)
    → Distinct ls
    → find_lease x.job_id ls ≡ none
    → Distinct (ls ++ x ∷ [])
unfolding find_lease
Distinct-append [] x a c = (tt, tt)
Distinct-append (l ∷ ls) x a c = (
  All-append (λ m. str_eq l.job_id m.job_id ≡ false) ls x a.0 (ground arith),
  Distinct-append ls x a.1 (ground arith),
)

-- No active lease in the request's space means that none clashes with the lease it gets.
pub no_clash :
    (h : Host) (r : AdmissionRequest) (x : AdmissionLease) (ls : List AdmissionLease)
    → x.resource_class ≡ r.resource_class
    → x.work_folder ≡ r.work_folder
    → (uses_space r.resource_class ≡ true
        → any (same_space h (canonical_work_folder h r.work_folder)) (map lease_info ls) ≡ false)
    → All (λ m. clashes h m x ≡ false) ls
no_clash h r x [] c w free = tt
no_clash h r x (l ∷ ls) c w free = (
  elim (Bool-cases (uses_space r.resource_class)) [
    | inl e ↦ rw (c, w, e) (ground (arith, free e))
    | inr e ↦ rw (c, e) (ground arith)
  ],
  no_clash h r x ls c w (λ e. ground (arith, free e)),
)

-- ===== src/Admission/Updates.antt =====
-- src/admission.ts: heartbeats, transfers and releases keep the limits of a table.
use codex_job_orchestrator.Common.{
  ℕ, ◌≤◌, String, ◌≡◌, subst, inl, inr, false, some, List, [], ◌∷◌, arith, str_eq, length, count_if,
  All, Bool-cases,
}
use codex_job_orchestrator.Admission.Types.{AdmissionLease, Host}
use codex_job_orchestrator.Admission.Table.{find_lease, put_lease, remove_lease}
use codex_job_orchestrator.Admission.Capacity.{heavy_lease, clashes, Apart, Distinct, IsWithin}

-- The parts of a lease that the limits are about.
abbrev pub SameClaim : AdmissionLease → AdmissionLease → Type 0
SameClaim l x =
    (x.job_id ≡ l.job_id) × (x.resource_class ≡ l.resource_class) × (x.work_folder ≡ l.work_folder)

All-mono {κ} :
    (P Q : AdmissionLease → Type κ) (ls : List AdmissionLease)
    → ((m : AdmissionLease) → P m → Q m)
    → All P ls
    → All Q ls
All-mono P Q [] f v = tt
All-mono P Q (l ∷ ls) f v = (f l v.0, All-mono P Q ls f v.1)

module _ (id : String) (l x : AdmissionLease) where
  pub All-put_lease :
      (P : AdmissionLease → Type 0) (ls : List AdmissionLease)
      → find_lease id ls ≡ some l
      → (P l → P x)
      → All P ls
      → All P (put_lease id x ls)
  unfolding find_lease put_lease
  All-put_lease P [] e f v = cc
  All-put_lease P (m ∷ ls) e f v = elim (Bool-cases (str_eq m.job_id id)) [
    | inl h ↦ rw h (f (subst P (ground arith) v.0), v.1)
    | inr h ↦ rw h (v.0, All-put_lease P ls (ground arith) f v.1)
  ]

  length-put_lease :
      (ls : List AdmissionLease)
      → find_lease id ls ≡ some l
      → length (put_lease id x ls) ≡ length ls
  unfolding find_lease put_lease
  length-put_lease [] e = cc
  length-put_lease (m ∷ ls) e = ground (arith, length-put_lease ls)

  heavies-put_lease :
      (ls : List AdmissionLease)
      → find_lease id ls ≡ some l
      → x.resource_class ≡ l.resource_class
      → count_if heavy_lease (put_lease id x ls) ≡ count_if heavy_lease ls
  unfolding find_lease put_lease
  heavies-put_lease [] e c = cc
  heavies-put_lease (m ∷ ls) e c = ground (arith, heavies-put_lease ls)

  Apart-put_lease :
      (h : Host) (ls : List AdmissionLease)
      → find_lease id ls ≡ some l
      → SameClaim l x
      → Apart h ls
      → Apart h (put_lease id x ls)
  unfolding find_lease put_lease
  Apart-put_lease h [] e s a = cc
  Apart-put_lease h (m ∷ ls) e s a = elim (Bool-cases (str_eq m.job_id id)) [
    | inl t ↦
        let same : m ≡ l = ground arith in
        rw t (
          All-mono (λ n. clashes h m n ≡ false) (λ n. clashes h x n ≡ false) ls
              (λ n c. rw (s.1, s.2, ← same) c) a.0,
          a.1,
        )
    | inr t ↦ rw t (
      All-put_lease (λ n. clashes h m n ≡ false) ls (ground arith) (λ c. rw (s.1, s.2) c) a.0,
      Apart-put_lease h ls (ground arith) s a.1,
    )
  ]

  Distinct-put_lease :
      (ls : List AdmissionLease)
      → find_lease id ls ≡ some l
      → x.job_id ≡ l.job_id
      → Distinct ls
      → Distinct (put_lease id x ls)
  unfolding find_lease put_lease
  Distinct-put_lease [] e s a = cc
  Distinct-put_lease (m ∷ ls) e s a = elim (Bool-cases (str_eq m.job_id id)) [
    | inl t ↦
        let same : m ≡ l = ground arith in
        rw t (
          All-mono (λ n. str_eq m.job_id n.job_id ≡ false) (λ n. str_eq x.job_id n.job_id ≡ false)
              ls (λ n c. rw (s, ← same) c) a.0,
          a.1,
        )
    | inr t ↦ rw t (
      All-put_lease (λ n. str_eq m.job_id n.job_id ≡ false) ls (ground arith) (λ c. rw s c) a.0,
      Distinct-put_lease ls (ground arith) s a.1,
    )
  ]

  -- Giving a job's lease new times or a new process keeps the limits.
  pub IsWithin-put_lease :
      (c v : ℕ) (h : Host) (ls : List AdmissionLease)
      → find_lease id ls ≡ some l
      → SameClaim l x
      → IsWithin c v h ls
      → IsWithin c v h (put_lease id x ls)
  IsWithin-put_lease c v h ls e s w = record {
    bounded = omega (arith, w, length-put_lease ls e);
    heavy_bounded = omega (arith, w, heavies-put_lease ls e s.1);
    apart = Apart-put_lease h ls e s w.apart;
    distinct = Distinct-put_lease ls e s.0 w.distinct;
  }

module _ (id : String) where
  pub All-remove_lease :
      (P : AdmissionLease → Type 0) (ls : List AdmissionLease)
      → All P ls
      → All P (remove_lease id ls)
  unfolding remove_lease
  All-remove_lease P [] v = tt
  All-remove_lease P (m ∷ ls) v = elim (Bool-cases (str_eq m.job_id id)) [
    | inl h ↦ rw h v.1
    | inr h ↦ rw h (v.0, All-remove_lease P ls v.1)
  ]

  length-remove_lease : (ls : List AdmissionLease) → length (remove_lease id ls) ≤ length ls
  unfolding remove_lease
  length-remove_lease [] = omega arith
  length-remove_lease (m ∷ ls) = ground (arith, length-remove_lease ls)

  heavies-remove_lease :
      (ls : List AdmissionLease)
      → count_if heavy_lease (remove_lease id ls) ≤ count_if heavy_lease ls
  unfolding remove_lease
  heavies-remove_lease [] = omega arith
  heavies-remove_lease (m ∷ ls) = ground (arith, heavies-remove_lease ls)

  Apart-remove_lease :
      (h : Host) (ls : List AdmissionLease) → Apart h ls → Apart h (remove_lease id ls)
  unfolding remove_lease
  Apart-remove_lease h [] a = tt
  Apart-remove_lease h (m ∷ ls) a = elim (Bool-cases (str_eq m.job_id id)) [
    | inl t ↦ rw t a.1
    | inr t ↦
        rw t (All-remove_lease (λ n. clashes h m n ≡ false) ls a.0, Apart-remove_lease h ls a.1)
  ]

  Distinct-remove_lease : (ls : List AdmissionLease) → Distinct ls → Distinct (remove_lease id ls)
  unfolding remove_lease
  Distinct-remove_lease [] a = tt
  Distinct-remove_lease (m ∷ ls) a = elim (Bool-cases (str_eq m.job_id id)) [
    | inl t ↦ rw t a.1
    | inr t ↦ rw t (
      All-remove_lease (λ n. str_eq m.job_id n.job_id ≡ false) ls a.0,
      Distinct-remove_lease ls a.1,
    )
  ]

  -- Removing a job's lease keeps the limits.
  pub IsWithin-remove_lease :
      (c v : ℕ) (h : Host) (ls : List AdmissionLease)
      → IsWithin c v h ls
      → IsWithin c v h (remove_lease id ls)
  IsWithin-remove_lease c v h ls w = record {
    bounded = omega (arith, w, length-remove_lease ls);
    heavy_bounded = omega (arith, w, heavies-remove_lease ls);
    apart = Apart-remove_lease h ls w.apart;
    distinct = Distinct-remove_lease ls w.distinct;
  }

-- ===== src/Admission/Table.antt =====
-- src/admission.ts: the lease files seen as a table of leases, and the file operations on it.
use codex_job_orchestrator.Common.{
  ℕ, String, ◌≡◌, refl, ap, subst, inl, inr, false, Option, none, some, List, [], ◌∷◌, ◌++◌, arith,
  str_eq, eq_iff, All, if◌then◌else◌, Bool-cases, Json,
}
use codex_job_orchestrator.Admission.Types.{AdmissionLease, Host}
use codex_job_orchestrator.Admission.Lease.{encode_lease, IsLease, parse_lease-encode_lease}
use codex_job_orchestrator.Admission.Files.{
  Dir, Area, PidInspector, Disk, find_file, put_file, remove_file, archive_file, is_live,
  live_lease, sweep_files, sweep_leases,
}
use text.Mathlib.TextPositions.{eq_refl}

-- The directory in which each lease of the table has its file.
abbrev pub files : List AdmissionLease → Dir
files [] = []
files (l ∷ ls) = (l.job_id, some (encode_lease l)) ∷ files ls

unfoldable pub find_lease : String → List AdmissionLease → Option AdmissionLease
find_lease id [] = none
find_lease id (l ∷ ls) = if str_eq l.job_id id then some l else find_lease id ls

unfoldable pub put_lease : String → AdmissionLease → List AdmissionLease → List AdmissionLease
put_lease id x [] = x ∷ []
put_lease id x (l ∷ ls) = if str_eq l.job_id id then x ∷ ls else l ∷ put_lease id x ls

unfoldable pub remove_lease : String → List AdmissionLease → List AdmissionLease
remove_lease id [] = []
remove_lease id (l ∷ ls) = if str_eq l.job_id id then ls else l ∷ remove_lease id ls

unfoldable pub live_only : PidInspector → ℕ → List AdmissionLease → List AdmissionLease
live_only i now [] = []
live_only i now (l ∷ ls) =
    let rest = live_only i now ls in if is_live i now l then l ∷ rest else rest

-- The faults that an operation may meet without miscounting: it can create or replace or fail to.
pub record IsReadable (d : Disk) : Type 0 where
  pub lists : d.listing_fails ≡ false
  pub reads : (id : String) → d.read_fails id ≡ false
  pub moves : (id : String) → d.move_fails id ≡ false

abbrev pub file_of : Option AdmissionLease → Option (Option Json)
file_of none = none
file_of (some l) = some (some (encode_lease l))

pub find_file-files :
    (id : String) (ls : List AdmissionLease) → find_file id (files ls) ≡ file_of (find_lease id ls)
unfolding find_file find_lease
find_file-files id [] = refl
find_file-files id (l ∷ ls) = ground (arith, find_file-files id ls)

pub put_file-files :
    (id : String) (x : AdmissionLease) (ls : List AdmissionLease)
    → x.job_id ≡ id
    → put_file id (some (encode_lease x)) (files ls) ≡ files (put_lease id x ls)
unfolding put_file put_lease
put_file-files id x [] e = rw (← e)
put_file-files id x (l ∷ ls) e = ground (arith, put_file-files id x ls e, eq_iff l.job_id id)

pub remove_file-files :
    (id : String) (ls : List AdmissionLease)
    → remove_file id (files ls) ≡ files (remove_lease id ls)
unfolding remove_file remove_lease
remove_file-files id [] = refl
remove_file-files id (l ∷ ls) = ground (arith, remove_file-files id ls)

pub files-append : (ls ms : List AdmissionLease) → files (ls ++ ms) ≡ files ls ++ files ms
files-append [] ms = refl
files-append (l ∷ ls) ms = ap (◌∷◌ (l.job_id, some (encode_lease l))) (files-append ls ms)

pub find_lease_sound :
    (id : String) (ls : List AdmissionLease) (l : AdmissionLease)
    → All IsLease ls
    → find_lease id ls ≡ some l
    → IsLease l × (l.job_id ≡ id)
unfolding find_lease
find_lease_sound id [] l v e = cc
find_lease_sound id (m ∷ ls) l v e = elim (Bool-cases (str_eq m.job_id id)) [
  | inl h ↦ subst (λ x. IsLease x × (x.job_id ≡ id)) (ground arith) (v.0, (eq_iff m.job_id id).0 h)
  | inr h ↦ find_lease_sound id ls l v.1 (ground arith)
]

live_lease-file :
    (i : PidInspector) (d : Disk) (now : ℕ) (l : AdmissionLease)
    → IsReadable d
    → IsLease l
    → live_lease i d now l.job_id (some (encode_lease l))
      ≡ (if is_live i now l then some l else none)
unfolding live_lease
live_lease-file i d now l r v =
    rw (r.reads l.job_id, parse_lease-encode_lease l v, eq_refl l.job_id)

-- A sweep of the files of a table keeps the files of its live leases, and counts these.
pub sweep_files-files :
    (h : Host) (i : PidInspector) (d : Disk) (now : ℕ) (ls : List AdmissionLease) (stale : Dir)
    → IsReadable d
    → All IsLease ls
    → ((sweep_files h i d now (files ls) stale).kept ≡ files (live_only i now ls))
      × ((sweep_files h i d now (files ls) stale).live ≡ live_only i now ls)
unfolding sweep_files live_only
sweep_files-files h i d now [] stale r v = (refl, refl)
sweep_files-files h i d now (l ∷ ls) stale r v = elim (Bool-cases (is_live i now l)) [
  | inl e ↦
      let ih = sweep_files-files h i d now ls stale r v.1 in
      ground (arith, live_lease-file i d now l r v.0, ih)
  | inr e ↦
      let ih =
        sweep_files-files h i d now ls (archive_file h now l.job_id (some (encode_lease l)) stale) r
          v.1 in
      ground (arith, live_lease-file i d now l r v.0, r.moves l.job_id, ih)
]

pub sweep_leases-files :
    (h : Host) (i : PidInspector) (d : Disk) (now : ℕ) (a : Area) (ls : List AdmissionLease)
    → IsReadable d
    → a.leases ≡ files ls
    → All IsLease ls
    → ((sweep_leases h i d now a).kept ≡ files (live_only i now ls))
      × ((sweep_leases h i d now a).live ≡ live_only i now ls)
unfolding sweep_leases
sweep_leases-files h i d now a ls r e v =
    simp (r.lists, e) (sweep_files-files h i d now ls a.stale r v)

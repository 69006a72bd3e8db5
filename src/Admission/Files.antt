-- ===== src/Admission/Files.antt =====
-- src/admission.ts: the lease directories, `moveLeaseOut`, `classifyLease` and `sweepLeases`.
-- A directory is its regular `.json` files by base name, with what `JSON.parse` makes of each;
-- other entries are skipped by every operation. A call reads its clock once.
use codex_job_orchestrator.Common.{
  ℕ, String, Bool, true, false, ◌&&◌, ◌||◌, Option, none, some, List, [], ◌∷◌, str_eq, leb,
  if◌then◌else◌, is_some, concat, Json, ◌>>=◌,
}
use codex_job_orchestrator.Admission.Types.{AdmissionLease, Host}
use codex_job_orchestrator.Admission.Lease.{parse_lease}

abbrev pub Dir : Type 0
Dir = List (String × Option Json)

pub record Area : Type 0 where
  pub leases : Dir
  pub stale : Dir
  pub released : Dir

-- `true`, `false` or null, as the process inspector says.
pub record PidInspector : Type 0 where
  pub is_alive : ℕ → Option Bool
  pub started_at_matches : ℕ → ℕ → Option Bool

pub data CreateError : Type 0 where
  transient other : CreateError

-- The file system's faults during a call: `read_fails` is an error other than ENOENT, and
-- `create_error` one other than EEXIST (`transient` is EPERM or EBUSY).
pub record Disk : Type 0 where
  pub listing_fails : Bool
  pub read_fails : String → Bool
  pub move_fails : String → Bool
  pub create_error : Option CreateError
  pub replace_fails : Bool

unfoldable pub find_file : String → Dir → Option (Option Json)
find_file id [] = none
find_file id ((j, f) ∷ rest) = if str_eq j id then some f else find_file id rest

unfoldable pub put_file : String → Option Json → Dir → Dir
put_file id f [] = (id, f) ∷ []
put_file id f ((j, g) ∷ rest) = if str_eq j id then (j, f) ∷ rest else (j, g) ∷ put_file id f rest

unfoldable pub remove_file : String → Dir → Dir
remove_file id [] = []
remove_file id ((j, g) ∷ rest) = if str_eq j id then rest else (j, g) ∷ remove_file id rest

-- The base name that a file moved at time `now` gets in its target directory.
unfoldable pub archive_name : Host → ℕ → String → Dir → String
archive_name h now id target =
    if is_some (find_file id target) then concat id (concat "." (h.show now)) else id

unfoldable pub archive_file : Host → ℕ → String → Option Json → Dir → Dir
archive_file h now id f target = put_file (archive_name h now id target) f target

abbrev pub says_no : Option Bool → Bool
says_no (some false) = true
says_no (some true) = false
says_no none = false

abbrev pub says_yes : Option Bool → Bool
says_yes (some true) = true
says_yes (some false) = false
says_yes none = false

-- `classifyLease`: true is 'live'. Identity decides where it can be verified, else the TTL.
unfoldable pub is_live : PidInspector → ℕ → AdmissionLease → Bool
is_live i now l =
    let alive = i.is_alive l.pid in
    let identity = i.started_at_matches l.pid l.pid_started_at in
    if says_no alive || says_no identity
    then false
    else if says_yes alive && says_yes identity
    then true
    else leb now l.expires_at

pub record Sweep : Type 0 where
  pub kept : Dir
  pub stale : Dir
  pub live : List AdmissionLease
  pub archived : List String

-- The lease of one listed file, if it is sound, its own and live.
unfoldable pub live_lease : PidInspector → Disk → ℕ → String → Option Json → Option AdmissionLease
live_lease i d now id f =
    if d.read_fails id
    then none
    else do l ← parse_lease f; if str_eq l.job_id id && is_live i now l then some l else none

abbrev keep_live : String → Option Json → AdmissionLease → Sweep → Sweep
keep_live id f l s = record s { kept = (id, f) ∷ s.kept; live = l ∷ s.live }

abbrev keep_stuck : String → Option Json → Sweep → Sweep
keep_stuck id f s = record s { kept = (id, f) ∷ s.kept }

abbrev drop_archived : String → Sweep → Sweep
drop_archived id s = record s { archived = id ∷ s.archived }

-- The loop of `sweepLeases` over the listing: keeps the live, archives the rest to stale/, and
-- leaves a file that cannot be moved where it is, uncounted.
unfoldable pub sweep_files : Host → PidInspector → Disk → ℕ → Dir → Dir → Sweep
sweep_files h i d now [] stale = record { kept = []; stale = stale; live = []; archived = [] }
sweep_files h i d now ((id, f) ∷ rest) stale = elim (live_lease i d now id f) [
  | some l ↦ keep_live id f l (sweep_files h i d now rest stale)
  | none ↦ elim (d.move_fails id) [
    | true ↦ keep_stuck id f (sweep_files h i d now rest stale)
    | false ↦ drop_archived id (sweep_files h i d now rest (archive_file h now id f stale))
  ]
]

unfoldable pub sweep_leases : Host → PidInspector → Disk → ℕ → Area → Sweep
unfolding sweep_files
sweep_leases h i d now a =
    if d.listing_fails
    then record { kept = a.leases; stale = a.stale; live = []; archived = [] }
    else sweep_files h i d now a.leases a.stale

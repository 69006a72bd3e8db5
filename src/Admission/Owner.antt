-- ===== src/Admission/Owner.antt =====
-- src/admission.ts: the owner's operations of `AdmissionManager`: heartbeat, release, transfer;
-- and `listLiveLeases`.
use codex_job_orchestrator.Common.{
  ℕ, ◌+◌, String, Bool, false, not, ◌&&◌, Option, none, some, List, [], ◌∷◌, str_eq, leb,
  if◌then◌else◌, Number, is_pos_int, to_nat, is_int, Json,
}
use codex_job_orchestrator.Admission.Types.{AdmissionLease, PublicLease, Host}
use codex_job_orchestrator.Admission.Validate.{is_job_id}
use codex_job_orchestrator.Admission.Lease.{parse_lease, encode_lease, to_public_lease}
use codex_job_orchestrator.Admission.Files.{
  Dir, Area, Disk, find_file, put_file, remove_file, archive_file,
}
use codex_job_orchestrator.Admission.Manager.{Outcome, returned, thrown}

pub record LeaseOwnerRef : Type 0 where
  pub job_id : String
  pub pid : Number
  pub pid_started_at : Number

pub data OwnerOpReason : Type 0 where
  lock_busy invalid_job_id invalid_next_owner : OwnerOpReason
  lease_not_found owner_mismatch bad_lease_file : OwnerOpReason

-- A refusal with its reason, or the lease as the operation left it: the success results are parts
-- of it.
pub data OwnerResult : Type 0 where
  ok : AdmissionLease → OwnerResult
  refused : OwnerOpReason → OwnerResult

pub data FileRead : Type 0 where
  missing failed corrupt : FileRead
  found : AdmissionLease → FileRead

abbrev parsed : Option AdmissionLease → FileRead
parsed none = corrupt
parsed (some l) = found l

abbrev read_found : Option (Option Json) → FileRead
read_found none = missing
read_found (some f) = parsed (parse_lease f)

-- `parseLease(fs.readFileSync(leasePath))`, with ENOENT apart from other errors.
unfoldable pub read_lease : Disk → String → Dir → FileRead
read_lease d id leases = if d.read_fails id then failed else read_found (find_file id leases)

-- `lease.pid === owner.pid && lease.pidStartedAt === owner.pidStartedAt`.
abbrev pub owns : LeaseOwnerRef → AdmissionLease → Bool
owns o l = is_int l.pid o.pid && is_int l.pid_started_at o.pid_started_at

abbrev pub Step : Type 0
Step = Area × Outcome OwnerResult

abbrev pub refuse : Area → OwnerOpReason → Step
refuse a why = (a, returned (refused why))

unfoldable pub after_read : LeaseOwnerRef → Area → (AdmissionLease → Step) → FileRead → Step
after_read o a use_lease missing = refuse a lease_not_found
after_read o a use_lease failed = (a, thrown)
after_read o a use_lease corrupt = refuse a bad_lease_file
after_read o a use_lease (found l) = if owns o l then use_lease l else refuse a owner_mismatch

-- What the three operations share: the lock, the read and the check of the owner.
unfoldable pub with_own_lease : Disk → Bool → LeaseOwnerRef → Area → (AdmissionLease → Step) → Step
unfolding read_lease after_read
with_own_lease d locked o a use_lease =
    if not locked
    then refuse a lock_busy
    else after_read o a use_lease (read_lease d o.job_id a.leases)

-- The replacement by tmp and rename: the whole file, or nothing.
unfoldable pub replace_lease : Disk → String → AdmissionLease → Area → Step
replace_lease d id l a =
    if d.replace_fails
    then (a, thrown)
    else (record a { leases = put_file id (some (encode_lease l)) a.leases }, returned (ok l))

abbrev pub extend : ℕ → ℕ → AdmissionLease → AdmissionLease
extend ttl now l = record l { heartbeat_at = now; expires_at = now + ttl }

unfoldable pub heartbeat_lease : Disk → Bool → ℕ → ℕ → LeaseOwnerRef → Area → Step
heartbeat_lease d locked ttl now o a =
    if not (is_job_id o.job_id)
    then refuse a invalid_job_id
    else with_own_lease d locked o a (λ l. replace_lease d o.job_id (extend ttl now l) a)

-- `moveLeaseOut(jobId, releasedDir)`; a failed rename throws and moves nothing.
unfoldable pub move_released : Host → Disk → ℕ → String → AdmissionLease → Area → Step
move_released h d now id l a =
    if d.move_fails id then (a, thrown) else elim (find_file id a.leases) [
      | none ↦ (a, thrown)
      | some f ↦ (
        record a {
          leases = remove_file id a.leases;
          released = archive_file h now id f a.released;
        },
        returned (ok l),
      )
    ]

unfoldable pub release_lease : Host → Disk → Bool → ℕ → LeaseOwnerRef → Area → Step
release_lease h d locked now o a =
    if not (is_job_id o.job_id)
    then refuse a invalid_job_id
    else with_own_lease d locked o a (λ l. move_released h d now o.job_id l a)

abbrev pub take_over : ℕ → ℕ → LeaseOwnerRef → AdmissionLease → AdmissionLease
take_over ttl now next l = record l {
  pid = to_nat next.pid;
  pid_started_at = to_nat next.pid_started_at;
  heartbeat_at = now;
  expires_at = now + ttl;
}

-- `nextOwner` is an object for the same job with a positive integer identity.
abbrev pub is_next_owner : String → Option LeaseOwnerRef → Bool
is_next_owner id none = false
is_next_owner id (some n) = str_eq n.job_id id && is_pos_int n.pid && is_pos_int n.pid_started_at

unfoldable pub transfer_checked :
    Disk → Bool → ℕ → ℕ → LeaseOwnerRef → Option LeaseOwnerRef → Area → Step
transfer_checked d locked ttl now o none a = refuse a invalid_next_owner
transfer_checked d locked ttl now o (some n) a =
    if is_next_owner o.job_id (some n)
    then with_own_lease d locked o a (λ l. replace_lease d o.job_id (take_over ttl now n l) a)
    else refuse a invalid_next_owner

unfoldable pub transfer_lease_owner :
    Disk → Bool → ℕ → ℕ → LeaseOwnerRef → Option LeaseOwnerRef → Area → Step
transfer_lease_owner d locked ttl now o next a =
    if not (is_job_id o.job_id)
    then refuse a invalid_job_id
    else transfer_checked d locked ttl now o next a

-- `out.sort` by `acquiredAt`, which keeps the order of equals.
unfoldable pub insert_by_age : PublicLease → List PublicLease → List PublicLease
insert_by_age l [] = l ∷ []
insert_by_age l (m ∷ ms) =
    if leb l.acquired_at m.acquired_at then l ∷ m ∷ ms else m ∷ insert_by_age l ms

unfoldable pub list_files : Disk → Dir → List PublicLease
unfolding insert_by_age
list_files d [] = []
list_files d ((id, f) ∷ rest) =
    let others = list_files d rest in
    if d.read_fails id then others else elim (parse_lease f) [
      | none ↦ others
      | some l ↦ if str_eq l.job_id id then insert_by_age (to_public_lease l) others else others
    ]

unfoldable pub list_live_leases : Disk → Area → List PublicLease
unfolding list_files
list_live_leases d a = if d.listing_fails then [] else list_files d a.leases

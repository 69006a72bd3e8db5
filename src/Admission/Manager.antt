-- ===== src/Admission/Manager.antt =====
-- src/admission.ts: the operations of `AdmissionManager`, each under the global lock.
-- `locked` is what `acquireLock` returned; its loop is in Admission/Lock. The TTL that
-- an operation is given is a whole number of milliseconds; an operation that throws leaves the area as it was when it threw.
use codex_job_orchestrator.Common.{
  ℕ, ◌+◌, String, Bool, true, false, ltb, leb, not, Option, none, some, List, [], ◌∷◌, ◌++◌, map,
  if◌then◌else◌, is_some, to_nat,
}
use codex_job_orchestrator.Admission.Types.{
  AdmissionPolicy, AdmissionRequest, AdmissionLease, PublicLease, LiveLeaseInfo,
  AdmissionEvaluation, Host,
}
use codex_job_orchestrator.Admission.Validate.{
  is_job_id, invalid_policy_field, invalid_request_field,
}
use codex_job_orchestrator.Admission.Evaluate.{evaluate_admission}
use codex_job_orchestrator.Admission.Lease.{encode_lease, to_public_lease}
use codex_job_orchestrator.Admission.Files.{
  Area, PidInspector, CreateError, Disk, find_file, Sweep, sweep_leases, transient, other,
}

abbrev pub min_ttl_ms : ℕ
min_ttl_ms = 1000

abbrev pub max_ttl_ms : ℕ
max_ttl_ms = 3600000

abbrev pub default_ttl_ms : ℕ
default_ttl_ms = 60000

-- A finite `ttlMs`: its whole part, and whether there is a fraction. A negative one is clamped as 0 is.
pub record Millis : Type 0 where
  pub whole : ℕ
  pub fraction : Bool

abbrev whole_ms : ℕ → Millis
whole_ms n = record { whole = n; fraction = false }

-- The constructor's clamp, which keeps a fraction; `none` is an absent or non-finite `ttlMs`.
unfoldable pub clamp_ttl : Option Millis → Millis
clamp_ttl none = whole_ms default_ttl_ms
clamp_ttl (some m) =
    if ltb m.whole min_ttl_ms
    then whole_ms min_ttl_ms
    else if leb max_ttl_ms m.whole
    then whole_ms max_ttl_ms
    else m

pub data Outcome {ℓ} (A : Type ℓ) : Type ℓ where
  returned : A → Outcome A
  thrown : Outcome A

pub data AcquireDenyReason : Type 0 where
  lock_busy invalid_job_id invalid_request invalid_policy duplicate_job denied : AcquireDenyReason

-- `ok` is `reason === null`.
pub record AcquireAdmissionResult : Type 0 where
  pub reason : Option AcquireDenyReason
  pub lease : Option PublicLease
  pub stale_archived : List String
  pub evaluation : Option AdmissionEvaluation

abbrev pub not_ok : AcquireDenyReason → AcquireAdmissionResult
not_ok why = record { reason = some why; lease = none; stale_archived = []; evaluation = none }

abbrev pub lease_info : AdmissionLease → LiveLeaseInfo
lease_info l = record {
  job_id = l.job_id;
  resource_class = l.resource_class;
  work_folder = l.work_folder;
  active = true;
}

unfoldable pub new_lease : ℕ → ℕ → AdmissionRequest → AdmissionLease
new_lease ttl now r = record {
  job_id = r.job_id;
  resource_class = r.resource_class;
  backend = r.backend;
  profile = r.profile;
  work_folder = r.work_folder;
  pid = to_nat r.pid;
  pid_started_at = to_nat r.pid_started_at;
  acquired_at = now;
  heartbeat_at = now;
  expires_at = now + ttl;
}

-- The area that a sweep leaves.
abbrev pub swept : Area → Sweep → Area
swept a s = record a { leases = s.kept; stale = s.stale }

abbrev pub answer :
    Option AcquireDenyReason
    → Option PublicLease
    → List String
    → AdmissionEvaluation
    → AcquireAdmissionResult
answer why l archived e = record {
  reason = why;
  lease = l;
  stale_archived = archived;
  evaluation = some e;
}

-- The write's outcome where the name is free.
unfoldable pub write_lease :
    Option CreateError
    → AdmissionLease
    → Area
    → List String
    → AdmissionEvaluation
    → Area × Outcome AcquireAdmissionResult
write_lease (some transient) l a archived e =
    (a, returned (answer (some duplicate_job) none archived e))
write_lease (some other) l a archived e = (a, thrown)
write_lease none l a archived e = (
  record a { leases = a.leases ++ (l.job_id, some (encode_lease l)) ∷ [] },
  returned (answer none (some (to_public_lease l)) archived e),
)

-- `writeFileSync(leasePath, …, { flag: 'wx' })`: the name must be free.
unfoldable pub create_lease :
    Disk
    → AdmissionLease
    → Area
    → List String
    → AdmissionEvaluation
    → Area × Outcome AcquireAdmissionResult
unfolding write_lease
create_lease d l a archived e =
    if is_some (find_file l.job_id a.leases)
    then (a, returned (answer (some duplicate_job) none archived e))
    else write_lease d.create_error l a archived e

-- What follows the sweep.
unfoldable pub decide_lease :
    Host
    → Disk
    → ℕ
    → ℕ
    → Option ℕ
    → AdmissionPolicy
    → AdmissionRequest
    → Area
    → Sweep
    → Area × Outcome AcquireAdmissionResult
unfolding create_lease
decide_lease h d ttl now free p r a s =
    let e = evaluate_admission h p r (map lease_info s.live) free in
    if e.admitted
    then create_lease d (new_lease ttl now r) (swept a s) s.archived e
    else (swept a s, returned (answer (some denied) none s.archived e))

unfoldable pub acquire_admission_lease :
    Host
    → PidInspector
    → Disk
    → Bool
    → ℕ
    → ℕ
    → Option ℕ
    → AdmissionPolicy
    → AdmissionRequest
    → Area
    → Area × Outcome AcquireAdmissionResult
unfolding decide_lease
acquire_admission_lease h i d locked ttl now free p r a =
    if not (is_job_id r.job_id)
    then (a, returned (not_ok invalid_job_id))
    else if is_some (invalid_policy_field p)
    then (a, returned (not_ok invalid_policy))
    else if is_some (invalid_request_field r)
    then (a, returned (not_ok invalid_request))
    else if not locked
    then (a, returned (not_ok lock_busy))
    else decide_lease h d ttl now free p r a (sweep_leases h i d now a)

-- ===== src/Admission/Lease.antt =====
-- src/admission.ts: `parseLease` and `toPublicLease`, and the object that a lease file holds.
-- `JSON.parse` gives the value that `parse_lease` reads; `JSON.stringify` of a lease is parsed back
-- to the object that `encode_lease` builds.
use codex_job_orchestrator.Common.{
  text_field, non_empty_field, pos_int_field, ℕ, ◌≤◌, String, ◌≡◌, refl, true, false, Option, none,
  some, arith, str_eq, leb, if◌then◌else◌, is_empty, is_int, Json, Fields, get, ◌>>=◌, ◌>>◌, guard,
  as_number, >>=-eq-some, non_empty_field-eq-some, pos_int_field-eq-some, int, number, string,
  object, end, field,
}
use codex_job_orchestrator.Admission.Types.{
  ResourceClass, AdmissionLease, PublicLease, light, build, heavy,
}
use codex_job_orchestrator.Admission.Validate.{is_job_id}

abbrev pub class_name : ResourceClass → String
class_name light = "light"
class_name build = "build"
class_name heavy = "heavy"

-- `RESOURCE_CLASSES.includes(v)`.
unfoldable pub class_of_name : String → Option ResourceClass
class_of_name s =
    if str_eq s "light"
    then some light
    else if str_eq s "build"
    then some build
    else if str_eq s "heavy"
    then some heavy
    else none

unfoldable pub job_id_field : Fields → Option String
unfolding text_field
job_id_field o = do s ← text_field "jobId" o; if is_job_id s then some s else none

unfoldable pub schema_field : Fields → Option (Unit {0})
schema_field o = get "schemaVersion" o >>= as_number >>= λ n. guard (is_int 1 n)

unfoldable pub parse_fields : Fields → Option AdmissionLease
parse_fields o = do
  schema_field o
  job_id ← job_id_field o
  class ← text_field "resourceClass" o
  resource_class ← class_of_name class
  backend ← non_empty_field "backend" o
  profile ← non_empty_field "profile" o
  work_folder ← non_empty_field "workFolder" o
  pid ← pos_int_field "pid" o
  pid_started_at ← pos_int_field "pidStartedAt" o
  acquired_at ← pos_int_field "acquiredAt" o
  heartbeat_at ← pos_int_field "heartbeatAt" o
  expires_at ← pos_int_field "expiresAt" o
  some (record {
    job_id = job_id;
    resource_class = resource_class;
    backend = backend;
    profile = profile;
    work_folder = work_folder;
    pid = pid;
    pid_started_at = pid_started_at;
    acquired_at = acquired_at;
    heartbeat_at = heartbeat_at;
    expires_at = expires_at;
  })

-- Strict structural validation; `none` is a file that `JSON.parse` refuses, or a refused value.
unfoldable pub parse_lease : Option Json → Option AdmissionLease
parse_lease none = none
parse_lease (some (object o)) = parse_fields o
parse_lease (some _) = none

unfoldable pub encode_lease : AdmissionLease → Json
encode_lease l = object (
    field "schemaVersion" (number (int 1)) (
      field "jobId" (string l.job_id) (
        field "resourceClass" (string (class_name l.resource_class)) (
          field "backend" (string l.backend) (
            field "profile" (string l.profile) (
              field "workFolder" (string l.work_folder) (
                field "pid" (number (int l.pid)) (
                  field "pidStartedAt" (number (int l.pid_started_at)) (
                    field "acquiredAt" (number (int l.acquired_at)) (
                      field "heartbeatAt" (number (int l.heartbeat_at))
                        (field "expiresAt" (number (int l.expires_at)) end)))))))))))

unfoldable pub to_public_lease : AdmissionLease → PublicLease
to_public_lease l = record {
  job_id = l.job_id;
  resource_class = l.resource_class;
  backend = l.backend;
  profile = l.profile;
  pid = l.pid;
  acquired_at = l.acquired_at;
  heartbeat_at = l.heartbeat_at;
  expires_at = l.expires_at;
}

-- What the strict parser demands of a lease.
pub record IsLease (l : AdmissionLease) : Type 0 where
  pub id_valid : is_job_id l.job_id ≡ true
  pub backend_named : is_empty l.backend ≡ false
  pub profile_named : is_empty l.profile ≡ false
  pub folder_named : is_empty l.work_folder ≡ false
  pub pid_pos : 1 ≤ l.pid
  pub started_pos : 1 ≤ l.pid_started_at
  pub acquired_pos : 1 ≤ l.acquired_at
  pub heartbeat_pos : 1 ≤ l.heartbeat_at
  pub expires_pos : 1 ≤ l.expires_at

class_of_name-class_name : (c : ResourceClass) → class_of_name (class_name c) ≡ some c
unfolding class_of_name
class_of_name-class_name light = refl
class_of_name-class_name build = refl
class_of_name-class_name heavy = refl

pos_of_le : (n : ℕ) → 1 ≤ n → leb 1 n ≡ true
pos_of_le n h = ground arith

-- The strict parser reads back the same lease from what is written of a sound one.
pub parse_lease-encode_lease :
    (l : AdmissionLease) → IsLease l → parse_lease (some (encode_lease l)) ≡ some l
unfolding parse_lease parse_fields encode_lease schema_field job_id_field non_empty_field
    pos_int_field
parse_lease-encode_lease l v = simp (
  v.id_valid,
  class_of_name-class_name l.resource_class,
  v.backend_named,
  v.profile_named,
  v.folder_named,
  pos_of_le l.pid v.pid_pos,
  pos_of_le l.pid_started_at v.started_pos,
  pos_of_le l.acquired_at v.acquired_pos,
  pos_of_le l.heartbeat_at v.heartbeat_pos,
  pos_of_le l.expires_at v.expires_pos,
)

job_id_field-eq-some : (o : Fields) (s : String) → job_id_field o ≡ some s → is_job_id s ≡ true
unfolding job_id_field
job_id_field-eq-some o s h =
    let (t, _, e) =
      >>=-eq-some (text_field "jobId" o) (λ s. if is_job_id s then some s else none) h in
    ground arith

-- Each part of a lease that was read is what its field held.
abbrev ReadFrom : Fields → AdmissionLease → Type 0
ReadFrom o l =
    (job_id_field o ≡ some l.job_id)
    × (non_empty_field "backend" o ≡ some l.backend)
    × (non_empty_field "profile" o ≡ some l.profile)
    × (non_empty_field "workFolder" o ≡ some l.work_folder)
    × (pos_int_field "pid" o ≡ some l.pid)
    × (pos_int_field "pidStartedAt" o ≡ some l.pid_started_at)
    × (pos_int_field "acquiredAt" o ≡ some l.acquired_at)
    × (pos_int_field "heartbeatAt" o ≡ some l.heartbeat_at)
    × (pos_int_field "expiresAt" o ≡ some l.expires_at)

parse_fields-ReadFrom : (o : Fields) (l : AdmissionLease) → parse_fields o ≡ some l → ReadFrom o l
unfolding parse_fields
parse_fields-ReadFrom o l h = ground arith

parse_fields-IsLease : (o : Fields) (l : AdmissionLease) → parse_fields o ≡ some l → IsLease l
parse_fields-IsLease o l h =
    let r = parse_fields-ReadFrom o l h in
    record {
      id_valid = job_id_field-eq-some o l.job_id r.0;
      backend_named = non_empty_field-eq-some "backend" o l.backend r.1;
      profile_named = non_empty_field-eq-some "profile" o l.profile r.2;
      folder_named = non_empty_field-eq-some "workFolder" o l.work_folder r.3;
      pid_pos = pos_int_field-eq-some "pid" o l.pid r.4;
      started_pos = pos_int_field-eq-some "pidStartedAt" o l.pid_started_at r.5;
      acquired_pos = pos_int_field-eq-some "acquiredAt" o l.acquired_at r.6;
      heartbeat_pos = pos_int_field-eq-some "heartbeatAt" o l.heartbeat_at r.7;
      expires_pos = pos_int_field-eq-some "expiresAt" o l.expires_at r.8;
    }

-- Conversely, what the strict parser accepts is a lease, whatever the file holds.
pub parse_lease-IsLease :
    (f : Option Json) (l : AdmissionLease) → parse_lease f ≡ some l → IsLease l
unfolding parse_lease
parse_lease-IsLease none l e = cc
parse_lease-IsLease (some (object o)) l e = parse_fields-IsLease o l e
parse_lease-IsLease (some _) l e = cc

-- ===== src/Admission/Validate.antt =====
-- src/admission.ts: `invalidPolicyField` and `invalidRequestField`.
use codex_job_orchestrator.Common.{
  ℕ, ◌≤◌, ◌≡◌, Bool, true, false, not, ◌&&◌, ◌||◌, Option, none, some, List, [], ◌∷◌, String, leb,
  ltb, if◌then◌else◌, arith, Number, int, neg_int, non_int, is_pos_int, to_nat, codes, is_id_char,
  is_empty, length, all,
}
use codex_job_orchestrator.Admission.Types.{AdmissionPolicy, AdmissionRequest}

pub data PolicyField : Type 0 where
  desired_worker_concurrency hard_safety_ceiling max_heavy_workers : PolicyField
  memory_reserve_mb backend_profile_limits : PolicyField

pub data RequestField : Type 0 where
  job_id backend profile work_folder pid pid_started_at : RequestField

-- `^[A-Za-z0-9_-]{1,64}$`.
unfoldable pub is_job_id : String → Bool
is_job_id s = leb 1 (length (codes s)) && leb (length (codes s)) 64 && all is_id_char (codes s)

abbrev pub max_worker_concurrency : ℕ
max_worker_concurrency = 64

-- `!isPosInt(v) || v > MAX_WORKER_CONCURRENCY`.
abbrev pub bad_cap : Number → Bool
bad_cap v = not (is_pos_int v) || ltb max_worker_concurrency (to_nat v)

abbrev pub bad_reserve : Number → Bool
bad_reserve (int n) = false
bad_reserve (neg_int n) = true
bad_reserve non_int = true

unfoldable pub bad_limits : List (String × Number) → Bool
bad_limits [] = false
bad_limits ((k, v) ∷ rest) = bad_cap v || bad_limits rest

abbrev pub bad_limits? : Option (List (String × Number)) → Bool
bad_limits? none = false
bad_limits? (some limits) = bad_limits limits

unfoldable pub invalid_policy_field : AdmissionPolicy → Option PolicyField
invalid_policy_field p =
    if bad_cap p.desired_worker_concurrency
    then some desired_worker_concurrency
    else if bad_cap p.hard_safety_ceiling
    then some hard_safety_ceiling
    else if bad_cap p.max_heavy_workers
    then some max_heavy_workers
    else if bad_reserve p.memory_reserve_mb
    then some memory_reserve_mb
    else if bad_limits? p.backend_profile_limits
    then some backend_profile_limits
    else none

unfoldable pub invalid_request_field : AdmissionRequest → Option RequestField
invalid_request_field r =
    if not (is_job_id r.job_id)
    then some job_id
    else if is_empty r.backend
    then some backend
    else if is_empty r.profile
    then some profile
    else if is_empty r.work_folder
    then some work_folder
    else if not (is_pos_int r.pid)
    then some pid
    else if not (is_pos_int r.pid_started_at)
    then some pid_started_at
    else none

-- What a valid policy guarantees about its numbers.
pub record IsBounded (p : AdmissionPolicy) : Type 0 where
  pub desired_pos : 1 ≤ to_nat p.desired_worker_concurrency
  pub desired_le : to_nat p.desired_worker_concurrency ≤ 64
  pub ceiling_pos : 1 ≤ to_nat p.hard_safety_ceiling
  pub ceiling_le : to_nat p.hard_safety_ceiling ≤ 64
  pub heavy_pos : 1 ≤ to_nat p.max_heavy_workers
  pub heavy_le : to_nat p.max_heavy_workers ≤ 64

bad_cap_bounds : (n : Number) → bad_cap n ≡ false → (1 ≤ to_nat n) × (to_nat n ≤ 64)
bad_cap_bounds (int n) h = ground arith
bad_cap_bounds (neg_int n) h = ground arith
bad_cap_bounds non_int h = ground arith

pub caps_of_valid :
    (p : AdmissionPolicy)
    → invalid_policy_field p ≡ none
    → (bad_cap p.desired_worker_concurrency ≡ false)
      × (bad_cap p.hard_safety_ceiling ≡ false)
      × (bad_cap p.max_heavy_workers ≡ false)
      × (bad_limits? p.backend_profile_limits ≡ false)
unfolding invalid_policy_field
caps_of_valid p h = ground arith

pub valid-IsBounded : (p : AdmissionPolicy) → invalid_policy_field p ≡ none → IsBounded p
valid-IsBounded p h =
    let c = caps_of_valid p h in
    let d = bad_cap_bounds p.desired_worker_concurrency c.0 in
    let s = bad_cap_bounds p.hard_safety_ceiling c.1 in
    let m = bad_cap_bounds p.max_heavy_workers c.2 in
    record {
      desired_pos = d.0;
      desired_le = d.1;
      ceiling_pos = s.0;
      ceiling_le = s.1;
      heavy_pos = m.0;
      heavy_le = m.1;
    }

-- What a valid request guarantees about its parts.
pub record IsSound (r : AdmissionRequest) : Type 0 where
  pub id_valid : is_job_id r.job_id ≡ true
  pub backend_named : is_empty r.backend ≡ false
  pub profile_named : is_empty r.profile ≡ false
  pub folder_named : is_empty r.work_folder ≡ false
  pub pid_pos : 1 ≤ to_nat r.pid
  pub started_pos : 1 ≤ to_nat r.pid_started_at

pos_of_is_pos_int : (n : Number) → is_pos_int n ≡ true → 1 ≤ to_nat n
pos_of_is_pos_int (int n) h = ground arith
pos_of_is_pos_int (neg_int n) h = cc
pos_of_is_pos_int non_int h = cc

pub valid-IsSound : (r : AdmissionRequest) → invalid_request_field r ≡ none → IsSound r
unfolding invalid_request_field
valid-IsSound r h = record {
  id_valid = ground arith;
  backend_named = ground arith;
  profile_named = ground arith;
  folder_named = ground arith;
  pid_pos = pos_of_is_pos_int r.pid (ground arith);
  started_pos = pos_of_is_pos_int r.pid_started_at (ground arith);
}

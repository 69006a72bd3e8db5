-- ===== src/Admission/Evaluate.antt =====
-- src/admission.ts: `canonicalWorkFolder`, `scopeLimitFor` and `evaluateAdmission`.
-- `none` stands for Infinity. A fractional report of free memory stands as its floor, which
-- compares with the integer reserve as the fraction does.
use codex_job_orchestrator.Common.{
  ℕ, ◌-◌, min, String, Bool, true, false, ◌&&◌, Option, none, some, List, [], ◌∷◌, str_eq, length,
  any, count_if, ltb, leb, if◌then◌else◌, is_some, concat, Number, to_nat,
}
use codex_job_orchestrator.Admission.Types.{
  ResourceClass, QueueReason, DenyReason, AdmissionPolicy, hard_safety_ceiling, AdmissionRequest,
  LiveLeaseInfo, AdmissionEvaluation, Host, light, build, heavy, desired_limit,
  backend_profile_limit, memory_reserve, heavy_limit, derived_space_conflict, queue, invalid_policy,
  invalid_request,
}
use codex_job_orchestrator.Admission.Validate.{
  invalid_policy_field, invalid_request_field, hard_safety_ceiling,
}

abbrev pub Limits : Type 0
Limits = List (String × Number)

unfoldable pub canonical_work_folder : Host → String → String
canonical_work_folder h p = if h.win32 then h.lower (h.resolve p) else h.resolve p

-- `limits[key]`.
unfoldable pub limit_at : String → Limits → Option ℕ
limit_at k [] = none
limit_at k ((j, v) ∷ rest) = if str_eq j k then some (to_nat v) else limit_at k rest

-- The smaller of two limits.
abbrev pub min_limit : Option ℕ → Option ℕ → Option ℕ
min_limit none b = b
min_limit (some a) none = some a
min_limit (some a) (some b) = some (min a b)

abbrev pub slash : String → String → String
slash a b = concat a (concat "/" b)

unfoldable pub scope_of : AdmissionRequest → Option Limits → Option ℕ
scope_of r none = none
scope_of r (some limits) =
    min_limit (limit_at (slash r.backend r.profile) limits)
      (min_limit (limit_at r.backend limits) (limit_at r.profile limits))

unfoldable pub scope_limit_for : AdmissionPolicy → AdmissionRequest → Option ℕ
unfolding scope_of
scope_limit_for p r = scope_of r p.backend_profile_limits

-- `Math.min(n, limit)`.
abbrev pub cap_by : Option ℕ → ℕ → ℕ
cap_by none n = n
cap_by (some l) n = min n l

-- `limit < n`.
abbrev pub below : Option ℕ → ℕ → Bool
below none n = false
below (some l) n = ltb l n

abbrev pub is_heavy : ResourceClass → Bool
is_heavy heavy = true
is_heavy light = false
is_heavy build = false

-- `build` and `heavy` write to the derived space of their work folder.
abbrev pub uses_space : ResourceClass → Bool
uses_space light = false
uses_space build = true
uses_space heavy = true

abbrev pub active_heavy : LiveLeaseInfo → Bool
active_heavy l = l.active && is_heavy l.resource_class

abbrev pub same_space : Host → String → LiveLeaseInfo → Bool
same_space h folder l =
    l.active && uses_space l.resource_class && str_eq (canonical_work_folder h l.work_folder) folder

unfoldable pub active_count : List LiveLeaseInfo → ℕ
active_count leases = count_if (λ l. l.active) leases

unfoldable pub memory_short : AdmissionPolicy → Option ℕ → Bool
memory_short p free =
    let reserve = to_nat p.memory_reserve_mb in ltb 0 reserve && below free reserve

unfoldable pub heavy_full : AdmissionPolicy → AdmissionRequest → List LiveLeaseInfo → Bool
heavy_full p r leases =
    is_heavy r.resource_class && leb (to_nat p.max_heavy_workers) (count_if active_heavy leases)

unfoldable pub space_taken : Host → AdmissionRequest → List LiveLeaseInfo → Bool
space_taken h r leases =
    uses_space r.resource_class && any (same_space h (canonical_work_folder h r.work_folder)) leases

unfoldable pub resource_limit_of : AdmissionPolicy → AdmissionRequest → ℕ
resource_limit_of p r =
    cap_by (scope_limit_for p r)
      (min (to_nat p.desired_worker_concurrency) (to_nat p.hard_safety_ceiling))

-- The binding cap is the one that produced the minimum.
unfoldable pub binding_cap : Option ℕ → ℕ → ℕ → QueueReason
binding_cap scope desired ceiling =
    if below scope (min desired ceiling)
    then backend_profile_limit
    else if ltb ceiling desired
    then hard_safety_ceiling
    else desired_limit

-- The gates in their order; `none` admits.
unfoldable pub gate :
    Host → AdmissionPolicy → AdmissionRequest → List LiveLeaseInfo → Option ℕ → Option QueueReason
gate h p r leases free =
    if memory_short p free
    then some memory_reserve
    else if heavy_full p r leases
    then some heavy_limit
    else if space_taken h r leases
    then some derived_space_conflict
    else if leb (resource_limit_of p r) (active_count leases)
    then some (
        binding_cap (scope_limit_for p r) (to_nat p.desired_worker_concurrency)
          (to_nat p.hard_safety_ceiling))
    else none

abbrev pub verdict : ℕ → ℕ → ℕ → ℕ → Option QueueReason → AdmissionEvaluation
verdict active queued desired limit none = record {
  admitted = true;
  active = active;
  queued = queued;
  desired = desired;
  resource_limit = limit;
  reason = none;
}
verdict active queued desired limit (some q) = record {
  admitted = false;
  active = active;
  queued = queued;
  desired = desired;
  resource_limit = limit;
  reason = some (queue q);
}

abbrev pub refuse : ℕ → ℕ → DenyReason → AdmissionEvaluation
refuse active queued why = record {
  admitted = false;
  active = active;
  queued = queued;
  desired = 0;
  resource_limit = 0;
  reason = some why;
}

unfoldable pub evaluate_admission :
    Host → AdmissionPolicy → AdmissionRequest → List LiveLeaseInfo → Option ℕ → AdmissionEvaluation
evaluate_admission h p r leases free =
    let active = active_count leases in
    let queued = length leases - active in
    if is_some (invalid_policy_field p)
    then refuse active queued invalid_policy
    else if is_some (invalid_request_field r)
    then refuse active queued invalid_request
    else verdict active queued (to_nat p.desired_worker_concurrency) (resource_limit_of p r)
        (gate h p r leases free)

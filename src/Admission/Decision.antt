-- ===== src/Admission/Decision.antt =====
-- src/admission.ts: what a verdict of `evaluateAdmission` means.
use codex_job_orchestrator.Common.{
  ℕ, suc, ◌≤◌, ◌<◌, min, String, ◌≡◌, refl, ◌↔◌, true, false, Option, none, some, List, arith, any,
  count_if, leb, to_nat,
}
use codex_job_orchestrator.Admission.Types.{AdmissionPolicy, AdmissionRequest, LiveLeaseInfo, Host}
use codex_job_orchestrator.Admission.Validate.{invalid_policy_field, invalid_request_field}
use codex_job_orchestrator.Admission.Evaluate.{
  Limits, canonical_work_folder, limit_at, min_limit, slash, scope_of, scope_limit_for, cap_by,
  below, is_heavy, uses_space, active_heavy, same_space, active_count, memory_short, heavy_full,
  space_taken, resource_limit_of, gate, evaluate_admission,
}

-- `n` is under the limit that the policy names for `key`, if it names one.
abbrev pub Under : ℕ → String → Option Limits → Type 0
Under n key none = Unit
Under n key (some limits) = (l : ℕ) → limit_at key limits ≡ some l → n < l

abbrev pub HasMemory : ℕ → Option ℕ → Type 0
HasMemory reserve none = Unit
HasMemory reserve (some free) = reserve ≤ free

-- What a job needs in order to start, said without the order of the gates and without minima.
pub record Admissible (h : Host) (p : AdmissionPolicy) (r : AdmissionRequest)
    (ls : List LiveLeaseInfo) (free : Option ℕ) : Type 0 where
  pub policy_valid : invalid_policy_field p ≡ none
  pub request_valid : invalid_request_field r ≡ none
  pub memory : HasMemory (to_nat p.memory_reserve_mb) free
  pub heavy_room :
      is_heavy r.resource_class ≡ true → count_if active_heavy ls < to_nat p.max_heavy_workers
  pub space_free :
      uses_space r.resource_class ≡ true
      → any (same_space h (canonical_work_folder h r.work_folder)) ls ≡ false
  pub under_desired : active_count ls < to_nat p.desired_worker_concurrency
  pub under_ceiling : active_count ls < to_nat p.hard_safety_ceiling
  pub under_pair : Under (active_count ls) (slash r.backend r.profile) p.backend_profile_limits
  pub under_backend : Under (active_count ls) r.backend p.backend_profile_limits
  pub under_profile : Under (active_count ls) r.profile p.backend_profile_limits

not_below : (n : ℕ) (o : Option ℕ) → ((l : ℕ) → o ≡ some l → n < l) → below o (suc n) ≡ false
not_below n none h = refl
not_below n (some l) h = ground (arith, h l refl)

min_not_below :
    (k : ℕ) (a b : Option ℕ)
    → below a k ≡ false
    → below b k ≡ false
    → below (min_limit a b) k ≡ false
min_not_below k none b h i = i
min_not_below k (some a) none h i = h
min_not_below k (some a) (some b) h i = ground arith

abbrev UnderAll : ℕ → AdmissionRequest → Option Limits → Type 0
UnderAll n r l = Under n (slash r.backend r.profile) l × Under n r.backend l × Under n r.profile l

-- Under the scope's limit is under each of the limits of which it is the minimum.
scope_iff :
    (n : ℕ) (r : AdmissionRequest) (l : Option Limits)
    → (below (scope_of r l) (suc n) ≡ false) ↔ UnderAll n r l
unfolding scope_of
scope_iff n r none = (λ h. (tt, tt, tt), λ h. refl)
scope_iff n r (some limits) = (
  λ h. (λ l f. ground arith, λ l f. ground arith, λ l f. ground arith),
  λ u.
      min_not_below (suc n) _ _ (not_below n _ u.0)
        (min_not_below (suc n) _ _ (not_below n _ u.1) (not_below n _ u.2)),
)

below_cap :
    (n : ℕ) (l : Option ℕ) (m : ℕ)
    → leb (cap_by l m) n ≡ false
    → (n < m) × (below l (suc n) ≡ false)
below_cap n none m h = ground arith
below_cap n (some l) m h = ground arith

cap_below :
    (n : ℕ) (l : Option ℕ) (m : ℕ) → n < m → below l (suc n) ≡ false → leb (cap_by l m) n ≡ false
cap_below n none m h k = ground arith
cap_below n (some l) m h k = ground arith

pub memory_lem :
    (p : AdmissionPolicy) (free : Option ℕ)
    → (memory_short p free ≡ false) ↔ HasMemory (to_nat p.memory_reserve_mb) free
unfolding memory_short
memory_lem p none = (λ h. tt, λ h. ground arith)
memory_lem p (some f) = (λ h. ground arith, λ h. ground arith)

-- The tests of the gates, which all fail when a job is admitted.
abbrev pub Passes :
    Host → AdmissionPolicy → AdmissionRequest → List LiveLeaseInfo → Option ℕ → Type 0
Passes h p r ls free =
    (invalid_policy_field p ≡ none)
    × (invalid_request_field r ≡ none)
    × (memory_short p free ≡ false)
    × (heavy_full p r ls ≡ false)
    × (space_taken h r ls ≡ false)
    × (leb (resource_limit_of p r) (active_count ls) ≡ false)

pub admitted-Passes :
    (h : Host) (p : AdmissionPolicy) (r : AdmissionRequest) (ls : List LiveLeaseInfo)
    (free : Option ℕ)
    → ((evaluate_admission h p r ls free).admitted ≡ true) ↔ Passes h p r ls free
unfolding evaluate_admission gate
admitted-Passes h p r ls free = (λ e. ground arith, λ e. ground arith)

module _ (h : Host) (p : AdmissionPolicy) (r : AdmissionRequest) (ls : List LiveLeaseInfo)
    (free : Option ℕ) where
  pub Passes-Admissible : Passes h p r ls free → Admissible h p r ls free
  unfolding heavy_full space_taken resource_limit_of scope_limit_for
  Passes-Admissible q =
      let cap =
        below_cap (active_count ls) (scope_of r p.backend_profile_limits)
          (min (to_nat p.desired_worker_concurrency) (to_nat p.hard_safety_ceiling)) q.5 in
      let scoped = (scope_iff (active_count ls) r p.backend_profile_limits).0 cap.1 in
      record {
        policy_valid = q.0;
        request_valid = q.1;
        memory = (memory_lem p free).0 q.2;
        heavy_room = λ e. ground (arith, q.3);
        space_free = λ e. ground (arith, q.4);
        under_desired = omega (arith, cap.0);
        under_ceiling = omega (arith, cap.0);
        under_pair = scoped.0;
        under_backend = scoped.1;
        under_profile = scoped.2;
      }

  Admissible-Passes : Admissible h p r ls free → Passes h p r ls free
  unfolding heavy_full space_taken resource_limit_of scope_limit_for
  Admissible-Passes a = (
    a.policy_valid,
    a.request_valid,
    (memory_lem p free).1 a.memory,
    ground (arith, a.heavy_room),
    ground (arith, a.space_free),
    cap_below (active_count ls) (scope_of r p.backend_profile_limits) _
        (omega (arith, a.under_desired, a.under_ceiling))
        ((scope_iff (active_count ls) r p.backend_profile_limits).1
          (a.under_pair, a.under_backend, a.under_profile)),
  )

-- A job is admitted exactly when it is admissible: the policy and the request are valid, memory
-- and a heavy slot are free, no active job writes to the same space, and the active jobs are
-- fewer than the desired number, the ceiling and each limit that the policy names for its scope.
pub admitted_iff :
    (h : Host) (p : AdmissionPolicy) (r : AdmissionRequest) (ls : List LiveLeaseInfo)
    (free : Option ℕ)
    → ((evaluate_admission h p r ls free).admitted ≡ true) ↔ Admissible h p r ls free
admitted_iff h p r ls free = (
  λ e. Passes-Admissible h p r ls free ((admitted-Passes h p r ls free).0 e),
  λ a. (admitted-Passes h p r ls free).1 (Admissible-Passes h p r ls free a),
)

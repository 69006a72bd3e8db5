-- ===== src/Admission/Honesty.antt =====
-- src/admission.ts: the counts and limits that a verdict of `evaluateAdmission` reports.
-- The counts of every verdict add up to the leases given, no verdict names a limit above 64, and
-- a verdict has a reason exactly when it does not admit.
use codex_job_orchestrator.Common.{
  ℕ, ◌+◌, ◌-◌, ◌≤◌, min, ◌≡◌, refl, ◌↔◌, inl, inr, true, Option, none, some, List, arith, length,
  count_if, count_if-le, Option-cases, to_nat,
}
use codex_job_orchestrator.Admission.Types.{
  QueueReason, DenyReason, AdmissionPolicy, AdmissionRequest, LiveLeaseInfo, AdmissionEvaluation,
  Host, invalid_policy, invalid_request,
}
use codex_job_orchestrator.Admission.Validate.{
  invalid_policy_field, invalid_request_field, IsBounded, valid-IsBounded,
}
use codex_job_orchestrator.Admission.Evaluate.{
  scope_limit_for, cap_by, active_count, resource_limit_of, gate, verdict, refuse,
  evaluate_admission,
}

pub record IsHonest (ls : List LiveLeaseInfo) (e : AdmissionEvaluation) : Type 0 where
  pub counted : e.active + e.queued ≡ length ls
  pub limited : e.resource_limit ≤ 64
  pub limit_le_desired : e.resource_limit ≤ e.desired
  pub explained : (e.admitted ≡ true) ↔ (e.reason ≡ none)

cap_by-le : (l : Option ℕ) (n : ℕ) → cap_by l n ≤ n
cap_by-le none n = ground arith
cap_by-le (some l) n = ground arith

-- Every verdict is honest, refusals of an invalid policy or request included.
pub evaluate_admission-IsHonest :
    (h : Host) (p : AdmissionPolicy) (r : AdmissionRequest) (ls : List LiveLeaseInfo)
    (free : Option ℕ)
    → IsHonest ls (evaluate_admission h p r ls free)
unfolding evaluate_admission active_count resource_limit_of
evaluate_admission-IsHonest h p r ls free = elim (Option-cases (invalid_policy_field p)) [
  | inr (f, e) ↦ rw e (refused invalid_policy)
  | inl e ↦ elim (Option-cases (invalid_request_field r)) [
    | inr (f, d) ↦ rw (e, d) (refused invalid_request)
    | inl d ↦ rw (e, d) (judged (valid-IsBounded p e) (gate h p r ls free))
  ]
]
  where
    n : ℕ
    n = count_if (λ l. l.active) ls

    refused : (why : DenyReason) → IsHonest ls (refuse n (length ls - n) why)
    refused why = record {
      counted = omega (arith, count_if-le (λ l. l.active) ls);
      limited = omega arith;
      limit_le_desired = omega arith;
      explained = (λ k. cc, λ k. cc);
    }

    judged :
        IsBounded p
        → (g : Option QueueReason)
        → IsHonest ls (
            verdict n
              (length ls - n)
              (to_nat p.desired_worker_concurrency)
              (resource_limit_of p r)
              g)
    judged b none = record {
      counted = omega (arith, count_if-le (λ l. l.active) ls);
      limited = omega (
        arith,
        b,
        cap_by-le (scope_limit_for p r)
            (min (to_nat p.desired_worker_concurrency) (to_nat p.hard_safety_ceiling)),
      );
      limit_le_desired = omega (
        arith,
        b,
        cap_by-le (scope_limit_for p r)
            (min (to_nat p.desired_worker_concurrency) (to_nat p.hard_safety_ceiling)),
      );
      explained = (λ k. refl, λ k. refl);
    }
    judged b (some q) = record {
      counted = omega (arith, count_if-le (λ l. l.active) ls);
      limited = omega (
        arith,
        b,
        cap_by-le (scope_limit_for p r)
            (min (to_nat p.desired_worker_concurrency) (to_nat p.hard_safety_ceiling)),
      );
      limit_le_desired = omega (
        arith,
        b,
        cap_by-le (scope_limit_for p r)
            (min (to_nat p.desired_worker_concurrency) (to_nat p.hard_safety_ceiling)),
      );
      explained = (λ k. cc, λ k. cc);
    }

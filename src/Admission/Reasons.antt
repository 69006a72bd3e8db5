-- ===== src/Admission/Reasons.antt =====
-- src/admission.ts: the reasons that `evaluateAdmission` gives.
-- What a refusal for want of a slot claims of the limits, with n jobs active.
use codex_job_orchestrator.Common.{
  ℕ, ◌-◌, ◌≤◌, ◌<◌, min, ◌≡◌, refl, ◌≢◌, inl, inr, true, false, Option, none, some, List, arith,
  length, any, count_if, ltb, leb, if◌then◌else◌, Bool-cases, Option-cases, to_nat,
}
use codex_job_orchestrator.Admission.Types.{
  ResourceClass, QueueReason, DenyReason, AdmissionPolicy, hard_safety_ceiling, AdmissionRequest,
  LiveLeaseInfo, Host, heavy, desired_limit, backend_profile_limit, memory_reserve, heavy_limit,
  derived_space_conflict, lock_busy, queue, invalid_policy, invalid_request,
}
use codex_job_orchestrator.Admission.Validate.{invalid_policy_field, invalid_request_field}
use codex_job_orchestrator.Admission.Evaluate.{
  canonical_work_folder, scope_limit_for, cap_by, is_heavy, active_heavy, same_space, active_count,
  memory_short, heavy_full, space_taken, resource_limit_of, binding_cap, gate, verdict,
  evaluate_admission,
}
use codex_job_orchestrator.Admission.Decision.{
  HasMemory, Admissible, memory_lem, admitted-Passes, Passes-Admissible,
}

abbrev pub Binds : Option ℕ → ℕ → ℕ → ℕ → QueueReason → Type 0
Binds scope desired ceiling n desired_limit = desired ≤ n
Binds scope desired ceiling n hard_safety_ceiling = (ceiling ≤ n) × (ceiling < desired)
Binds scope desired ceiling n backend_profile_limit =
    (l : ℕ) × (scope ≡ some l) × (l ≤ n) × (l < desired) × (l < ceiling)
Binds scope desired ceiling n _ = ⊥

Binds-without :
    (d c n : ℕ)
    → leb (min d c) n ≡ true
    → Binds none d c n (if ltb c d then hard_safety_ceiling else desired_limit)
Binds-without d c n full = elim (Bool-cases (ltb c d)) [
  | inl e ↦ rw e (ground arith, ground arith)
  | inr e ↦ rw e (ground arith)
]

binding_cap-Binds :
    (s : Option ℕ) (d c n : ℕ)
    → leb (cap_by s (min d c)) n ≡ true
    → Binds s d c n (binding_cap s d c)
unfolding binding_cap
binding_cap-Binds none d c n full = Binds-without d c n full
binding_cap-Binds (some l) d c n full = elim (Bool-cases (ltb l (min d c))) [
  | inl e ↦ rw e (l, refl, ground arith, ground arith, ground arith)
  | inr e ↦ elim (Bool-cases (ltb c d)) [
    | inl k ↦ rw (e, k) (ground arith, ground arith)
    | inr k ↦ rw (e, k) (ground arith)
  ]
]

-- What the reason of a refusal claims of the job that it refuses.
abbrev pub Holds :
    Host → AdmissionPolicy → AdmissionRequest → List LiveLeaseInfo → Option ℕ → QueueReason → Type 0
Holds h p r ls free memory_reserve = ¬ HasMemory (to_nat p.memory_reserve_mb) free
Holds h p r ls free heavy_limit =
    (r.resource_class ≡ heavy) × (to_nat p.max_heavy_workers ≤ count_if active_heavy ls)
Holds h p r ls free derived_space_conflict =
    any (same_space h (canonical_work_folder h r.work_folder)) ls ≡ true
Holds h p r ls free q =
    Binds (scope_limit_for p r) (to_nat p.desired_worker_concurrency) (to_nat p.hard_safety_ceiling)
      (active_count ls) q

memory_reason :
    (p : AdmissionPolicy) (free : Option ℕ)
    → memory_short p free ≡ true
    → ¬ HasMemory (to_nat p.memory_reserve_mb) free
memory_reason p free e m = cc (e, (memory_lem p free).1 m)

is_heavy-heavy : (c : ResourceClass) → is_heavy c ≡ true → c ≡ heavy
is_heavy-heavy c e = ground arith

heavy_reason :
    (p : AdmissionPolicy) (r : AdmissionRequest) (ls : List LiveLeaseInfo)
    → heavy_full p r ls ≡ true
    → (r.resource_class ≡ heavy) × (to_nat p.max_heavy_workers ≤ count_if active_heavy ls)
unfolding heavy_full
heavy_reason p r ls e = ground arith

space_reason :
    (h : Host) (r : AdmissionRequest) (ls : List LiveLeaseInfo)
    → space_taken h r ls ≡ true
    → any (same_space h (canonical_work_folder h r.work_folder)) ls ≡ true
unfolding space_taken
space_reason h r ls e = ground arith

module _ (h : Host) (p : AdmissionPolicy) (r : AdmissionRequest) (ls : List LiveLeaseInfo)
    (free : Option ℕ) where
  cap_Holds :
      (q : QueueReason)
      → Binds
          (scope_limit_for p r)
          (to_nat p.desired_worker_concurrency)
          (to_nat p.hard_safety_ceiling)
          (active_count ls)
          q
      → Holds h p r ls free q
  cap_Holds desired_limit b = b
  cap_Holds hard_safety_ceiling b = b
  cap_Holds backend_profile_limit b = b
  cap_Holds memory_reserve b = absurd b
  cap_Holds heavy_limit b = absurd b
  cap_Holds derived_space_conflict b = absurd b
  cap_Holds lock_busy b = absurd b

  abbrev Explained : Option QueueReason → Type 0
  Explained none = Unit
  Explained (some q) = Holds h p r ls free q

  gate-Explained : Explained (gate h p r ls free)
  unfolding gate
  gate-Explained = elim (Bool-cases (memory_short p free)) [
    | inl m ↦ rw m (memory_reason p free m)
    | inr m ↦ elim (Bool-cases (heavy_full p r ls)) [
      | inl f ↦ rw (m, f) (heavy_reason p r ls f)
      | inr f ↦ elim (Bool-cases (space_taken h r ls)) [
        | inl s ↦ rw (m, f, s) (space_reason h r ls s)
        | inr s ↦ slots m f s
      ]
    ]
  ]
    where
      slots :
          memory_short p free ≡ false
          → heavy_full p r ls ≡ false
          → space_taken h r ls ≡ false
          → Explained (gate h p r ls free)
      slots m f s = elim (Bool-cases (leb (resource_limit_of p r) (active_count ls))) [
        | inl c ↦
            rw (m, f, s, c)
              (cap_Holds _ (
                binding_cap-Binds (scope_limit_for p r) (to_nat p.desired_worker_concurrency)
                  (to_nat p.hard_safety_ceiling) (active_count ls) (unfold resource_limit_of in c)))
        | inr c ↦ rw (m, f, s, c) tt
      ]

  -- The reason of a verdict is true of the job; no reason means that the job is admissible.
  abbrev pub Justified : Option DenyReason → Type 0
  Justified none = Admissible h p r ls free
  Justified (some invalid_policy) = invalid_policy_field p ≢ none
  Justified (some invalid_request) = invalid_request_field r ≢ none
  Justified (some (queue q)) = Holds h p r ls free q

-- The reason that a verdict gives is true of the job and its rivals, and a verdict without one is
-- given to admissible jobs only. A verdict never says that the lock is busy.
pub evaluate_admission-Justified :
    (h : Host) (p : AdmissionPolicy) (r : AdmissionRequest) (ls : List LiveLeaseInfo)
    (free : Option ℕ)
    → Justified h p r ls free (evaluate_admission h p r ls free).reason
unfolding evaluate_admission
evaluate_admission-Justified h p r ls free = elim (Option-cases (invalid_policy_field p)) [
  | inr (f, e) ↦ rw e (λ d. cc)
  | inl e ↦ elim (Option-cases (invalid_request_field r)) [
    | inr (f, d) ↦ rw (e, d) (λ k. cc)
    | inl d ↦ rw (e, d) (judged e d (gate h p r ls free) refl (gate-Explained h p r ls free))
  ]
]
  where
    judged :
        invalid_policy_field p ≡ none
        → invalid_request_field r ≡ none
        → (g : Option QueueReason) → gate h p r ls free ≡ g
        → Explained h p r ls free g
        → Justified h p r ls free
            (verdict
              (active_count ls)
              (length ls - active_count ls)
              (to_nat p.desired_worker_concurrency)
              (resource_limit_of p r)
              g).reason
    judged e d none k x =
        Passes-Admissible h p r ls free
          ((admitted-Passes h p r ls free).0 (unfold evaluate_admission in rw (e, d, k)))
    judged e d (some q) k x = x

-- ===== src/Retention/Justified.antt =====
-- src/retention.ts: what a planned action means.
-- A log may be truncated when its job is done or waits for attention, a claim or settings file
-- archived when its job is terminal; and the file and the end of its job are a time to live old,
-- which is an hour at least.
use codex_job_orchestrator.Common.{
  ℕ, ◌+◌, ◌≤◌, String, ◌≡◌, refl, ap, inl, inr, Bool, true, false, not, Option, none, some, arith,
  leb, leb→le, Option-cases, or_default, if_cases, is_empty,
}
use codex_job_orchestrator.JobStore.Status.{is_terminal}
use codex_job_orchestrator.Retention.Policy.{
  RetentionAction, PlanItemKind, Duration, RetentionPolicy, min_ttl_ms, bound_policy, bound-ge,
  JobLogClass, log_class_of, ttl_for, archive_registry, truncate_log_candidate,
  archive_claim_candidate, archive_settings_candidate, keep, skip, log, stderr_log, settings, claim,
  registry, log_succeeded, log_failed, log_needs_attention,
}
use codex_job_orchestrator.Retention.Scan.{
  relative_key, Stats, JobView, RetentionPlanItem, ScanCtx, end_of, reference_ms, age_of, Verdict,
  log_verdict, terminal_verdict, verdict_of, scan_stats, scan_file,
}

abbrev pub IsDue : ScanCtx → JobView → Stats → ℕ → Type 0
IsDue c j st ttl =
    (min_ttl_ms ≤ ttl)
    × (st.mtime_ms + ttl ≤ c.now)
    × ((e : ℕ) → end_of c.host (some j) ≡ some e → e + ttl ≤ c.now)

abbrev pub MayAct : ScanCtx → PlanItemKind → Option JobView → Stats → RetentionAction → Type 0
MayAct c k j st truncate_log_candidate =
    (v : JobView) × (l : JobLogClass) × (j ≡ some v)
    × (log_class_of v.status ≡ some l)
    × IsDue c v st (ttl_for l c.policy)
MayAct c k j st archive_claim_candidate =
    (v : JobView) × (j ≡ some v)
    × (is_terminal v.status ≡ true)
    × IsDue c v st c.policy.terminal_claim_settings_ttl
MayAct c k j st archive_settings_candidate =
    (v : JobView) × (j ≡ some v)
    × (is_terminal v.status ≡ true)
    × IsDue c v st c.policy.terminal_claim_settings_ttl
MayAct c k j st archive_registry = true ≡ false
MayAct c k j st keep = Unit
MayAct c k j st skip = Unit

-- The times to live are those of a bounded policy.
abbrev pub IsBounded : RetentionPolicy ℕ → Type 0
IsBounded p =
    (min_ttl_ms ≤ p.succeeded_log_ttl)
    × (min_ttl_ms ≤ p.failed_log_ttl)
    × (min_ttl_ms ≤ p.needs_attention_log_ttl)
    × (min_ttl_ms ≤ p.terminal_claim_settings_ttl)
    × (min_ttl_ms ≤ p.stale_registry_ttl)

pub bound_policy-IsBounded : (p : RetentionPolicy Duration) → IsBounded (bound_policy p)
unfolding bound_policy
bound_policy-IsBounded p = (
  bound-ge p.succeeded_log_ttl,
  bound-ge p.failed_log_ttl,
  bound-ge p.needs_attention_log_ttl,
  bound-ge p.terminal_claim_settings_ttl,
  bound-ge p.stale_registry_ttl,
)

ttl_for-ge : (l : JobLogClass) (p : RetentionPolicy ℕ) → IsBounded p → min_ttl_ms ≤ ttl_for l p
unfolding ttl_for
ttl_for-ge log_succeeded p b = b.0
ttl_for-ge log_failed p b = b.1
ttl_for-ge log_needs_attention p b = b.2

age-IsDue :
    (c : ScanCtx) (j : JobView) (st : Stats) (ttl : ℕ)
    → min_ttl_ms ≤ ttl
    → ttl ≤ age_of c (some j) st
    → IsDue c j st ttl
unfolding age_of reference_ms
age-IsDue c j st ttl p h =
    (p, omega arith, λ e q. let r = ap (λ o. or_default o st.mtime_ms) q in omega arith)

abbrev Allows : ScanCtx → PlanItemKind → Option JobView → Stats → Verdict → Type 0
Allows c k j st v = MayAct c k j st v.0

log_verdict-Allows :
    (c : ScanCtx) (k : PlanItemKind) (j : JobView) (st : Stats) (o : Option JobLogClass)
    → IsBounded c.policy
    → log_class_of j.status ≡ o
    → Allows c k (some j) st (log_verdict c (age_of c (some j) st) o)
log_verdict-Allows c k j st none b e = tt
log_verdict-Allows c k j st (some l) b e =
    if_cases {A = Verdict} (Allows c k (some j) st)
      (leb (ttl_for l c.policy) (age_of c (some j) st))
      (λ t. (
        j,
        l,
        refl,
        e,
        age-IsDue c j st (ttl_for l c.policy) (ttl_for-ge l c.policy b)
            (leb→le (ttl_for l c.policy) (age_of c (some j) st) t),
      ))
      (λ f. tt)

terminal-IsDue :
    (c : ScanCtx) (j : JobView) (st : Stats)
    → IsBounded c.policy
    → not (is_terminal j.status) ≡ false
    → leb c.policy.terminal_claim_settings_ttl (age_of c (some j) st) ≡ true
    → (v : JobView) × (some j ≡ some v)
      × (is_terminal v.status ≡ true)
      × IsDue c v st c.policy.terminal_claim_settings_ttl
terminal-IsDue c j st b n t = (
  j,
  refl,
  ground arith,
  age-IsDue c j st c.policy.terminal_claim_settings_ttl b.3
      (leb→le c.policy.terminal_claim_settings_ttl (age_of c (some j) st) t),
)

settings_verdict-Allows :
    (c : ScanCtx) (k : PlanItemKind) (j : JobView) (st : Stats)
    → IsBounded c.policy
    → Allows c k
        (some j)
        st
        (terminal_verdict c (age_of c (some j) st) archive_settings_candidate j.status)
settings_verdict-Allows c k j st b =
    if_cases {A = Verdict} (Allows c k (some j) st) (not (is_terminal j.status)) (λ t. tt)
      (λ n.
        if_cases {A = Verdict} (Allows c k (some j) st)
          (leb c.policy.terminal_claim_settings_ttl (age_of c (some j) st))
          (λ t. terminal-IsDue c j st b n t) (λ f. tt))

claim_verdict-Allows :
    (c : ScanCtx) (k : PlanItemKind) (j : JobView) (st : Stats)
    → IsBounded c.policy
    → Allows c k
        (some j)
        st
        (terminal_verdict c (age_of c (some j) st) archive_claim_candidate j.status)
claim_verdict-Allows c k j st b =
    if_cases {A = Verdict} (Allows c k (some j) st) (not (is_terminal j.status)) (λ t. tt)
      (λ n.
        if_cases {A = Verdict} (Allows c k (some j) st)
          (leb c.policy.terminal_claim_settings_ttl (age_of c (some j) st))
          (λ t. terminal-IsDue c j st b n t) (λ f. tt))

verdict_of-Allows :
    (c : ScanCtx) (k : PlanItemKind) (j : Option JobView) (st : Stats)
    → IsBounded c.policy
    → Allows c k j st (verdict_of c (age_of c j st) k j)
unfolding verdict_of
verdict_of-Allows c registry j st b = tt
verdict_of-Allows c log none st b = tt
verdict_of-Allows c log (some j) st b = log_verdict-Allows c log j st (log_class_of j.status) b refl
verdict_of-Allows c stderr_log none st b = tt
verdict_of-Allows c stderr_log (some j) st b =
    log_verdict-Allows c stderr_log j st (log_class_of j.status) b refl
verdict_of-Allows c settings none st b = tt
verdict_of-Allows c settings (some j) st b = settings_verdict-Allows c settings j st b
verdict_of-Allows c claim none st b = tt
verdict_of-Allows c claim (some j) st b = claim_verdict-Allows c claim j st b

abbrev pub acts : RetentionAction → Bool
acts keep = false
acts skip = false
acts _ = true

-- An item that acts is about a regular file, for which it is allowed.
abbrev pub Justifies :
    ScanCtx → PlanItemKind → Option JobView → Option Stats → Option RetentionPlanItem → Type 0
Justifies c k j st none = Unit
Justifies c k j st (some it) =
    acts it.action ≡ true
    → (s : Stats) × (st ≡ some s)
      × (s.is_file ≡ true)
      × (s.is_symbolic_link ≡ false)
      × MayAct c k j s it.action

scan_stats-Justifies :
    (c : ScanCtx) (rel : String) (k : PlanItemKind) (j : Option JobView) (st : Option Stats)
    → IsBounded c.policy
    → Justifies c k j st (scan_stats c rel k j st)
scan_stats-Justifies c rel k j none b = tt
scan_stats-Justifies c rel k j (some s) b =
    if_cases {A = Option RetentionPlanItem} (Justifies c k j (some s)) s.is_symbolic_link
      (λ t a. cc)
      (λ l.
        if_cases {A = Option RetentionPlanItem} (Justifies c k j (some s)) (not s.is_file)
          (λ t a. cc) (λ f a. (s, refl, ground arith, l, verdict_of-Allows c k j s b)))

-- With the times to live of a bounded policy, an item that acts on a file is about a regular file:
-- a log is truncated only when its job is known and is terminal or waits for attention, a claim or
-- a settings file archived only when its job is known and terminal, and only when neither the file
-- nor the end of the job is younger than the time to live, an hour at least.
pub scan_file-Justifies :
    (c : ScanCtx) (abs : String) (k : PlanItemKind) (j : Option JobView) (st : Option Stats)
    → IsBounded c.policy
    → Justifies c k j st (scan_file c abs k j st)
unfolding scan_file
scan_file-Justifies c abs k j st b = elim (Option-cases (relative_key c.host abs c.root)) [
  | inl e ↦ rw e (λ a. cc)
  | inr (rel, e) ↦ rw e (
      if_cases {A = Option RetentionPlanItem} (Justifies c k j st) (is_empty rel) (λ t a. cc)
        (λ f. scan_stats-Justifies c rel k j st b))
]

-- ===== src/Retention/Policy.antt =====
-- src/retention.ts: the actions and reasons of a plan, and the policy's bounds.
use codex_job_orchestrator.Common.{ℕ, ◌*◌, ◌≤◌, min, max, Option, none, some, arith}
use codex_job_orchestrator.JobStore.Status.{JobStatus}

pub data RetentionAction : Type 0 where
  archive_registry truncate_log_candidate archive_claim_candidate : RetentionAction
  archive_settings_candidate keep skip : RetentionAction

pub data PlanItemKind : Type 0 where
  log stderr_log settings claim registry : PlanItemKind

pub data RetentionFixedReason : Type 0 where
  terminal_succeeded terminal_failed terminal_cancelled needs_attention_log : RetentionFixedReason
  corrupt invalid pid_not_found identity_unverified identity_mismatch : RetentionFixedReason
  heartbeat_timeout live_instance self_instance future_heartbeat : RetentionFixedReason
  not_continuously_stale not_terminal unknown_job not_a_regular_file : RetentionFixedReason
  path_unsafe out_of_scope : RetentionFixedReason

-- What a field of a policy may hold: `below n` is -(n + 1).
pub data Duration : Type 0 where
  no_number : Duration
  infinite : Duration
  not_finite : Duration
  finite : ℕ → Duration
  below : ℕ → Duration

pub record RetentionPolicy {ℓ} (A : Type ℓ) : Type ℓ where
  pub succeeded_log_ttl : A
  pub failed_log_ttl : A
  pub needs_attention_log_ttl : A
  pub terminal_claim_settings_ttl : A
  pub stale_registry_ttl : A

-- An hour, and 365 days.
abbrev pub min_ttl_ms : ℕ
min_ttl_ms = 3600000

abbrev pub max_ttl_ms : ℕ
max_ttl_ms = 31536000000

abbrev pub day_ms : ℕ
day_ms = 86400000

unfoldable pub default_retention_policy : RetentionPolicy Duration
default_retention_policy = record {
  succeeded_log_ttl = finite (7 * day_ms);
  failed_log_ttl = finite (30 * day_ms);
  needs_attention_log_ttl = finite (30 * day_ms);
  terminal_claim_settings_ttl = finite (14 * day_ms);
  stale_registry_ttl = finite day_ms;
}

unfoldable pub bound : Duration → ℕ
bound no_number = min_ttl_ms
bound infinite = max_ttl_ms
bound not_finite = min_ttl_ms
bound (finite v) = min max_ttl_ms (max min_ttl_ms v)
bound (below v) = min_ttl_ms

unfoldable pub bound_policy : RetentionPolicy Duration → RetentionPolicy ℕ
bound_policy p = record {
  succeeded_log_ttl = bound p.succeeded_log_ttl;
  failed_log_ttl = bound p.failed_log_ttl;
  needs_attention_log_ttl = bound p.needs_attention_log_ttl;
  terminal_claim_settings_ttl = bound p.terminal_claim_settings_ttl;
  stale_registry_ttl = bound p.stale_registry_ttl;
}

pub bound-ge : (d : Duration) → min_ttl_ms ≤ bound d
unfolding bound
bound-ge no_number = omega arith
bound-ge infinite = omega arith
bound-ge not_finite = omega arith
bound-ge (finite v) = omega arith
bound-ge (below v) = omega arith

pub data JobLogClass : Type 0 where
  log_succeeded log_failed log_needs_attention : JobLogClass

unfoldable pub log_class_of : JobStatus → Option JobLogClass
log_class_of JobStatus.succeeded = some log_succeeded
log_class_of JobStatus.failed = some log_failed
log_class_of JobStatus.cancelled = some log_failed
log_class_of JobStatus.needs_attention = some log_needs_attention
log_class_of JobStatus.queued = none
log_class_of JobStatus.running = none

unfoldable pub ttl_for : JobLogClass → RetentionPolicy ℕ → ℕ
ttl_for log_succeeded p = p.succeeded_log_ttl
ttl_for log_failed p = p.failed_log_ttl
ttl_for log_needs_attention p = p.needs_attention_log_ttl

unfoldable pub fixed_for_terminal : JobStatus → RetentionFixedReason
fixed_for_terminal JobStatus.succeeded = terminal_succeeded
fixed_for_terminal JobStatus.failed = terminal_failed
fixed_for_terminal JobStatus.cancelled = terminal_cancelled
fixed_for_terminal JobStatus.queued = terminal_cancelled
fixed_for_terminal JobStatus.running = terminal_cancelled
fixed_for_terminal JobStatus.needs_attention = terminal_cancelled

unfoldable pub fixed_for_log : JobLogClass → RetentionFixedReason
fixed_for_log log_succeeded = terminal_succeeded
fixed_for_log log_failed = terminal_failed
fixed_for_log log_needs_attention = needs_attention_log

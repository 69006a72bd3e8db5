-- ===== src/Admission/Types.antt =====
-- src/admission.ts: the types of a policy, a request, a lease and an evaluation.
-- Numbers that the source validates at run time are `Number`; strings are taken to be strings.
use codex_job_orchestrator.Common.{ℕ, Bool, String, Option, List, Number}

pub data ResourceClass : Type 0 where
  light build heavy : ResourceClass

pub data QueueReason : Type 0 where
  desired_limit hard_safety_ceiling backend_profile_limit memory_reserve : QueueReason
  heavy_limit derived_space_conflict lock_busy : QueueReason

pub data DenyReason : Type 0 where
  queue : QueueReason → DenyReason
  invalid_policy invalid_request : DenyReason

pub record AdmissionPolicy : Type 0 where
  pub desired_worker_concurrency : Number
  pub hard_safety_ceiling : Number
  pub max_heavy_workers : Number
  pub memory_reserve_mb : Number
  pub backend_profile_limits : Option (List (String × Number))

pub record AdmissionRequest : Type 0 where
  pub job_id : String
  pub resource_class : ResourceClass
  pub backend : String
  pub profile : String
  pub work_folder : String
  pub pid : Number
  pub pid_started_at : Number

-- `schemaVersion` is always 1 and is written by the encoder.
pub record AdmissionLease : Type 0 where
  pub job_id : String
  pub resource_class : ResourceClass
  pub backend : String
  pub profile : String
  pub work_folder : String
  pub pid : ℕ
  pub pid_started_at : ℕ
  pub acquired_at : ℕ
  pub heartbeat_at : ℕ
  pub expires_at : ℕ

-- What leaves the module: no `workFolder`, no `pidStartedAt`.
pub record PublicLease : Type 0 where
  pub job_id : String
  pub resource_class : ResourceClass
  pub backend : String
  pub profile : String
  pub pid : ℕ
  pub acquired_at : ℕ
  pub heartbeat_at : ℕ
  pub expires_at : ℕ

pub record LiveLeaseInfo : Type 0 where
  pub job_id : String
  pub resource_class : ResourceClass
  pub work_folder : String
  pub active : Bool

pub record AdmissionEvaluation : Type 0 where
  pub admitted : Bool
  pub active : ℕ
  pub queued : ℕ
  pub desired : ℕ
  pub resource_limit : ℕ
  pub reason : Option DenyReason

-- `path.resolve`, `String.prototype.toLowerCase`, `process.platform` and the printing of a number
-- are not of this repository.
pub record Host : Type 0 where
  pub resolve : String → String
  pub lower : String → String
  pub win32 : Bool
  pub show : ℕ → String

-- ===== src/BackendPolicy.antt =====
-- src/backend-policy.ts: what a backend can do, and whether a reply may go to it.
pub mod Reply
mod Examples
use codex_job_orchestrator.Common.{
  ℕ, Bool, true, false, not, ◌&&◌, Option, none, some, ltb, if◌then◌else◌, or_default, is_some,
}

pub data WorkerBackend : Type 0 where
  claude deepseek_harness : WorkerBackend

pub data ReplyMode : Type 0 where
  resume_session fresh_turn : ReplyMode

pub record BackendCapabilities : Type 0 where
  pub backend : WorkerBackend
  pub supports_cancel : Bool
  pub supports_attention : Bool
  pub supports_live_events : Bool
  pub supports_session_resume : Bool
  pub reply_mode : ReplyMode

unfoldable pub backend_capabilities : WorkerBackend → BackendCapabilities
backend_capabilities claude = record {
  backend = claude;
  supports_cancel = true;
  supports_attention = true;
  supports_live_events = true;
  supports_session_resume = true;
  reply_mode = resume_session;
}
backend_capabilities deepseek_harness = record {
  backend = deepseek_harness;
  supports_cancel = true;
  supports_attention = false;
  supports_live_events = false;
  supports_session_resume = false;
  reply_mode = fresh_turn;
}

abbrev pub default_reply_transcript_max_bytes : ℕ
default_reply_transcript_max_bytes = 2097152

pub data ReplyPreflightCode : Type 0 where
  new_start_required fresh_turn_authorization_required : ReplyPreflightCode

pub record ReplyOptions : Type 0 where
  pub allow_large_resume : Option Bool
  pub allow_fresh_turn : Option Bool
  pub max_bytes : Option ℕ

-- `status` is `allowed` or `denied` with the Boolean of the same name.
pub record ReplyPreflight : Type 0 where
  pub allowed : Bool
  pub code : Option ReplyPreflightCode
  pub reply_mode : Option ReplyMode
  pub backend : WorkerBackend
  pub bytes : ℕ
  pub threshold : ℕ
  pub allow_large_resume : Bool
  pub allow_fresh_turn : Bool
  pub threshold_overridden : Bool

abbrev pub threshold_of : ReplyOptions → ℕ
threshold_of o = or_default o.max_bytes default_reply_transcript_max_bytes

abbrev pub preflight :
    WorkerBackend
    → ℕ
    → ReplyOptions
    → Bool
    → Option ReplyPreflightCode
    → Option ReplyMode
    → ReplyPreflight
preflight b n o ok code mode = record {
  allowed = ok;
  code = code;
  reply_mode = mode;
  backend = b;
  bytes = n;
  threshold = threshold_of o;
  allow_large_resume = or_default o.allow_large_resume false;
  allow_fresh_turn = or_default o.allow_fresh_turn false;
  threshold_overridden = is_some o.max_bytes;
}

abbrev pub preflight_in : ReplyMode → WorkerBackend → ℕ → ReplyOptions → ReplyPreflight
preflight_in resume_session b n o =
    if ltb (threshold_of o) n && not (or_default o.allow_large_resume false)
    then preflight b n o false (some new_start_required) none
    else preflight b n o true none (some resume_session)
preflight_in fresh_turn b n o =
    if not (or_default o.allow_fresh_turn false)
    then preflight b n o false (some fresh_turn_authorization_required) none
    else preflight b n o true none (some fresh_turn)

unfoldable pub evaluate_reply_preflight : WorkerBackend → ℕ → ReplyOptions → ReplyPreflight
unfolding backend_capabilities
evaluate_reply_preflight b n o = preflight_in (backend_capabilities b).reply_mode b n o

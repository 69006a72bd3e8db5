-- ===== src/BackendPolicy/Examples.antt =====
-- src/backend-policy.ts: a large reply to a persistent session.
use codex_job_orchestrator.Common.{◌≡◌, refl, ◌↔◌, true, none, some}
use codex_job_orchestrator.BackendPolicy.{
  backend_capabilities, ReplyOptions, evaluate_reply_preflight, claude, new_start_required,
}
use codex_job_orchestrator.BackendPolicy.Reply.{MayReply, IsCoded, evaluate_reply_preflight_iff}

abbrev plain_options : ReplyOptions
plain_options = record { allow_large_resume = none; allow_fresh_turn = none; max_bytes = some 10 }

-- Eleven bytes are too many for a threshold of ten.
too_large : (evaluate_reply_preflight claude 11 plain_options).code ≡ some new_start_required
unfolding evaluate_reply_preflight backend_capabilities
too_large = refl

evaluate_reply_preflight_iff_example :
    (((evaluate_reply_preflight claude 11 plain_options).allowed ≡ true)
      ↔ MayReply claude 11 plain_options)
    × IsCoded claude (evaluate_reply_preflight claude 11 plain_options)
evaluate_reply_preflight_iff_example = evaluate_reply_preflight_iff claude 11 plain_options

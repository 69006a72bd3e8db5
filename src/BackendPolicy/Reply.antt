-- ===== src/BackendPolicy/Reply.antt =====
-- src/backend-policy.ts: which replies pass, and how.
-- What each backend asks of a reply.
use codex_job_orchestrator.Common.{
  ℕ, ◌≤◌, ◌≡◌, refl, ap, ◌↔◌, ◌⊎◌, inl, inr, Bool, true, false, not, ◌&&◌, Option, none, some,
  arith, ltb, Bool-cases, or_default, is_some, if_cases,
}
use codex_job_orchestrator.BackendPolicy.{
  WorkerBackend, backend_capabilities, ReplyOptions, ReplyPreflight, threshold_of,
  evaluate_reply_preflight, claude, deepseek_harness,
}

abbrev pub MayReply : WorkerBackend → ℕ → ReplyOptions → Type 0
MayReply claude n o = (n ≤ threshold_of o) ⊎ (o.allow_large_resume ≡ some true)
MayReply deepseek_harness n o = o.allow_fresh_turn ≡ some true

-- An allowed reply has the backend's mode and no code, a denied one a code and no mode.
abbrev pub IsCoded : WorkerBackend → ReplyPreflight → Type 0
IsCoded b p =
    ((p.allowed ≡ true)
      × (p.code ≡ none)
      × (p.reply_mode ≡ some (backend_capabilities b).reply_mode))
    ⊎ ((p.allowed ≡ false) × (is_some p.code ≡ true) × (p.reply_mode ≡ none))

granted : (o : Option Bool) → or_default o false ≡ true → o ≡ some true
granted none h = cc
granted (some b) h = ap some h

asked : (o : Option Bool) → o ≡ some true → or_default o false ≡ true
asked o h = ap (λ x. or_default x false) h

-- A reply passes exactly when its backend's rule lets it: a resumed session when the transcript is
-- within the threshold or a large resume was allowed explicitly, a fresh turn when one was allowed
-- explicitly. If it passes, the answer names the backend's mode of reply and no code, and otherwise
-- a code and no mode.
pub evaluate_reply_preflight_iff :
    (b : WorkerBackend) (n : ℕ) (o : ReplyOptions)
    → (((evaluate_reply_preflight b n o).allowed ≡ true) ↔ MayReply b n o)
      × IsCoded b (evaluate_reply_preflight b n o)
unfolding evaluate_reply_preflight backend_capabilities
evaluate_reply_preflight_iff claude n o =
    if_cases {A = ReplyPreflight}
      (λ p. ((p.allowed ≡ true) ↔ MayReply claude n o) × IsCoded claude p)
      (ltb (threshold_of o) n && not (or_default o.allow_large_resume false))
      (λ t. (
        (
          λ h. cc,
          λ x. elim x [
            | inl l ↦ ground arith
            | inr a ↦ let g = asked o.allow_large_resume a in ground arith
          ],
        ),
        inr (refl, refl, refl),
      ))
      (λ f. ((λ h. pass f, λ x. refl), inl (refl, refl, refl)))
  where
    pass :
        (ltb (threshold_of o) n && not (or_default o.allow_large_resume false)) ≡ false
        → MayReply claude n o
    pass f = elim (Bool-cases (or_default o.allow_large_resume false)) [
      | inl t ↦ inr (granted o.allow_large_resume t)
      | inr e ↦ inl (ground arith)
    ]
evaluate_reply_preflight_iff deepseek_harness n o =
    if_cases {A = ReplyPreflight}
      (λ p. ((p.allowed ≡ true) ↔ MayReply deepseek_harness n o) × IsCoded deepseek_harness p)
      (not (or_default o.allow_fresh_turn false))
      (λ t. (
        (λ h. cc, λ x. let g = asked o.allow_fresh_turn x in ground arith),
        inr (refl, refl, refl),
      ))
      (λ f. ((λ h. granted o.allow_fresh_turn (ground arith), λ x. refl), inl (refl, refl, refl)))

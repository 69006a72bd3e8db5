-- ===== src/Controller/Order.antt =====
-- src/admission-controller.ts: the order in which candidates are decided, each once.
use codex_job_orchestrator.Common.{
  ℕ, String, ◌≡◌, refl, ap₂, ◌∙◌, inl, inr, false, ◌&&◌, Option, none, some, List, [], ◌∷◌, map,
  Bool-cases, if_cases, is_pos_int,
}
use codex_job_orchestrator.Admission.Types.{AdmissionEvaluation, Host}
use codex_job_orchestrator.Admission.Files.{Area}
use codex_job_orchestrator.Admission.Manager.{
  Outcome, AcquireDenyReason, AcquireAdmissionResult, returned, thrown,
}
use codex_job_orchestrator.Admission.Owner.{Step, ok, refused, failed}
use codex_job_orchestrator.Controller.{
  AdmissionCandidate, Launch, DecisionState, DecisionReason, AdmissionDecision, Turn, Controller,
  TurnResult, decision, after_transfer, handoff, queue_reason, after_acquire, after_call, decide,
  throws, supervisor, active, queued, failed, supervisor_spawn_failed, lease_transfer_failed,
}
use codex_job_orchestrator.Controller.Pass.{before, insert_turn, sort_turns, and_then, decide_all}
use mathlib.Core.List.Perm
use mathlib.Core.List.{Perm}

insert_turn-perm : (t : Turn) (us : List Turn) → Perm (insert_turn t us) (t ∷ us)
unfolding insert_turn
insert_turn-perm t [] = Perm.refl (t ∷ [])
insert_turn-perm t (u ∷ us) = elim (Bool-cases (before t.candidate u.candidate)) [
  | inl e ↦ rw e (Perm.refl (t ∷ u ∷ us))
  | inr e ↦ rw e (Perm.trans (Perm.cons u (insert_turn-perm t us)) (Perm.swap t u us))
]

pub sort_turns-perm : (ts : List Turn) → Perm (sort_turns ts) ts
unfolding sort_turns
sort_turns-perm [] = Perm.refl []
sort_turns-perm (t ∷ ts) =
    Perm.trans (insert_turn-perm t (sort_turns ts)) (Perm.cons t (sort_turns-perm ts))

-- A returned decision names its candidate.
abbrev Names : String → TurnResult → Type 0
Names id r = (d : AdmissionDecision) → r.decision ≡ returned d → d.job_id ≡ id

decision_names :
    (c : AdmissionCandidate) (st : DecisionState) (at : Option ℕ) (why : Option DecisionReason)
    (e : Option AdmissionEvaluation)
    → (decision c st at why e).job_id ≡ c.job_id
unfolding decision
decision_names c st at why none = refl
decision_names c st at why (some e) = refl

returned_id : {d e : AdmissionDecision} → returned d ≡ returned e → e.job_id ≡ d.job_id
returned_id p = cc

named :
    (c : AdmissionCandidate) (st : DecisionState) (at : Option ℕ) (why : Option DecisionReason)
    (e : Option AdmissionEvaluation) (d : AdmissionDecision)
    → returned (decision c st at why e) ≡ returned d
    → d.job_id ≡ c.job_id
named c st at why e d r = returned_id r ∙ decision_names c st at why e

module _ (h : Host) (k : Controller) (t : Turn) where
  after_transfer-Names :
      (e : Option AdmissionEvaluation) (st : Step)
      → Names t.candidate.job_id (after_transfer h k t e st)
  unfolding after_transfer
  after_transfer-Names e (a, thrown) = λ d r. cc
  after_transfer-Names e (a, returned (ok l)) =
      λ d r. named t.candidate active (some t.transferring.now) none e d r
  after_transfer-Names e (a, returned (refused why)) =
      λ d r. named t.candidate failed none (some lease_transfer_failed) e d r

  handoff-Names :
      (e : Option AdmissionEvaluation) (a : Area) (l : Launch)
      → Names t.candidate.job_id (handoff h k t e a l)
  unfolding handoff
  handoff-Names e a throws =
      λ d r. named t.candidate failed none (some supervisor_spawn_failed) e d r
  handoff-Names e a (supervisor pid started) =
      if_cases {A = TurnResult} (Names t.candidate.job_id) (is_pos_int pid && is_pos_int started)
        (λ _. after_transfer-Names e _)
        (λ _ d r. named t.candidate failed none (some supervisor_spawn_failed) e d r)

  after_acquire-Names :
      (a : Area) (e : Option AdmissionEvaluation) (why : Option AcquireDenyReason)
      → Names t.candidate.job_id (after_acquire h k t a e why)
  unfolding after_acquire
  after_acquire-Names a e none = handoff-Names e a t.launch
  after_acquire-Names a e (some why) =
      λ d r. named t.candidate queued none (some (queue_reason e (some why))) e d r

  after_call-Names :
      (st : Area × Outcome AcquireAdmissionResult) → Names t.candidate.job_id (after_call h k t st)
  unfolding after_call
  after_call-Names (a, thrown) = λ d r. cc
  after_call-Names (a, returned res) = after_acquire-Names a res.evaluation res.reason

  decide-Names : (a : Area) → Names t.candidate.job_id (decide h k t a)
  unfolding decide
  decide-Names a = after_call-Names _

abbrev pub turn_id : Turn → String
turn_id t = t.candidate.job_id

abbrev pub decision_id : AdmissionDecision → String
decision_id d = d.job_id

pub decide_all-ids :
    (h : Host) (k : Controller) (ts : List Turn) (a : Area)
    → (decide_all h k ts a).threw ≡ false
    → map decision_id (decide_all h k ts a).decisions ≡ map turn_id ts
unfolding decide_all
decide_all-ids h k [] a e = refl
decide_all-ids h k (t ∷ ts) a e =
    go (decide h k t a).decision refl (decide_all-ids h k ts (decide h k t a).area) e
  where
    go :
        (o : Outcome AdmissionDecision)
        → (decide h k t a).decision ≡ o
        → ((decide_all h k ts (decide h k t a).area).threw ≡ false
            → map decision_id (decide_all h k ts (decide h k t a).area).decisions ≡ map turn_id ts)
        → (and_then o (decide h k t a).area (decide_all h k ts (decide h k t a).area)).threw ≡ false
        → map decision_id
            (and_then o (decide h k t a).area (decide_all h k ts (decide h k t a).area)).decisions
          ≡ map turn_id (t ∷ ts)
    go thrown p ih e = cc
    go (returned d) p ih e = ap₂ ◌∷◌ (decide-Names h k t a d p) (ih e)

-- ===== src/Controller/Handoff.antt =====
-- src/admission-controller.ts: a turn that fails gives its slot back.
use codex_job_orchestrator.Common.{
  ℕ, ◌≤◌, ◌≡◌, refl, sym, subst, ◌&&◌, Option, none, some, if_cases, is_pos_int,
}
use codex_job_orchestrator.Admission.Types.{AdmissionEvaluation, Host}
use codex_job_orchestrator.Admission.Files.{Dir, Area}
use codex_job_orchestrator.Admission.Manager.{AcquireDenyReason, new_lease, returned, thrown}
use codex_job_orchestrator.Admission.Owner.{Step, release_lease, ok, refused, failed}
use codex_job_orchestrator.Admission.Sharing.{Acquired}
use codex_job_orchestrator.Controller.{
  AdmissionCandidate, Launch, DecisionState, DecisionReason, AdmissionDecision, Turn, Controller,
  controller_ttl, TurnResult, decision, owner_ref, release_by_current_owner, after_transfer,
  handoff, queue_reason, after_acquire, after_call, candidate_policy, candidate_request, decide,
  throws, supervisor, active, queued, failed,
}
use codex_job_orchestrator.Controller.Acquisition.{Extends, acquire-Extends}
use codex_job_orchestrator.Controller.Slot.{
  Holds, release_restores, turn_lease, turn_kept, controller_owns, CanRelease, Unmoved,
  transfer-Unmoved,
}

pub decision_state :
    (c : AdmissionCandidate) (st : DecisionState) (at : Option ℕ) (why : Option DecisionReason)
    (e : Option AdmissionEvaluation)
    → (decision c st at why e).state ≡ st
unfolding decision
decision_state c st at why none = refl
decision_state c st at why (some e) = refl

pub returned-eq : {d e : AdmissionDecision} → returned d ≡ returned e → d.state ≡ e.state
returned-eq p = cc

-- A result that, if it is a failed decision, has restored `kept`.
abbrev pub RollsBack : Dir → TurnResult → Type 0
RollsBack kept r =
    (d : AdmissionDecision) → r.decision ≡ returned d → d.state ≡ failed → r.area.leases ≡ kept

module _ (h : Host) (k : Controller) (t : Turn) (kept : Dir)
    (able : CanRelease t.releasing t.candidate.job_id) where
  released :
      (a : Area) → Holds kept (turn_lease k t) a → (release_by_current_owner h k t a).leases ≡ kept
  unfolding release_by_current_owner new_lease candidate_request
  released a s =
      subst
        (λ b.
          (release_lease h t.releasing.disk b t.releasing.now (owner_ref k t.candidate) a).0.leases
          ≡ kept)
        (sym able.lock)
        (release_restores t.releasing.disk k.owner_pid k.owner_pid_started_at kept (turn_lease k t)
          a able.reads (controller_owns k t s.sound) s h t.releasing.now able.moves)

  after_transfer-RollsBack :
      (e : Option AdmissionEvaluation) (a : Area) (st : Step)
      → Holds kept (turn_lease k t) a
      → Unmoved a st
      → RollsBack kept (after_transfer h k t e st)
  unfolding after_transfer
  after_transfer-RollsBack e a (b, thrown) s u = λ d r f. cc
  after_transfer-RollsBack e a (b, returned (ok l)) s u = λ d r f.
      cc (decision_state t.candidate active (some t.transferring.now) none e, returned-eq r, f)
  after_transfer-RollsBack e a (b, returned (refused why)) s u =
      λ d r f. released b (subst (Holds kept (turn_lease k t)) (sym u) s)

  handoff-RollsBack :
      (e : Option AdmissionEvaluation) (a : Area) (l : Launch)
      → Holds kept (turn_lease k t) a
      → RollsBack kept (handoff h k t e a l)
  unfolding handoff
  handoff-RollsBack e a throws s = λ d r f. released a s
  handoff-RollsBack e a (supervisor pid started) s =
      if_cases {A = TurnResult} (RollsBack kept) (is_pos_int pid && is_pos_int started)
        (λ _. after_transfer-RollsBack e a _ s (
          transfer-Unmoved t.transferring.disk t.transferring.locked controller_ttl
            t.transferring.now (owner_ref k t.candidate)
            (some (record { job_id = t.candidate.job_id; pid = pid; pid_started_at = started })) a))
        (λ _ d r f. released a s)

  after_call-RollsBack :
      (st : Acquired) → Extends kept (turn_lease k t) st → RollsBack kept (after_call h k t st)
  unfolding after_call after_acquire
  after_call-RollsBack (a, thrown) x = λ d r f. cc
  after_call-RollsBack (a, returned res) x = after res.reason refl
    where
      after :
          (why : Option AcquireDenyReason)
          → res.reason ≡ why
          → RollsBack kept (after_acquire h k t a res.evaluation why)
      after none e =
          let y = x e in
          handoff-RollsBack res.evaluation a t.launch
            (record { extended = y.0; absent = y.1; sound = y.2 })
      after (some why) e = λ d r f. cc (
        decision_state t.candidate queued none (some (queue_reason res.evaluation (some why)))
            res.evaluation,
        returned-eq r,
        f,
      )

-- A turn that ends in a failed decision leaves the lease directory exactly as its sweep left it:
-- no slot stays occupied, whether the launch threw, answered with a bad identity, or the transfer
-- was refused. The controller's clock must be positive and its release must find the lock free and
-- the lease readable and movable.
pub decide_failed_restores :
    (h : Host) (k : Controller) (t : Turn) (a : Area)
    → 1 ≤ t.acquiring.now
    → CanRelease t.releasing t.candidate.job_id
    → (d : AdmissionDecision) → (decide h k t a).decision ≡ returned d
    → d.state ≡ failed
    → (decide h k t a).area.leases ≡ turn_kept h t a
unfolding decide
decide_failed_restores h k t a pos able = after_call-RollsBack h k t (turn_kept h t a) able _ (
    acquire-Extends h t.inspector t.acquiring.disk t.acquiring.locked controller_ttl t.acquiring.now
      t.free (candidate_policy k t.candidate) (candidate_request k t.candidate) a pos)

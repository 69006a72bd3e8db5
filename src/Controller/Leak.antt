-- ===== src/Controller/Leak.antt =====
-- src/admission-controller.ts: the slot that a throwing transfer leaves occupied.
use codex_job_orchestrator.Common.{
  ◌≤◌, ◌≡◌, sym, ap, ◌∙◌, subst, true, false, Option, none, some, Number, is_pos_int,
}
use codex_job_orchestrator.Admission.Types.{AdmissionEvaluation, Host}
use codex_job_orchestrator.Admission.Lease.{encode_lease}
use codex_job_orchestrator.Admission.Files.{Dir, Area, find_file}
use codex_job_orchestrator.Admission.Manager.{
  AcquireAdmissionResult, new_lease, acquire_admission_lease, returned, thrown,
}
use codex_job_orchestrator.Admission.Owner.{replace_lease, transfer_lease_owner}
use codex_job_orchestrator.Controller.{
  Turn, Controller, controller_ttl, owner_ref, after_transfer, handoff, after_acquire, after_call,
  candidate_policy, candidate_request, decide, supervisor,
}
use codex_job_orchestrator.Controller.Acquisition.{Extends, acquire-Extends}
use codex_job_orchestrator.Controller.Slot.{
  Holds, there, transfer_found, turn_lease, turn_kept, controller_owns,
}

handoff_transfers :
    (h : Host) (k : Controller) (t : Turn) (e : Option AdmissionEvaluation) (a : Area)
    (pid started : Number)
    → is_pos_int pid ≡ true
    → is_pos_int started ≡ true
    → handoff h k t e a (supervisor pid started)
      ≡ after_transfer h k t e (
          transfer_lease_owner t.transferring.disk t.transferring.locked controller_ttl
            t.transferring.now
            (owner_ref k t.candidate)
            (some (record { job_id = t.candidate.job_id; pid = pid; pid_started_at = started }))
            a)
unfolding handoff
handoff_transfers h k t e a pid started p q = simp (p, q)

transfer_throws :
    (k : Controller) (t : Turn) (kept : Dir) (a : Area) (pid started : Number)
    → is_pos_int pid ≡ true
    → is_pos_int started ≡ true
    → t.transferring.locked ≡ true
    → t.transferring.disk.read_fails t.candidate.job_id ≡ false
    → t.transferring.disk.replace_fails ≡ true
    → Holds kept (turn_lease k t) a
    → transfer_lease_owner t.transferring.disk t.transferring.locked controller_ttl
        t.transferring.now
        (owner_ref k t.candidate)
        (some (record { job_id = t.candidate.job_id; pid = pid; pid_started_at = started }))
        a
      ≡ (a, thrown)
unfolding replace_lease new_lease candidate_request
transfer_throws k t kept a pid started p q lock readable stuck s =
    subst
      (λ b.
        transfer_lease_owner t.transferring.disk b controller_ttl t.transferring.now
          (owner_ref k t.candidate)
          (some (record { job_id = t.candidate.job_id; pid = pid; pid_started_at = started })) a
        ≡ (a, thrown))
      (sym lock)
      (transfer_found t.transferring.disk k.owner_pid k.owner_pid_started_at kept (turn_lease k t) a
          readable (controller_owns k t s.sound) s controller_ttl t.transferring.now pid started p q
        ∙ (simp stuck))

-- A transfer that throws is caught by nobody: the turn ends in the exception, the supervisor that
-- was launched is not terminated, and the lease stays with the controller. So it goes whenever the
-- acquisition and the launch succeed and the lease file cannot be replaced.
pub decide_transfer_throws :
    (h : Host) (k : Controller) (t : Turn) (a b : Area) (res : AcquireAdmissionResult)
    (pid started : Number)
    → 1 ≤ t.acquiring.now
    → acquire_admission_lease h t.inspector t.acquiring.disk t.acquiring.locked controller_ttl
        t.acquiring.now t.free
        (candidate_policy k t.candidate)
        (candidate_request k t.candidate)
        a
      ≡ (b, returned res)
    → res.reason ≡ none
    → t.launch ≡ supervisor pid started
    → is_pos_int pid ≡ true
    → is_pos_int started ≡ true
    → t.transferring.locked ≡ true
    → t.transferring.disk.read_fails t.candidate.job_id ≡ false
    → t.transferring.disk.replace_fails ≡ true
    → (decide h k t a ≡ record { area = b; terminated = false; decision = thrown })
      × (find_file t.candidate.job_id b.leases ≡ some (some (encode_lease (turn_lease k t))))
unfolding decide after_call after_acquire after_transfer new_lease
decide_transfer_throws h k t a b res pid started pos acq won sup p q lock readable stuck =
    let s = holds (
      subst (Extends (turn_kept h t a) (turn_lease k t)) acq (
        acquire-Extends h t.inspector t.acquiring.disk t.acquiring.locked controller_ttl
          t.acquiring.now t.free (candidate_policy k t.candidate) (candidate_request k t.candidate)
          a pos)) in
    (
      ap (after_call h k t) acq
          ∙ ap (after_acquire h k t b res.evaluation) won
          ∙ ap (handoff h k t res.evaluation b) sup
          ∙ handoff_transfers h k t res.evaluation b pid started p q
          ∙ ap (after_transfer h k t res.evaluation)
              (transfer_throws k t (turn_kept h t a) b pid started p q lock readable stuck s),
      there (turn_kept h t a) (turn_lease k t) b s,
    )
  where
    holds :
        Extends (turn_kept h t a) (turn_lease k t) (b, returned res)
        → Holds (turn_kept h t a) (turn_lease k t) b
    holds x = let y = x won in record { extended = y.0; absent = y.1; sound = y.2 }

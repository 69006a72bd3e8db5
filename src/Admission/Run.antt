-- ===== src/Admission/Run.antt =====
-- src/admission.ts: any sequence of calls of `AdmissionManager`, by any callers.
-- A call of the manager: its clock, whether it got the lock, and its arguments.
use codex_job_orchestrator.Common.{
  ℕ, ◌≤◌, ◌≡◌, sym, subst₂, Bool, Option, List, [], ◌∷◌, All, to_nat,
}
use codex_job_orchestrator.Admission.Types.{AdmissionPolicy, AdmissionRequest, Host}
use codex_job_orchestrator.Admission.Files.{Area, PidInspector, Disk}
use codex_job_orchestrator.Admission.Manager.{acquire_admission_lease}
use codex_job_orchestrator.Admission.Owner.{
  LeaseOwnerRef, heartbeat_lease, release_lease, transfer_lease_owner,
}
use codex_job_orchestrator.Admission.Table.{IsReadable}
use codex_job_orchestrator.Admission.Sharing.{IsCapped, acquire_admission_lease-IsCapped}
use codex_job_orchestrator.Admission.Owners.{
  heartbeat_lease-IsCapped, release_lease-IsCapped, transfer_lease_owner-IsCapped,
}

pub data Action : Type 0 where
  acquires : PidInspector → Option ℕ → AdmissionPolicy → AdmissionRequest → Action
  heartbeats releases : LeaseOwnerRef → Action
  transfers : LeaseOwnerRef → Option LeaseOwnerRef → Action

pub record Call : Type 0 where
  pub disk : Disk
  pub locked : Bool
  pub ttl : ℕ
  pub now : ℕ
  pub action : Action

unfoldable pub perform : Host → Disk → Bool → ℕ → ℕ → Action → Area → Area
perform h d locked ttl now (acquires i free p r) a =
    (acquire_admission_lease h i d locked ttl now free p r a).0
perform h d locked ttl now (heartbeats o) a = (heartbeat_lease d locked ttl now o a).0
perform h d locked ttl now (releases o) a = (release_lease h d locked now o a).0
perform h d locked ttl now (transfers o n) a = (transfer_lease_owner d locked ttl now o n a).0

unfoldable pub run : Host → List Call → Area → Area
unfolding perform
run h [] a = a
run h (c ∷ cs) a = run h cs (perform h c.disk c.locked c.ttl c.now c.action a)

-- The policies of all callers share a ceiling and a cap on heavy workers; each may have its own
-- desired concurrency, reserve and scope limits.
abbrev pub Shares : ℕ → ℕ → Action → Type 0
Shares c v (acquires i free p r) =
    (to_nat p.hard_safety_ceiling ≡ c) × (to_nat p.max_heavy_workers ≡ v)
Shares c v (heartbeats o) = Unit
Shares c v (releases o) = Unit
Shares c v (transfers o n) = Unit

pub record IsFair (c v : ℕ) (k : Call) : Type 0 where
  pub readable : IsReadable k.disk
  pub clock : 1 ≤ k.now
  pub shares : Shares c v k.action

perform-IsCapped :
    (c v : ℕ) (h : Host) (d : Disk) (locked : Bool) (ttl now : ℕ) (x : Action) (a : Area)
    → IsReadable d
    → 1 ≤ now
    → Shares c v x
    → IsCapped c v h a
    → IsCapped c v h (perform h d locked ttl now x a)
unfolding perform
perform-IsCapped c v h d locked ttl now (acquires i free p r) a readable clock s cap =
    subst₂ (λ x y. IsCapped x y h (acquire_admission_lease h i d locked ttl now free p r a).0) s.0
      s.1
      (acquire_admission_lease-IsCapped h i d ttl now free p r readable clock locked a
        (subst₂ (λ x y. IsCapped x y h a) (sym s.0) (sym s.1) cap))
perform-IsCapped c v h d locked ttl now (heartbeats o) a readable clock s cap =
    heartbeat_lease-IsCapped c v h d a cap locked ttl now o clock
perform-IsCapped c v h d locked ttl now (releases o) a readable clock s cap =
    release_lease-IsCapped c v h d a cap locked now o
perform-IsCapped c v h d locked ttl now (transfers o n) a readable clock s cap =
    transfer_lease_owner-IsCapped c v h d a cap locked ttl now o n clock

-- However many controllers and supervisors share the lease files, in whatever order they call the
-- manager, and whichever calls fail to lock, to write or to replace: the files stay those of a
-- table of sound leases with at most `c` leases, at most `v` heavy ones, one a job, and no two in
-- one derived space. The directory must be listable, its files readable and movable, and the
-- policies must share the ceiling `c` and the cap `v`.
pub run-IsCapped :
    (c v : ℕ) (h : Host) (cs : List Call) (a : Area)
    → All (IsFair c v) cs
    → IsCapped c v h a
    → IsCapped c v h (run h cs a)
unfolding run
run-IsCapped c v h [] a f cap = cap
run-IsCapped c v h (k ∷ cs) a f cap = run-IsCapped c v h cs _ f.1 (
    perform-IsCapped c v h k.disk k.locked k.ttl k.now k.action a f.0.readable f.0.clock f.0.shares
      cap)

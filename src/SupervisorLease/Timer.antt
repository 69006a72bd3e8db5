-- ===== src/SupervisorLease/Timer.antt =====
-- src/admission-supervisor-lease.ts: the timer, under any interleaving of the operations. A wait
-- gives way at its sleeps, so that other calls come between its rounds.
use codex_job_orchestrator.Common.{
  ℕ, ◌≡◌, refl, subst, Bool, true, not, ◌||◌, some, arith, leb, if_cases,
}
use codex_job_orchestrator.Admission.Types.{Host}
use codex_job_orchestrator.Admission.Files.{Area}
use codex_job_orchestrator.Admission.Manager.{Outcome, returned, thrown}
use codex_job_orchestrator.Admission.Owner.{
  LeaseOwnerRef, OwnerResult, release_lease, ok, refused, failed,
}
use codex_job_orchestrator.SupervisorLease.{
  LifecycleState, LifecycleResult, Lifecycle, new_lifecycle, Meets, heartbeat, is_fixed, Poll,
  Waited, sleep_until, after_heartbeat, poll_once, is_owned, start_heartbeat, noted, tick,
  release_in, stop_and_release, uninitialized, acquiring, owned, stopped, failed, op,
  heartbeat_error, sleeps, returns,
}

pub data LifeStep (h : Host) (o : LeaseOwnerRef) : Lifecycle → Lifecycle → Type 0 where
  enters :
      (s : Lifecycle) → s.state ≡ uninitialized → LifeStep h o s (record s { state = acquiring })
  enters_again : (s : Lifecycle) → s.state ≡ acquiring → LifeStep h o s s
  sleeps_on :
      (s t : Lifecycle) (deadline : ℕ) (p : Poll)
      → (poll_once o deadline p s).0 ≡ sleeps t
      → LifeStep h o s t
  comes_back :
      (s t : Lifecycle) (r : LifecycleResult) (deadline : ℕ) (p : Poll)
      → (poll_once o deadline p s).0 ≡ returns t r
      → LifeStep h o s t
  starts : (s : Lifecycle) → LifeStep h o s (start_heartbeat s).0
  ticks : (s : Lifecycle) (m : Meets) → LifeStep h o s (tick o m s).0
  stops : (s : Lifecycle) (m : Meets) → LifeStep h o s (stop_and_release h o m s).0

pub data LifeRun (h : Host) (o : LeaseOwnerRef) : Lifecycle → Type 0 where
  made : LifeRun h o new_lifecycle
  then : (s t : Lifecycle) → LifeRun h o s → LifeStep h o s t → LifeRun h o t

TimerOwned : Lifecycle → Type 0
TimerOwned s = s.timer ≡ true → s.state ≡ owned

KeepsTimer : Waited → Type 0
unfolding TimerOwned
KeepsTimer (sleeps t) = TimerOwned t
KeepsTimer (returns t r) = TimerOwned t

sleep_until-KeepsTimer :
    (deadline : ℕ) (p : Poll) (s : Lifecycle) → TimerOwned s → KeepsTimer (sleep_until deadline p s)
unfolding TimerOwned KeepsTimer
sleep_until-KeepsTimer deadline p s v =
    if_cases KeepsTimer (leb deadline p.tail) (λ t e. cc) (λ f. v)

after_heartbeat-KeepsTimer :
    (deadline : ℕ) (p : Poll) (s : Lifecycle) (out : Outcome OwnerResult)
    → TimerOwned s
    → KeepsTimer (after_heartbeat deadline p s out)
unfolding TimerOwned KeepsTimer
after_heartbeat-KeepsTimer deadline p s thrown v =
    sleep_until-KeepsTimer deadline p (record s { last_heartbeat_error = some heartbeat_error }) v
after_heartbeat-KeepsTimer deadline p s (returned (ok l)) v = λ e. refl
after_heartbeat-KeepsTimer deadline p s (returned (refused why)) v =
    if_cases KeepsTimer (is_fixed why) (λ t e. cc)
      (λ f. sleep_until-KeepsTimer deadline p (record s { last_heartbeat_error = some (op why) }) v)

poll_once-KeepsTimer :
    (o : LeaseOwnerRef) (deadline : ℕ) (p : Poll) (s : Lifecycle)
    → TimerOwned s
    → KeepsTimer (poll_once o deadline p s).0
unfolding poll_once TimerOwned KeepsTimer
poll_once-KeepsTimer o deadline p s v =
    if_cases {A = Waited × Area} (λ w. KeepsTimer w.0) (leb deadline p.head) (λ t e. cc)
      (λ f. after_heartbeat-KeepsTimer deadline p s (heartbeat p.meets o).1 v)

noted-TimerOwned :
    (out : Outcome OwnerResult) (s : Lifecycle) → TimerOwned s → TimerOwned (noted out s)
unfolding TimerOwned
noted-TimerOwned thrown s v = v
noted-TimerOwned (returned (ok l)) s v = v
noted-TimerOwned (returned (refused why)) s v = v

release_in-TimerOwned :
    (st : LifecycleState) (s : Lifecycle) (a : Area) (call : Area × Outcome OwnerResult)
    → TimerOwned s
    → TimerOwned (release_in st s a call).0
unfolding TimerOwned
release_in-TimerOwned stopped s a call v = v
release_in-TimerOwned failed s a call v = λ e. cc
release_in-TimerOwned owned s a call v = λ e. cc
release_in-TimerOwned acquiring s a call v = λ e. cc
release_in-TimerOwned uninitialized s a call v = λ e. cc

LifeStep-TimerOwned :
    (h : Host) (o : LeaseOwnerRef) (s t : Lifecycle)
    → LifeStep h o s t
    → TimerOwned s
    → TimerOwned t
unfolding TimerOwned start_heartbeat tick stop_and_release KeepsTimer
LifeStep-TimerOwned h o _ _ (enters s e) v = λ i. let x = v i in cc
LifeStep-TimerOwned h o _ _ (enters_again s e) v = v
LifeStep-TimerOwned h o _ _ (sleeps_on s t deadline p e) v =
    subst KeepsTimer e (poll_once-KeepsTimer o deadline p s v)
LifeStep-TimerOwned h o _ _ (comes_back s t r deadline p e) v =
    subst KeepsTimer e (poll_once-KeepsTimer o deadline p s v)
LifeStep-TimerOwned h o _ _ (starts s) v =
    if_cases {A = Lifecycle × Bool} (λ z. z.0.timer ≡ true → z.0.state ≡ owned)
      (not (is_owned s.state) || s.timer) (λ e. v) (λ f i. is_owned-eq s.state (ground arith))
  where
    is_owned-eq : (st : LifecycleState) → is_owned st ≡ true → st ≡ owned
    is_owned-eq owned e = refl
    is_owned-eq uninitialized e = cc
    is_owned-eq acquiring e = cc
    is_owned-eq stopped e = cc
    is_owned-eq failed e = cc
LifeStep-TimerOwned h o _ _ (ticks s m) v =
    if_cases {A = Lifecycle × Area} (λ z. z.0.timer ≡ true → z.0.state ≡ owned)
      (not (is_owned s.state)) (λ e. v) (λ f. noted-TimerOwned (heartbeat m o).1 s v)
LifeStep-TimerOwned h o _ _ (stops s m) v =
    release_in-TimerOwned s.state s m.area (release_lease h m.disk m.locked m.now o m.area) v

-- Whatever calls come between the rounds of a wait, a heartbeat timer is set only while the state is
-- owned.
pub LifeRun-timer :
    (h : Host) (o : LeaseOwnerRef) (s : Lifecycle)
    → LifeRun h o s
    → s.timer ≡ true
    → s.state ≡ owned
unfolding TimerOwned new_lifecycle
LifeRun-timer h o _ made = λ e. cc
LifeRun-timer h o _ (then s t r step) = LifeStep-TimerOwned h o s t step (LifeRun-timer h o s r)

-- ===== src/SupervisorLease/Release.antt =====
-- src/admission-supervisor-lease.ts: what the lifecycle's calls leave alone, and what its results
-- say.
use codex_job_orchestrator.Common.{
  ℕ, zero, suc, ◌+◌, String, ◌≡◌, refl, sym, subst, inl, inr, Bool, false, not, Option, none, some,
  [], ◌∷◌, str_eq, eq_iff, leb, Bool-cases, is_some, if_cases, Json,
}
use codex_job_orchestrator.Admission.Types.{AdmissionLease, Host}
use codex_job_orchestrator.Admission.Validate.{is_job_id}
use codex_job_orchestrator.Admission.Files.{
  Dir, Area, Disk, find_file, put_file, remove_file, archive_file,
}
use codex_job_orchestrator.Admission.Manager.{Outcome, returned, thrown}
use codex_job_orchestrator.Admission.Owner.{
  LeaseOwnerRef, OwnerResult, FileRead, read_lease, owns, Step, after_read, with_own_lease,
  replace_lease, extend, heartbeat_lease, move_released, release_lease, ok, refused, missing,
  failed, corrupt, found,
}
use codex_job_orchestrator.SupervisorLease.{
  LifecycleState, LifecycleResult, Lifecycle, Meets, heartbeat, is_fixed, Poll, Waited, sleep_until,
  after_heartbeat, poll_once, Done, next_round, wait_loop, wait_in, wait_for_ownership, is_owned,
  tick, release_in, stop_and_release, uninitialized, acquiring, owned, stopped, failed, op,
  heartbeat_error, sleeps, returns,
}

find_file-put_file :
    (j id : String) (f : Option Json) (d : Dir)
    → str_eq id j ≡ false
    → find_file j (put_file id f d) ≡ find_file j d
unfolding find_file put_file
find_file-put_file j id f [] e = rw e refl
find_file-put_file j id f ((k, g) ∷ d) e = elim (Bool-cases (str_eq k id)) [
  | inl h ↦ rw (h, subst (λ z. str_eq z j ≡ false) (sym ((eq_iff k id).0 h)) e) refl
  | inr h ↦ rw (h, find_file-put_file j id f d e) refl
]

find_file-remove_file :
    (j id : String) (d : Dir) → str_eq id j ≡ false → find_file j (remove_file id d) ≡ find_file j d
unfolding find_file remove_file
find_file-remove_file j id [] e = refl
find_file-remove_file j id ((k, g) ∷ d) e = elim (Bool-cases (str_eq k id)) [
  | inl h ↦ rw (h, subst (λ z. str_eq z j ≡ false) (sym ((eq_iff k id).0 h)) e) refl
  | inr h ↦ rw (h, find_file-remove_file j id d e) refl
]

-- The leases of other jobs are as they were.
abbrev pub Spares : LeaseOwnerRef → Area → Area → Type 0
Spares o a b =
    (j : String) → str_eq o.job_id j ≡ false → find_file j b.leases ≡ find_file j a.leases

with_own_lease-Spares :
    (d : Disk) (locked : Bool) (o : LeaseOwnerRef) (a : Area) (use_lease : AdmissionLease → Step)
    → ((l : AdmissionLease) → Spares o a (use_lease l).0)
    → Spares o a (with_own_lease d locked o a use_lease).0
unfolding with_own_lease after_read
with_own_lease-Spares d locked o a use_lease h =
    if_cases {A = Step} (λ s. Spares o a s.0) (not locked) (λ t j e. refl)
      (λ f. by_read (read_lease d o.job_id a.leases))
  where
    by_read : (r : FileRead) → Spares o a (after_read o a use_lease r).0
    by_read missing = λ j e. refl
    by_read failed = λ j e. refl
    by_read corrupt = λ j e. refl
    by_read (found l) =
        if_cases {A = Step} (λ s. Spares o a s.0) (owns o l) (λ t. h l) (λ f j e. refl)

heartbeat-Spares : (m : Meets) (o : LeaseOwnerRef) → Spares o m.area (heartbeat m o).0
unfolding heartbeat heartbeat_lease replace_lease
heartbeat-Spares m o =
    if_cases {A = Step} (λ s. Spares o m.area s.0) (not (is_job_id o.job_id)) (λ t j e. refl)
      (λ f.
        with_own_lease-Spares m.disk m.locked o m.area
          (λ l. replace_lease m.disk o.job_id (extend m.ttl m.now l) m.area)
          (λ l.
            if_cases {A = Step} (λ s. Spares o m.area s.0) m.disk.replace_fails (λ t j e. refl)
              (λ g j e. find_file-put_file j o.job_id _ m.area.leases e)))

move_released-Spares :
    (h : Host) (o : LeaseOwnerRef) (m : Meets) (l : AdmissionLease)
    → Spares o m.area (move_released h m.disk m.now o.job_id l m.area).0
unfolding move_released
move_released-Spares h o m l =
    if_cases {A = Step} (λ s. Spares o m.area s.0) (m.disk.move_fails o.job_id) (λ t j e. refl)
      (λ f. by_file (find_file o.job_id m.area.leases))
  where
    by_file :
        (x : Option (Option Json))
        → Spares o m.area
            (elim x as (λ _. Step) [
              | none ↦ (m.area, thrown)
              | some g ↦ (
                record m.area {
                  leases = remove_file o.job_id m.area.leases;
                  released = archive_file h m.now o.job_id g m.area.released;
                },
                returned (ok l),
              )
            ]).0
    by_file none = λ j e. refl
    by_file (some g) = λ j e. find_file-remove_file j o.job_id m.area.leases e

release-Spares :
    (h : Host) (o : LeaseOwnerRef) (m : Meets)
    → Spares o m.area (release_lease h m.disk m.locked m.now o m.area).0
unfolding release_lease
release-Spares h o m =
    if_cases {A = Step} (λ s. Spares o m.area s.0) (not (is_job_id o.job_id)) (λ t j e. refl)
      (λ f.
        with_own_lease-Spares m.disk m.locked o m.area
          (λ l. move_released h m.disk m.now o.job_id l m.area) (λ l. move_released-Spares h o m l))

-- A result says ok just when its state is owned, and else it has a reason.
abbrev pub IsHonest : LifecycleResult → Type 0
IsHonest r = (r.is_ok ≡ is_owned r.state) × (is_some r.reason ≡ not (is_owned r.state))

abbrev pub HonestDone : Option Done → Type 0
HonestDone none = Unit
HonestDone (some (s, r, a)) = IsHonest r × (r.state ≡ s.state)

abbrev HonestWaited : Waited → Type 0
HonestWaited (sleeps s) = Unit
HonestWaited (returns s r) = IsHonest r × (r.state ≡ s.state)

sleep_until-HonestWaited :
    (deadline : ℕ) (p : Poll) (s : Lifecycle) → HonestWaited (sleep_until deadline p s)
sleep_until-HonestWaited deadline p s =
    if_cases HonestWaited (leb deadline p.tail) (λ t. ((refl, refl), refl)) (λ f. tt)

after_heartbeat-HonestWaited :
    (deadline : ℕ) (p : Poll) (s : Lifecycle) (out : Outcome OwnerResult)
    → HonestWaited (after_heartbeat deadline p s out)
after_heartbeat-HonestWaited deadline p s thrown =
    sleep_until-HonestWaited deadline p (record s { last_heartbeat_error = some heartbeat_error })
after_heartbeat-HonestWaited deadline p s (returned (ok l)) = ((refl, refl), refl)
after_heartbeat-HonestWaited deadline p s (returned (refused why)) =
    if_cases HonestWaited (is_fixed why) (λ t. ((refl, refl), refl))
      (λ f. sleep_until-HonestWaited deadline p (record s { last_heartbeat_error = some (op why) }))

next_round-HonestDone :
    (w : Waited × Area) (further : Lifecycle → Option Done)
    → HonestWaited w.0
    → ((t : Lifecycle) → HonestDone (further t))
    → HonestDone (next_round w further)
next_round-HonestDone (sleeps s, a) further h i = i s
next_round-HonestDone (returns s r, a) further h i = h

wait_loop-HonestDone :
    (o : LeaseOwnerRef) (polls : ℕ → Poll) (deadline fuel n : ℕ) (s : Lifecycle)
    → HonestDone (wait_loop o polls deadline fuel n s)
unfolding wait_loop poll_once
wait_loop-HonestDone o polls deadline zero n s = tt
wait_loop-HonestDone o polls deadline (suc fuel) n s =
    next_round-HonestDone (poll_once o deadline (polls n) s)
      (λ t. wait_loop o polls deadline fuel (suc n) t)
      (if_cases {A = Waited × Area} (λ w. HonestWaited w.0) (leb deadline (polls n).head)
        (λ t. ((refl, refl), refl))
        (λ f. after_heartbeat-HonestWaited deadline (polls n) s (heartbeat (polls n).meets o).1))
      (λ t. wait_loop-HonestDone o polls deadline fuel (suc n) t)

wait_in-HonestDone :
    (s : Lifecycle) (a : Area) (loop : Option Done) (st : LifecycleState)
    → s.state ≡ st
    → HonestDone loop
    → HonestDone (wait_in st s a loop)
wait_in-HonestDone s a loop owned e h = ((refl, refl), sym e)
wait_in-HonestDone s a loop stopped e h = ((refl, refl), sym e)
wait_in-HonestDone s a loop failed e h = ((refl, refl), sym e)
wait_in-HonestDone s a loop uninitialized e h = h
wait_in-HonestDone s a loop acquiring e h = h

release_in-HonestDone :
    (s : Lifecycle) (a : Area) (call : Area × Outcome OwnerResult) (st : LifecycleState)
    → s.state ≡ st
    → HonestDone (some (release_in st s a call))
release_in-HonestDone s a call owned e = ((refl, refl), refl)
release_in-HonestDone s a call stopped e = ((refl, refl), sym e)
release_in-HonestDone s a call failed e = ((refl, refl), refl)
release_in-HonestDone s a call uninitialized e = ((refl, refl), refl)
release_in-HonestDone s a call acquiring e = ((refl, refl), refl)

-- Every result of a wait or a stop names the state that the object is left in, says ok just when
-- that state is owned, and else has a reason. A stop, a heartbeat and each round of a wait leave
-- every lease of another job as they found it.
pub results_are_honest :
    (h : Host) (o : LeaseOwnerRef) (s : Lifecycle) (m : Meets)
    → ((polls : ℕ → Poll) (fuel now timeout : ℕ) (a : Area)
        → HonestDone (wait_for_ownership o polls fuel now timeout a s))
      × HonestDone (some (stop_and_release h o m s))
      × Spares o m.area (stop_and_release h o m s).2
      × Spares o m.area (tick o m s).1
      × ((deadline : ℕ) (p : Poll) (t : Lifecycle)
          → Spares o p.meets.area (poll_once o deadline p t).1)
unfolding poll_once wait_for_ownership stop_and_release tick
results_are_honest h o s m = (
  (λ polls fuel now timeout a.
      wait_in-HonestDone s a
        (wait_loop o polls (now + timeout) fuel 0 (record s { state = acquiring })) s.state refl
        (wait_loop-HonestDone o polls (now + timeout) fuel 0 (record s { state = acquiring }))),
  release_in-HonestDone s m.area (release_lease h m.disk m.locked m.now o m.area) s.state refl,
  stopped_area s.state,
  if_cases {A = Lifecycle × Area} (λ z. Spares o m.area z.1) (not (is_owned s.state))
      (λ t j e. refl) (λ f. heartbeat-Spares m o),
  λ deadline p t.
      if_cases {A = Waited × Area} (λ w. Spares o p.meets.area w.1) (leb deadline p.head)
        (λ e j n. refl) (λ f. heartbeat-Spares p.meets o),
)
  where
    call : Step
    call = release_lease h m.disk m.locked m.now o m.area

    stopped_area : (st : LifecycleState) → Spares o m.area (release_in st s m.area call).2
    stopped_area owned = release-Spares h o m
    stopped_area stopped = λ j e. refl
    stopped_area failed = λ j e. refl
    stopped_area uninitialized = release-Spares h o m
    stopped_area acquiring = release-Spares h o m

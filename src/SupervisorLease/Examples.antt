-- ===== src/SupervisorLease/Examples.antt =====
-- src/admission-supervisor-lease.ts: a supervisor that waits for its lease, and runs of its object.
use codex_job_orchestrator.Common.{
  non_empty_field, pos_int_field, ℕ, zero, suc, ◌<◌, ◌≡◌, refl, true, false, none, some, [], ◌∷◌,
  arith, is_some, int,
}
use codex_job_orchestrator.Admission.Types.{AdmissionLease, Host, light}
use codex_job_orchestrator.Admission.Validate.{is_job_id}
use codex_job_orchestrator.Admission.Lease.{
  class_of_name, job_id_field, schema_field, parse_fields, parse_lease, encode_lease,
}
use codex_job_orchestrator.Admission.Files.{Area, Disk, find_file}
use codex_job_orchestrator.Admission.Owner.{
  LeaseOwnerRef, read_lease, after_read, with_own_lease, replace_lease, heartbeat_lease,
}
use codex_job_orchestrator.SupervisorLease.{
  LifecycleResult, Lifecycle, new_lifecycle, Meets, heartbeat, Poll, poll_once, wait_for_ownership,
  start_heartbeat, tick, stop_and_release, owned, returns,
}
use codex_job_orchestrator.SupervisorLease.Wait.{
  wait_for_ownership-returns, CanOwn, IsTransient, Wins, wait_for_ownership-Wins,
}
use codex_job_orchestrator.SupervisorLease.Timer.{
  LifeRun, LifeRun-timer, comes_back, starts, made, then,
}
use codex_job_orchestrator.SupervisorLease.Release.{Spares, HonestDone, results_are_honest}

abbrev posix : Host
posix = record { resolve = λ p. p; lower = λ p. p; win32 = false; show = λ n. "0" }

abbrev working : Disk
working = record {
  listing_fails = false;
  read_fails = λ _. false;
  move_fails = λ _. false;
  create_error = none;
  replace_fails = false;
}

abbrev us : LeaseOwnerRef
us = record { job_id = "j1"; pid = int 7; pid_started_at = int 5 }

abbrev lease : ℕ → AdmissionLease
lease owner = record {
  job_id = "j1";
  resource_class = light;
  backend = "b";
  profile = "p";
  work_folder = "/w";
  pid = owner;
  pid_started_at = 5;
  acquired_at = 1;
  heartbeat_at = 2;
  expires_at = 3;
}

abbrev area_of : ℕ → Area
area_of owner = record {
  leases = ("j1", some (encode_lease (lease owner))) ∷ [];
  stale = [];
  released = [];
}

abbrev meets_owner : ℕ → Meets
meets_owner owner = record {
  area = area_of owner;
  disk = working;
  locked = true;
  ttl = 10;
  now = 20;
}

-- The lease is the leader's at the first round and ours from the second on.
abbrev owner_at : ℕ → ℕ
owner_at zero = 3
owner_at (suc n) = 7

abbrev polls : ℕ → Poll
polls n = record { head = n; meets = meets_owner (owner_at n); tail = n }

late_lease : CanOwn us (polls 1).meets (lease 7)
unfolding encode_lease find_file parse_lease parse_fields is_job_id schema_field job_id_field
    class_of_name non_empty_field pos_int_field
late_lease = record {
  named = refl;
  gets_lock = refl;
  reads = refl;
  replaces = refl;
  there = refl;
  parses = refl;
  its_own = refl;
}

first_round : (k : ℕ) → k < 1 → IsTransient (heartbeat (polls k).meets us).1
unfolding heartbeat heartbeat_lease with_own_lease after_read read_lease encode_lease find_file
    parse_lease parse_fields is_job_id schema_field job_id_field class_of_name non_empty_field
    pos_int_field
first_round zero h = refl
first_round (suc k) h = ground arith

wait_for_ownership-Wins_example : Wins (wait_for_ownership us polls 9 0 5 (area_of 3) new_lifecycle)
wait_for_ownership-Wins_example =
    wait_for_ownership-Wins us polls 0 5 1 9 (lease 7) (area_of 3) (λ k h. omega arith)
      (λ k h. omega arith) first_round late_lease (omega arith)

wait_for_ownership-returns_example :
    is_some (wait_for_ownership us polls 6 0 5 (area_of 3) new_lifecycle) ≡ true
wait_for_ownership-returns_example =
    wait_for_ownership-returns us polls 0 5 (area_of 3) new_lifecycle (λ k. omega arith)
      (omega arith)

abbrev won : Lifecycle
unfolding new_lifecycle
won = record new_lifecycle { state = owned }

abbrev timed : Lifecycle
unfolding new_lifecycle
timed = record new_lifecycle { state = owned; timer = true }

abbrev win : LifecycleResult
win = record {
  is_ok = true;
  state = owned;
  reason = none;
  heartbeat_at = some 20;
  expires_at = some 30;
}

wins_at_once : (poll_once us 5 (polls 1) new_lifecycle).0 ≡ returns won win
unfolding won poll_once heartbeat heartbeat_lease with_own_lease after_read read_lease replace_lease
    encode_lease find_file parse_lease parse_fields is_job_id schema_field job_id_field
    class_of_name non_empty_field pos_int_field
wins_at_once = refl

timed_run : LifeRun posix us timed
unfolding won timed start_heartbeat
timed_run =
    then won timed
      (then new_lifecycle won made (comes_back new_lifecycle won win 5 (polls 1) wins_at_once))
      (starts won)

LifeRun-timer_example : timed.state ≡ owned
unfolding timed
LifeRun-timer_example = LifeRun-timer posix us timed timed_run refl

results_are_honest_example :
    ((polls : ℕ → Poll) (fuel now timeout : ℕ) (a : Area)
      → HonestDone (wait_for_ownership us polls fuel now timeout a new_lifecycle))
    × HonestDone (some (stop_and_release posix us (meets_owner 7) new_lifecycle))
    × Spares us (area_of 7) (stop_and_release posix us (meets_owner 7) new_lifecycle).2
    × Spares us (area_of 7) (tick us (meets_owner 7) new_lifecycle).1
    × ((deadline : ℕ) (p : Poll) (t : Lifecycle)
        → Spares us p.meets.area (poll_once us deadline p t).1)
results_are_honest_example = results_are_honest posix us new_lifecycle (meets_owner 7)

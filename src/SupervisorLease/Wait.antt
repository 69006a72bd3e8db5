-- ===== src/SupervisorLease/Wait.antt =====
-- src/admission-supervisor-lease.ts: the loop of `waitForOwnership` ends, and wins once the lease is
-- the supervisor's.
use codex_job_orchestrator.Common.{
  ℕ, zero, suc, ◌+◌, ◌≤◌, ◌<◌, ◌≡◌, refl, subst, inl, inr, true, false, Option, none, some, arith,
  leb, Bool-cases, is_some,
}
use codex_job_orchestrator.Admission.Types.{AdmissionLease}
use codex_job_orchestrator.Admission.Validate.{is_job_id}
use codex_job_orchestrator.Admission.Lease.{parse_lease, encode_lease}
use codex_job_orchestrator.Admission.Files.{Area, find_file}
use codex_job_orchestrator.Admission.Manager.{Outcome, returned, thrown}
use codex_job_orchestrator.Admission.Owner.{
  LeaseOwnerRef, OwnerResult, read_lease, owns, after_read, with_own_lease, replace_lease, extend,
  heartbeat_lease, ok, refused, failed,
}
use codex_job_orchestrator.SupervisorLease.{
  LifecycleState, Lifecycle, new_lifecycle, Meets, heartbeat, is_fixed, Poll, Waited,
  after_heartbeat, poll_once, Done, next_round, wait_loop, wait_in, wait_for_ownership,
  uninitialized, acquiring, owned, stopped, failed, op, heartbeat_error, sleeps, returns,
}

after_round :
    (w : Waited × Area) (further : Lifecycle → Option Done)
    → ((t : Lifecycle) → is_some (further t) ≡ true)
    → is_some (next_round w further) ≡ true
after_round (sleeps t, a) further h = h t
after_round (returns t r, a) further h = refl

wait_loop-returns :
    (o : LeaseOwnerRef) (polls : ℕ → Poll) (deadline fuel n : ℕ) (s : Lifecycle)
    → ((k : ℕ) → (polls k).head < (polls (suc k)).head)
    → 1 ≤ fuel
    → deadline < fuel + (polls n).head
    → is_some (wait_loop o polls deadline fuel n s) ≡ true
unfolding wait_loop poll_once
wait_loop-returns o polls deadline zero n s ticks one h = ground arith
wait_loop-returns o polls deadline (suc fuel) n s ticks one h =
    elim (Bool-cases (leb deadline (polls n).head)) [
      | inl late ↦ rw late refl
      | inr early ↦
          after_round (poll_once o deadline (polls n) s)
            (λ t. wait_loop o polls deadline fuel (suc n) t)
            (λ t.
              wait_loop-returns o polls deadline fuel (suc n) t ticks (ground arith)
                (omega (arith, ticks n)))
    ]

-- A wait returns within one round for each millisecond of its timeout and one more, when each sleep
-- takes a millisecond at least.
pub wait_for_ownership-returns :
    (o : LeaseOwnerRef) (polls : ℕ → Poll) (now timeout : ℕ) (a : Area) (s : Lifecycle)
    → ((k : ℕ) → (polls k).head < (polls (suc k)).head)
    → now ≤ (polls 0).head
    → is_some (wait_for_ownership o polls (suc timeout) now timeout a s) ≡ true
unfolding wait_for_ownership
wait_for_ownership-returns o polls now timeout a s ticks h = by_state s.state
  where
    by_state :
        (st : LifecycleState)
        → is_some (
            wait_in st s a
              (wait_loop o polls (now + timeout) (suc timeout) 0 (record s { state = acquiring })))
          ≡ true
    by_state owned = refl
    by_state stopped = refl
    by_state failed = refl
    by_state uninitialized =
        wait_loop-returns o polls (now + timeout) (suc timeout) 0 (record s { state = acquiring })
          ticks (omega arith) (omega arith)
    by_state acquiring =
        wait_loop-returns o polls (now + timeout) (suc timeout) 0 (record s { state = acquiring })
          ticks (omega arith) (omega arith)

-- The lease of the job is there, it is the supervisor's, and the call can use it.
pub record CanOwn (o : LeaseOwnerRef) (m : Meets) (l : AdmissionLease) : Type 0 where
  pub named : is_job_id o.job_id ≡ true
  pub gets_lock : m.locked ≡ true
  pub reads : m.disk.read_fails o.job_id ≡ false
  pub replaces : m.disk.replace_fails ≡ false
  pub there : find_file o.job_id m.area.leases ≡ some (some (encode_lease l))
  pub parses : parse_lease (some (encode_lease l)) ≡ some l
  pub its_own : owns o l ≡ true

heartbeat-CanOwn :
    (o : LeaseOwnerRef) (m : Meets) (l : AdmissionLease)
    → CanOwn o m l
    → (heartbeat m o).1 ≡ returned (ok (extend m.ttl m.now l))
unfolding heartbeat heartbeat_lease with_own_lease after_read read_lease replace_lease
heartbeat-CanOwn o m l c =
    rw (c.named, c.gets_lock, c.reads, c.there, c.parses, c.its_own, c.replaces) refl

-- No answer that ends the wait without success.
abbrev pub IsTransient : Outcome OwnerResult → Type 0
IsTransient thrown = Unit
IsTransient (returned (ok l)) = Unit
IsTransient (returned (refused why)) = is_fixed why ≡ false

-- What the wait promises once it has won.
abbrev pub Wins : Option Done → Type 0
Wins none = ⊥
Wins (some (s, r, a)) = (s.state ≡ owned) × (r.is_ok ≡ true) × (r.state ≡ owned)

in_time : (deadline tail : ℕ) → tail < deadline → leb deadline tail ≡ false
in_time deadline tail h = ground arith

next_round-Wins :
    (deadline : ℕ) (p : Poll) (s : Lifecycle) (out : Outcome OwnerResult) (a : Area)
    (further : Lifecycle → Option Done)
    → p.tail < deadline
    → IsTransient out
    → ((t : Lifecycle) → Wins (further t))
    → Wins (next_round (after_heartbeat deadline p s out, a) further)
next_round-Wins deadline p s thrown a further h i w =
    rw (in_time deadline p.tail h) (w (record s { last_heartbeat_error = some heartbeat_error }))
next_round-Wins deadline p s (returned (ok l)) a further h i w = (refl, refl, refl)
next_round-Wins deadline p s (returned (refused why)) a further h i w =
    rw (i, in_time deadline p.tail h) (w (record s { last_heartbeat_error = some (op why) }))

wait_loop-Wins :
    (o : LeaseOwnerRef) (polls : ℕ → Poll) (deadline m fuel n : ℕ) (l : AdmissionLease)
    (s : Lifecycle)
    → ((k : ℕ) → k ≤ m + n → (polls k).head < deadline)
    → ((k : ℕ) → k < m + n → (polls k).tail < deadline)
    → ((k : ℕ) → k < m + n → IsTransient (heartbeat (polls k).meets o).1)
    → CanOwn o (polls (m + n)).meets l
    → m < fuel
    → Wins (wait_loop o polls deadline fuel n s)
unfolding wait_loop poll_once
wait_loop-Wins o polls deadline m zero n l s heads tails mild c h = ground arith
wait_loop-Wins o polls deadline zero (suc fuel) n l s heads tails mild c h =
    rw
      (
        in_time deadline (polls n).head (heads n (omega arith)),
        heartbeat-CanOwn o (polls n).meets l
            (subst (λ k. CanOwn o (polls k).meets l) (omega arith) c),
      )
      (refl, refl, refl)
wait_loop-Wins o polls deadline (suc m) (suc fuel) n l s heads tails mild c h =
    rw (in_time deadline (polls n).head (heads n (omega arith))) (
      next_round-Wins deadline (polls n) s (heartbeat (polls n).meets o).1
        (heartbeat (polls n).meets o).0 (λ t. wait_loop o polls deadline fuel (suc n) t)
        (tails n (omega arith)) (mild n (omega arith))
        (λ t.
          wait_loop-Wins o polls deadline m fuel (suc n) l t (λ k i. heads k (omega arith))
            (λ k i. tails k (omega arith)) (λ k i. mild k (omega arith))
            (subst (λ k. CanOwn o (polls k).meets l) (omega arith) c) (omega arith)))

-- When the transfer has landed by round m, the wait wins: it returns success with the state owned.
-- Round m begins before the deadline and finds the lease with the supervisor as its owner, the lock
-- free and the disk working; no earlier round takes the time past the deadline or finds the lease
-- corrupt, the job's id malformed or the next owner invalid.
pub wait_for_ownership-Wins :
    (o : LeaseOwnerRef) (polls : ℕ → Poll) (now timeout m fuel : ℕ) (l : AdmissionLease) (a : Area)
    → ((k : ℕ) → k ≤ m → (polls k).head < now + timeout)
    → ((k : ℕ) → k < m → (polls k).tail < now + timeout)
    → ((k : ℕ) → k < m → IsTransient (heartbeat (polls k).meets o).1)
    → CanOwn o (polls m).meets l
    → m < fuel
    → Wins (wait_for_ownership o polls fuel now timeout a new_lifecycle)
unfolding wait_for_ownership new_lifecycle
wait_for_ownership-Wins o polls now timeout m fuel l a heads tails mild c h =
    wait_loop-Wins o polls (now + timeout) m fuel 0 l (record new_lifecycle { state = acquiring })
      (λ k i. heads k (omega arith)) (λ k i. tails k (omega arith)) (λ k i. mild k (omega arith))
      (subst (λ k. CanOwn o (polls k).meets l) (omega arith) c) h

-- ===== src/Recovery/Bound.antt =====
-- src/recovery.ts: the loop that acquires a claim ends.
use codex_job_orchestrator.Common.{
  ℕ, zero, suc, ◌+◌, ◌-◌, ◌<◌, ◌≡◌, refl, Bool, true, false, ◌&&◌, Option, none, some, [], arith,
  ltb, leb, if_cases,
}
use codex_job_orchestrator.Recovery.{
  ClaimKind, RecoveryClaim, Inspection, claim_blocks_acquisition, Steal, Pass, AcquireResult,
  Acquisition, claim_max_attempts, retry, after_steal, try_steal, pass, acquire_claim, moved, gone,
  steal_transient, steal_fails, fresh_marker, opened, vanished, open_transient, open_fails, finds,
  finds_corrupt, acquired, held, raised, unfinished,
}

abbrev pub is_ended : AcquireResult → Bool
is_ended unfinished = false
is_ended acquired = true
is_ended (held o) = true
is_ended raised = true

abbrev pub is_vanished : Pass → Bool
is_vanished vanished = true
is_vanished _ = false

abbrev Ended : Acquisition → Type 0
Ended a = is_ended a.0 ≡ true

retry-Ended :
    (n : ℕ) (e : Option RecoveryClaim) (a : Acquisition)
    → (n < claim_max_attempts → Ended a)
    → Ended (retry n e a)
retry-Ended n e a s =
    if_cases {A = Acquisition} Ended (leb claim_max_attempts n) (λ t. refl) (λ f. s (ground arith))

after_steal-Ended :
    (s : Steal) (n : ℕ) (e : Option RecoveryClaim) (a : Acquisition)
    → Ended a
    → Ended (after_steal s n e a)
after_steal-Ended (moved y) n e a x = x
after_steal-Ended gone n e a x = x
after_steal-Ended steal_transient n e a x = retry-Ended n e a (λ l. x)
after_steal-Ended steal_fails n e a x = refl

try_steal-Ended :
    (s : Steal) (n steals : ℕ) (e : Option RecoveryClaim) (a : Acquisition)
    → (steals < 2 → Ended a)
    → Ended (try_steal s n steals e a)
try_steal-Ended s n steals e a x =
    if_cases {A = Acquisition} Ended (leb 2 steals) (λ t. refl)
      (λ f. after_steal-Ended s n e a (x (ground arith)))

pass-Ended :
    (k : ClaimKind) (i : Inspection) (grace : ℕ) (p : Pass) (n steals : ℕ)
    (next after : Acquisition)
    → is_vanished p ≡ false
    → (n < claim_max_attempts → Ended next)
    → (steals < 2 → Ended after)
    → Ended (pass k i grace p n steals next after)
pass-Ended k i grace fresh_marker n steals next after v x y = retry-Ended n none next x
pass-Ended k i grace opened n steals next after v x y = refl
pass-Ended k i grace vanished n steals next after v x y = cc
pass-Ended k i grace (open_transient e) n steals next after v x y =
    if_cases {A = Acquisition} Ended (ltb n claim_max_attempts && ltb e 300) (λ t. x (ground arith))
      (λ f. refl)
pass-Ended k i grace open_fails n steals next after v x y = refl
pass-Ended k i grace (finds now c s) n steals next after v x y =
    if_cases {A = Acquisition} Ended (claim_blocks_acquisition k i now (some c)) (λ t. refl)
      (λ f. try_steal-Ended s n steals (some c) after y)
pass-Ended k i grace (finds_corrupt age s) n steals next after v x y =
    if_cases {A = Acquisition} Ended (ltb age grace) (λ t. retry-Ended n none next x)
      (λ f. try_steal-Ended s n steals none after y)

loop-Ended :
    (k : ClaimKind) (i : Inspection) (grace : ℕ) (meets : ℕ → Pass) (fuel n steals : ℕ)
    → ((m : ℕ) → is_vanished (meets m) ≡ false)
    → (claim_max_attempts - n) + (2 - steals) < fuel
    → Ended (acquire_claim k i grace meets fuel n steals)
unfolding acquire_claim
loop-Ended k i grace meets zero n steals v l = ground arith
loop-Ended k i grace meets (suc fuel) n steals v l =
    pass-Ended k i grace (meets n) n steals (acquire_claim k i grace meets fuel (suc n) steals)
      (acquire_claim k i grace meets fuel (suc n) (suc steals)) (v n)
      (λ h. loop-Ended k i grace meets fuel (suc n) steals v (omega arith))
      (λ h. loop-Ended k i grace meets fuel (suc n) (suc steals) v (omega arith))

-- Eight passes are enough for the loop to end, with the claim, a holder or an error, as long as the
-- claim file never vanishes between the failed open and its inspection.
pub acquire_claim-ends :
    (k : ClaimKind) (i : Inspection) (grace : ℕ) (meets : ℕ → Pass)
    → ((m : ℕ) → is_vanished (meets m) ≡ false)
    → is_ended (acquire_claim k i grace meets 8 1 0).0 ≡ true
acquire_claim-ends k i grace meets v = loop-Ended k i grace meets 8 1 0 v (omega arith)

-- When the file vanishes at every pass, the loop never ends: that pass counts no attempt against
-- the bound and does not look at the time.
pub acquire_claim-unbounded :
    (k : ClaimKind) (i : Inspection) (grace : ℕ) (meets : ℕ → Pass) (fuel n steals : ℕ)
    → ((m : ℕ) → meets m ≡ vanished)
    → acquire_claim k i grace meets fuel n steals ≡ (unfinished, [])
unfolding acquire_claim
acquire_claim-unbounded k i grace meets zero n steals v = refl
acquire_claim-unbounded k i grace meets (suc fuel) n steals v =
    rw (v n) (acquire_claim-unbounded k i grace meets fuel (suc n) steals v)

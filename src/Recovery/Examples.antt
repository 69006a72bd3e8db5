-- ===== src/Recovery/Examples.antt =====
-- src/recovery.ts: the theorems at concrete claims.
use codex_job_orchestrator.Common.{
  ℕ, ◌≡◌, refl, ◌↔◌, ◌⊎◌, true, false, none, some, [], ◌∷◌, str_eq, All, ◌==◌, if◌then◌else◌,
  if_cases,
}
use codex_job_orchestrator.Proc.{
  PidIdentityQuery, pid_identity_status, kill_tree_verified, MayKill, kill_tree_verified-MayKill,
}
use codex_job_orchestrator.Recovery.{
  RecoveryClaim, Inspection, claim_owner_live, claim_owner_verified_dead, claim_blocks_acquisition,
  Pass, acquire_claim, recover, supervisor, moved, opened, finds, acquired,
}
use codex_job_orchestrator.Recovery.Staleness.{HasTime, blocks_iff}
use codex_job_orchestrator.Recovery.Passes.{IsUndisturbed, IsOrphan, acquire_claim-spares}
use codex_job_orchestrator.Recovery.Bound.{is_ended, is_vanished, acquire_claim-ends}

abbrev query : PidIdentityQuery
query = record {
  exists = λ p. some (p == 7);
  start_time = λ p. some (some 1000);
  parse_date = λ s. if str_eq s "then" then some 1000 else none;
}

abbrev inspection : Inspection
inspection = record { query = query; own_pid = 3; tolerance = 50 }

abbrev crashed : RecoveryClaim
crashed = record { owner_id = "a"; owner_pid = 5; owner_started_at = "then"; expires_at = "then" }

abbrev alive : RecoveryClaim
alive = record { owner_id = "b"; owner_pid = 7; owner_started_at = "then"; expires_at = "then" }

-- A crashed owner's claim is renamed away, then the next open works.
abbrev meets : ℕ → Pass
meets n = if n == 1 then finds 2000 crashed (moved (some crashed)) else opened

displaced : acquire_claim recover inspection 5000 meets 8 1 0 ≡ (acquired, some crashed ∷ [])
unfolding acquire_claim claim_blocks_acquisition claim_owner_verified_dead
displaced = refl

abbrev never_vanishes : (m : ℕ) → is_vanished (meets m) ≡ false
never_vanishes m = if_cases {A = Pass} (λ p. is_vanished p ≡ false) (m == 1) (λ t. refl) (λ f. refl)

undisturbed : (m : ℕ) → IsUndisturbed (meets m)
undisturbed m = if_cases {A = Pass} IsUndisturbed (m == 1) (λ t. refl) (λ f. tt)

-- Between the inspection of the crashed owner's claim and the rename, a live process claims the job.
abbrev meets_late : ℕ → Pass
meets_late n = if n == 1 then finds 2000 crashed (moved (some alive)) else opened

live_claim_taken :
    (acquire_claim recover inspection 5000 meets_late 8 1 0 ≡ (acquired, some alive ∷ []))
    × (claim_owner_live inspection alive ≡ true)
unfolding acquire_claim claim_blocks_acquisition claim_owner_verified_dead claim_owner_live
live_claim_taken = (refl, refl)

acquire_claim-spares_example :
    All (IsOrphan inspection) (acquire_claim recover inspection 5000 meets 8 1 0).1
acquire_claim-spares_example = acquire_claim-spares recover inspection 5000 meets 8 1 0 undisturbed

acquire_claim-ends_example : is_ended (acquire_claim recover inspection 5000 meets 8 1 0).0 ≡ true
acquire_claim-ends_example = acquire_claim-ends recover inspection 5000 meets never_vanishes

blocks_iff_example : (claim_blocks_acquisition supervisor inspection 9000 (some alive) ≡ true) ↔ (
    (claim_owner_live inspection alive ≡ true)
    ⊎ ((claim_owner_verified_dead inspection alive ≡ false)
        × HasTime supervisor inspection 9000 alive))
blocks_iff_example = blocks_iff supervisor inspection 9000 alive

kill_tree_verified-MayKill_example : MayKill query 3 (some "then") 50 7
unfolding kill_tree_verified pid_identity_status
kill_tree_verified-MayKill_example = kill_tree_verified-MayKill query 3 7 (some "then") 50 refl

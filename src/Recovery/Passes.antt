-- ===== src/Recovery/Passes.antt =====
-- src/recovery.ts: what the loop that acquires a claim displaces.
use codex_job_orchestrator.Common.{
  ℕ, zero, suc, ◌≡◌, inl, inr, false, ◌&&◌, Option, none, some, All, ltb, leb, Bool-cases, if_cases,
  subst, sym,
}
use codex_job_orchestrator.Recovery.{
  ClaimKind, RecoveryClaim, Inspection, claim_owner_live, claim_blocks_acquisition, Steal, Pass,
  Acquisition, claim_max_attempts, retry, after_steal, try_steal, pass, acquire_claim, moved, gone,
  steal_transient, steal_fails, fresh_marker, opened, vanished, open_transient, open_fails, finds,
  finds_corrupt,
}
use codex_job_orchestrator.Recovery.Staleness.{blocks_iff}

-- Nothing is known of the owner of a corrupt claim; that of a valid one is not live.
abbrev pub IsOrphan : Inspection → Option RecoveryClaim → Type 0
IsOrphan i none = Unit
IsOrphan i (some c) = claim_owner_live i c ≡ false

abbrev Spares : Inspection → Acquisition → Type 0
Spares i a = All (IsOrphan i) a.1

-- A steal that moves a file moves the one that the pass inspected.
abbrev pub IsStill : Option RecoveryClaim → Steal → Type 0
IsStill e (moved y) = y ≡ e
IsStill e gone = Unit
IsStill e steal_transient = Unit
IsStill e steal_fails = Unit

abbrev pub IsUndisturbed : Pass → Type 0
IsUndisturbed (finds now c s) = IsStill (some c) s
IsUndisturbed (finds_corrupt age s) = IsStill none s
IsUndisturbed fresh_marker = Unit
IsUndisturbed opened = Unit
IsUndisturbed vanished = Unit
IsUndisturbed (open_transient e) = Unit
IsUndisturbed open_fails = Unit

retry-Spares :
    (i : Inspection) (n : ℕ) (e : Option RecoveryClaim) (a : Acquisition)
    → Spares i a
    → Spares i (retry n e a)
retry-Spares i n e a s =
    if_cases {A = Acquisition} (Spares i) (leb claim_max_attempts n) (λ t. tt) (λ f. s)

after_steal-Spares :
    (i : Inspection) (s : Steal) (n : ℕ) (e : Option RecoveryClaim) (a : Acquisition)
    → IsOrphan i e
    → IsStill e s
    → Spares i a
    → Spares i (after_steal s n e a)
after_steal-Spares i (moved y) n e a o same x = (subst (IsOrphan i) (sym same) o, x)
after_steal-Spares i gone n e a o same x = x
after_steal-Spares i steal_transient n e a o same x = retry-Spares i n e a x
after_steal-Spares i steal_fails n e a o same x = tt

try_steal-Spares :
    (i : Inspection) (s : Steal) (n steals : ℕ) (e : Option RecoveryClaim) (a : Acquisition)
    → IsOrphan i e
    → IsStill e s
    → Spares i a
    → Spares i (try_steal s n steals e a)
try_steal-Spares i s n steals e a o same x =
    if_cases {A = Acquisition} (Spares i) (leb 2 steals) (λ t. tt)
      (λ f. after_steal-Spares i s n e a o same x)

unblocked-orphan :
    (k : ClaimKind) (i : Inspection) (now : ℕ) (c : RecoveryClaim)
    → claim_blocks_acquisition k i now (some c) ≡ false
    → claim_owner_live i c ≡ false
unblocked-orphan k i now c h = elim (Bool-cases (claim_owner_live i c)) [
  | inl l ↦ let b = (blocks_iff k i now c).1 (inl l) in cc
  | inr f ↦ f
]

pass-Spares :
    (k : ClaimKind) (i : Inspection) (grace : ℕ) (p : Pass) (n steals : ℕ)
    (next after : Acquisition)
    → IsUndisturbed p
    → Spares i next
    → Spares i after
    → Spares i (pass k i grace p n steals next after)
pass-Spares k i grace fresh_marker n steals next after u x y = retry-Spares i n none next x
pass-Spares k i grace opened n steals next after u x y = tt
pass-Spares k i grace vanished n steals next after u x y = x
pass-Spares k i grace (open_transient e) n steals next after u x y =
    if_cases {A = Acquisition} (Spares i) (ltb n claim_max_attempts && ltb e 300) (λ t. x) (λ f. tt)
pass-Spares k i grace open_fails n steals next after u x y = tt
pass-Spares k i grace (finds now c s) n steals next after u x y =
    if_cases {A = Acquisition} (Spares i) (claim_blocks_acquisition k i now (some c)) (λ t. tt)
      (λ f. try_steal-Spares i s n steals (some c) after (unblocked-orphan k i now c f) u y)
pass-Spares k i grace (finds_corrupt age s) n steals next after u x y =
    if_cases {A = Acquisition} (Spares i) (ltb age grace) (λ t. retry-Spares i n none next x)
      (λ f. try_steal-Spares i s n steals none after tt u y)

-- As long as no other process replaces a claim file between its inspection and its rename, which
-- the code does not check: whatever else the passes of the loop meet, and however often it steals,
-- a valid claim that it renames away has an owner that is not live.
pub acquire_claim-spares :
    (k : ClaimKind) (i : Inspection) (grace : ℕ) (meets : ℕ → Pass) (fuel n steals : ℕ)
    → ((m : ℕ) → IsUndisturbed (meets m))
    → All (IsOrphan i) (acquire_claim k i grace meets fuel n steals).1
unfolding acquire_claim
acquire_claim-spares k i grace meets zero n steals u = tt
acquire_claim-spares k i grace meets (suc fuel) n steals u =
    pass-Spares k i grace (meets n) n steals (acquire_claim k i grace meets fuel (suc n) steals)
      (acquire_claim k i grace meets fuel (suc n) (suc steals)) (u n)
      (acquire_claim-spares k i grace meets fuel (suc n) steals u)
      (acquire_claim-spares k i grace meets fuel (suc n) (suc steals) u)

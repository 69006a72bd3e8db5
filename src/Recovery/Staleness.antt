-- ===== src/Recovery/Staleness.antt =====
-- src/recovery.ts: which claims block an acquisition.
use codex_job_orchestrator.Common.{
  ℕ, ◌≤◌, ◌≡◌, refl, ap, ◌↔◌, ◌⊎◌, inl, inr, true, false, not, Option, none, some, arith, ◌==◌,
  Bool-cases, or_default,
}
use codex_job_orchestrator.Recovery.{
  ClaimKind, RecoveryClaim, Inspection, runs, os_start_of, starts_match, claim_owner_live,
  starts_differ, claim_owner_verified_dead, is_past, claim_is_stale, claim_blocks_acquisition,
  recover, supervisor,
}

matching-not_different :
    (a b : Option ℕ) (t : ℕ) → starts_match a b t ≡ true → starts_differ a b t ≡ false
matching-not_different none b t h = cc
matching-not_different (some r) none t h = cc
matching-not_different (some r) (some o) t h = ground arith

-- An owner that is live is not verified dead.
pub live-not_dead :
    (i : Inspection) (c : RecoveryClaim)
    → claim_owner_live i c ≡ true
    → claim_owner_verified_dead i c ≡ false
unfolding claim_owner_live claim_owner_verified_dead
live-not_dead i c h =
    let m =
      matching-not_different (i.query.parse_date c.owner_started_at) (os_start_of i c)
        i.tolerance in
    elim (Bool-cases (c.owner_pid == i.own_pid)) [
      | inl e ↦ rw e refl
      | inr e ↦ elim (Bool-cases (runs i c)) [
        | inl r ↦ simp (e, r) (m (simp (e, r) at h))
        | inr r ↦ let x = simp (e, r) at h in cc
      ]
    ]

-- The lease of a recover claim still runs; a supervisor claim has no end.
abbrev pub HasTime : ClaimKind → Inspection → ℕ → RecoveryClaim → Type 0
HasTime supervisor i now c = Unit
HasTime recover i now c = (e : ℕ) × (i.query.parse_date c.expires_at ≡ some e) × (now ≤ e)

not_past :
    (o : Option ℕ) (now : ℕ) → not (is_past o now) ≡ true → (e : ℕ) × (o ≡ some e) × (now ≤ e)
not_past none now h = cc
not_past (some e) now h = (e, refl, ground arith)

past_not : (o : Option ℕ) (now e : ℕ) → o ≡ some e → now ≤ e → not (is_past o now) ≡ true
past_not none now e h l = cc
past_not (some d) now e h l = let q = ap (λ x. or_default x 0) h in ground arith

-- A valid claim blocks an acquisition exactly when its owner is live, or not proven dead and the
-- claim has time: a supervisor claim always, a recover claim until it expires.
pub blocks_iff :
    (k : ClaimKind) (i : Inspection) (now : ℕ) (c : RecoveryClaim)
    → (claim_blocks_acquisition k i now (some c) ≡ true) ↔ (
        (claim_owner_live i c ≡ true)
        ⊎ ((claim_owner_verified_dead i c ≡ false) × HasTime k i now c))
unfolding claim_blocks_acquisition claim_is_stale
blocks_iff supervisor i now c = (
  λ h. inr (ground arith, tt),
  λ x. elim x [ inl l ↦ let d = live-not_dead i c l in ground arith | inr (d, u) ↦ ground arith ],
)
blocks_iff recover i now c = (
  λ h. elim (Bool-cases (claim_owner_live i c)) [
    | inl l ↦ inl l
    | inr l ↦ inr (ground arith, not_past (i.query.parse_date c.expires_at) now (ground arith))
  ],
  λ x. elim x [
    | inl l ↦ let d = live-not_dead i c l in ground arith
    | inr (d, (e, p, q)) ↦
        let y = past_not (i.query.parse_date c.expires_at) now e p q in ground arith
  ],
)

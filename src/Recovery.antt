-- ===== src/Recovery.antt =====
-- src/recovery.ts: the claims on a job, which of them may be displaced, and the loop that acquires
-- one. A claim is the fields that the code reads of a valid claim file, `none` a corrupt or missing
-- one; the world is given by what each pass of the loop meets.
pub mod Staleness
pub mod Passes
pub mod Bound
mod Examples
use codex_job_orchestrator.Common.{
  ℕ, zero, suc, String, Bool, true, false, not, ◌&&◌, Option, none, some, List, [], ◌∷◌, str_eq,
  ltb, leb, ◌==◌, if◌then◌else◌, or_default,
}
use codex_job_orchestrator.Proc.{PidIdentityQuery, distance}

pub data ClaimKind : Type 0 where
  recover supervisor : ClaimKind

pub record RecoveryClaim : Type 0 where
  pub owner_id : String
  pub owner_pid : ℕ
  pub owner_started_at : String
  pub expires_at : String

-- The inspector, `Date.parse`, this process, and the identity tolerance.
pub record Inspection : Type 0 where
  pub query : PidIdentityQuery
  pub own_pid : ℕ
  pub tolerance : ℕ

abbrev pub runs : Inspection → RecoveryClaim → Bool
runs i c = or_default (i.query.exists c.owner_pid) false

abbrev pub os_start_of : Inspection → RecoveryClaim → Option ℕ
os_start_of i c = or_default (i.query.start_time c.owner_pid) none

abbrev pub starts_match : Option ℕ → Option ℕ → ℕ → Bool
starts_match (some recorded) (some os) tolerance = leb (distance os recorded) tolerance
starts_match (some recorded) none tolerance = false
starts_match none os tolerance = false

unfoldable pub claim_owner_live : Inspection → RecoveryClaim → Bool
claim_owner_live i c =
    if c.owner_pid == i.own_pid
    then true
    else if not (runs i c)
    then false
    else starts_match (i.query.parse_date c.owner_started_at) (os_start_of i c) i.tolerance

abbrev pub starts_differ : Option ℕ → Option ℕ → ℕ → Bool
starts_differ recorded none tolerance = false
starts_differ none (some os) tolerance = true
starts_differ (some recorded) (some os) tolerance = ltb tolerance (distance os recorded)

unfoldable pub claim_owner_verified_dead : Inspection → RecoveryClaim → Bool
claim_owner_verified_dead i c =
    if c.owner_pid == i.own_pid
    then false
    else if not (runs i c)
    then true
    else starts_differ (i.query.parse_date c.owner_started_at) (os_start_of i c) i.tolerance

abbrev pub is_past : Option ℕ → ℕ → Bool
is_past none now = true
is_past (some e) now = ltb e now

unfoldable pub claim_is_stale : Inspection → ℕ → Option RecoveryClaim → Bool
unfolding claim_owner_live claim_owner_verified_dead
claim_is_stale i now none = true
claim_is_stale i now (some c) =
    if claim_owner_verified_dead i c
    then true
    else if claim_owner_live i c
    then false
    else is_past (i.query.parse_date c.expires_at) now

abbrev pub blocks_as : ClaimKind → Inspection → ℕ → RecoveryClaim → Bool
blocks_as supervisor i now c = true
blocks_as recover i now c = not (claim_is_stale i now (some c))

unfoldable pub claim_blocks_acquisition : ClaimKind → Inspection → ℕ → Option RecoveryClaim → Bool
unfolding claim_owner_verified_dead claim_is_stale
claim_blocks_acquisition k i now none = false
claim_blocks_acquisition k i now (some c) =
    if claim_owner_verified_dead i c then false else blocks_as k i now c

-- How the rename of a stale claim to its tombstone ends. It goes by name, so it moves what stands
-- there then, whatever was inspected before.
pub data Steal : Type 0 where
  moved : Option RecoveryClaim → Steal
  gone steal_transient steal_fails : Steal

-- What one pass of the loop meets: fresh markers of a writer, or an open that works or fails; after
-- `EEXIST`, the file and the rename.
pub data Pass : Type 0 where
  fresh_marker opened vanished : Pass
  open_transient : ℕ → Pass
  open_fails : Pass
  finds : ℕ → RecoveryClaim → Steal → Pass
  finds_corrupt : ℕ → Steal → Pass

pub data AcquireResult : Type 0 where
  acquired : AcquireResult
  held : Option RecoveryClaim → AcquireResult
  raised unfinished : AcquireResult

-- The result, and the claims that were renamed away; a corrupt one is `none`.
abbrev pub Acquisition : Type 0
Acquisition = AcquireResult × List (Option RecoveryClaim)

abbrev pub claim_max_attempts : ℕ
claim_max_attempts = 6

abbrev pub stop : AcquireResult → Acquisition
stop r = (r, [])

-- `if (attempt >= CLAIM_MAX_ATTEMPTS) return held; sleep; continue`.
abbrev pub retry : ℕ → Option RecoveryClaim → Acquisition → Acquisition
retry attempt existing next = if leb claim_max_attempts attempt then stop (held existing) else next

abbrev pub after_steal : Steal → ℕ → Option RecoveryClaim → Acquisition → Acquisition
after_steal (moved there) attempt existing (r, stolen) = (r, there ∷ stolen)
after_steal gone attempt existing next = next
after_steal steal_transient attempt existing next = retry attempt existing next
after_steal steal_fails attempt existing next = stop (held existing)

abbrev pub try_steal : Steal → ℕ → ℕ → Option RecoveryClaim → Acquisition → Acquisition
try_steal s attempt steals existing next =
    if leb 2 steals then stop (held existing) else after_steal s attempt existing next

-- One pass: `next` is the rest of the loop with the same steals, `after` with one more.
abbrev pub pass :
    ClaimKind → Inspection → ℕ → Pass → ℕ → ℕ → Acquisition → Acquisition → Acquisition
pass k i grace fresh_marker attempt steals next after = retry attempt none next
pass k i grace opened attempt steals next after = stop acquired
pass k i grace vanished attempt steals next after = next
pass k i grace (open_transient elapsed) attempt steals next after =
    if ltb attempt claim_max_attempts && ltb elapsed 300 then next else stop raised
pass k i grace open_fails attempt steals next after = stop raised
pass k i grace (finds now c s) attempt steals next after =
    if claim_blocks_acquisition k i now (some c)
    then stop (held (some c))
    else try_steal s attempt steals (some c) after
pass k i grace (finds_corrupt age s) attempt steals next after =
    if ltb age grace then retry attempt none next else try_steal s attempt steals none after

unfoldable pub acquire_claim : ClaimKind → Inspection → ℕ → (ℕ → Pass) → ℕ → ℕ → ℕ → Acquisition
acquire_claim k i grace meets zero attempt steals = stop unfinished
acquire_claim k i grace meets (suc fuel) attempt steals =
    pass k i grace (meets attempt) attempt steals
      (acquire_claim k i grace meets fuel (suc attempt) steals)
      (acquire_claim k i grace meets fuel (suc attempt) (suc steals))

-- `releaseClaim`: what a read of the file answers, and whether the unlink works; the answer, and
-- whether the file is gone.
unfoldable pub release_claim : Option RecoveryClaim → Bool → String → Bool × Bool
release_claim none unlinks owner = (unlinks, unlinks)
release_claim (some c) unlinks owner =
    if str_eq c.owner_id owner then (unlinks, unlinks) else (false, false)

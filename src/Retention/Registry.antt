-- ===== src/Retention/Registry.antt =====
-- src/retention.ts: `classifyRegistryRecord`, which record of the registry may be archived.
use codex_job_orchestrator.Common.{
  text_field, non_empty_field, pos_int_field, ℕ, ◌+◌, ◌-◌, ◌≤◌, ◌<◌, String, ◌≡◌, refl, sym, subst,
  ◌↔◌, ◌⊎◌, inl, inr, Bool, true, false, not, Option, none, some, arith, str_eq, ltb, if◌then◌else◌,
  or_default, is_some, if_cases, Number, is_int, Json, Fields, get, ◌>>=◌, ◌>>◌, guard, as_number,
  null, bool, number, string, array, object,
}
use codex_job_orchestrator.Retention.Policy.{
  RetentionFixedReason, corrupt, invalid, pid_not_found, identity_unverified, identity_mismatch,
  heartbeat_timeout, live_instance, self_instance, future_heartbeat, not_continuously_stale,
}

pub record Inspector : Type 0 where
  pub exists : ℕ → Option Bool
  pub start_time : ℕ → Option (Option ℕ)

-- The fields that the classification reads of a record that `isValidRegistryRecord` accepts.
pub record RegistryView : Type 0 where
  pub instance_id : String
  pub pid : ℕ
  pub process_started_at : String
  pub last_heartbeat_at : String

unfoldable pub version_one : Number → Option (Unit {0})
version_one n = guard (is_int 1 n)

unfoldable pub valid_registry_record : Fields → Option RegistryView
unfolding version_one
valid_registry_record o = do
  n ← get "schemaVersion" o >>= as_number
  version_one n
  i ← non_empty_field "instanceId" o
  p ← pos_int_field "pid" o
  s ← non_empty_field "processStartedAt" o
  t ← non_empty_field "serverStartedAt" o
  e ← text_field "entry" o
  f ← text_field "buildFingerprint" o
  h ← non_empty_field "lastHeartbeatAt" o
  v ← text_field "version" o
  some (record { instance_id = i; pid = p; process_started_at = s; last_heartbeat_at = h })

pub record RegistryClock : Type 0 where
  pub self_instance_id : Option String
  pub now : ℕ
  pub stale_after_ms : ℕ
  pub stale_registry_ttl_ms : ℕ
  pub identity_tolerance_ms : ℕ

pub record RegistryClassification : Type 0 where
  pub archive : Bool
  pub fixed_reason : RetentionFixedReason
  pub stale_since_ms : Option ℕ

abbrev pub kept : RetentionFixedReason → RegistryClassification
kept r = record { archive = false; fixed_reason = r; stale_since_ms = none }

abbrev pub distance : ℕ → ℕ → ℕ
distance a b = (a - b) + (b - a)

abbrev pub is_self : Option String → String → Bool
is_self none i = false
is_self (some s) i = str_eq i s

-- What the process's start time says against the record's.
unfoldable pub start_reason : Option ℕ → Option ℕ → ℕ → Option RetentionFixedReason
start_reason none os tolerance = some invalid
start_reason (some s) none tolerance = some identity_unverified
start_reason (some s) (some o) tolerance =
    if ltb tolerance (distance o s) then some identity_mismatch else none

unfoldable pub identity_reason :
    Inspector → (String → Option ℕ) → RegistryView → ℕ → Option RetentionFixedReason
unfolding start_reason
identity_reason i parse v tolerance =
    if not (or_default (i.exists v.pid) false)
    then some pid_not_found
    else start_reason (parse v.process_started_at) (or_default (i.start_time v.pid) none) tolerance

unfoldable pub timeout_reason : RegistryClock → ℕ → Option RetentionFixedReason
timeout_reason c hb = if ltb (hb + c.stale_after_ms) c.now then some heartbeat_timeout else none

-- The last reason pushed.
abbrev pub last_reason :
    Option RetentionFixedReason → Option RetentionFixedReason → Option RetentionFixedReason
last_reason a none = a
last_reason a (some r) = some r

abbrev pub by_reason : RegistryClock → ℕ → Option RetentionFixedReason → RegistryClassification
by_reason c hb none = kept live_instance
by_reason c hb (some r) =
    if ltb c.now (hb + c.stale_registry_ttl_ms)
    then kept not_continuously_stale
    else record { archive = true; fixed_reason = r; stale_since_ms = some (c.now - hb) }

abbrev pub by_heartbeat :
    Inspector
    → (String → Option ℕ)
    → RegistryClock
    → RegistryView
    → Option ℕ
    → RegistryClassification
by_heartbeat i parse c v none = kept invalid
by_heartbeat i parse c v (some hb) =
    if ltb (c.now + 60000) hb
    then kept future_heartbeat
    else by_reason c hb
        (last_reason (timeout_reason c hb) (identity_reason i parse v c.identity_tolerance_ms))

abbrev pub by_view :
    Inspector → (String → Option ℕ) → RegistryClock → Option RegistryView → RegistryClassification
by_view i parse c none = kept invalid
by_view i parse c (some v) =
    if is_self c.self_instance_id v.instance_id
    then kept self_instance
    else by_heartbeat i parse c v (parse v.last_heartbeat_at)

-- An array is an object without the fields, so it is invalid as the empty object is.
unfoldable pub classify_registry_record :
    Inspector → (String → Option ℕ) → RegistryClock → Json → RegistryClassification
unfolding valid_registry_record identity_reason timeout_reason
classify_registry_record i parse c (object o) = by_view i parse c (valid_registry_record o)
classify_registry_record i parse c (array o) = by_view i parse c none
classify_registry_record i parse c null = kept corrupt
classify_registry_record i parse c (bool b) = kept corrupt
classify_registry_record i parse c (number n) = kept corrupt
classify_registry_record i parse c (string s) = kept corrupt

by_reason_iff :
    (c : RegistryClock) (hb : ℕ) (r : Option RetentionFixedReason)
    → ((by_reason c hb r).archive ≡ true)
      ↔ ((hb + c.stale_registry_ttl_ms ≤ c.now) × (is_some r ≡ true))
by_reason_iff c hb none = (λ h. cc, λ h. cc)
by_reason_iff c hb (some r) = (λ h. (ground arith, refl), λ h. ground arith)

abbrev LooksDead : Inspector → (String → Option ℕ) → RegistryClock → RegistryView → ℕ → Type 0
LooksDead i parse c v hb =
    (hb + c.stale_after_ms < c.now)
    ⊎ (is_some (identity_reason i parse v c.identity_tolerance_ms) ≡ true)

reasons_iff :
    (c : RegistryClock) (hb : ℕ) (r : Option RetentionFixedReason)
    → (is_some (last_reason (timeout_reason c hb) r) ≡ true)
      ↔ ((hb + c.stale_after_ms < c.now) ⊎ (is_some r ≡ true))
unfolding timeout_reason
reasons_iff c hb none = (λ h. inl (ground arith), λ h. elim h [ inl l ↦ ground arith | inr r ↦ cc ])
reasons_iff c hb (some r) = (λ h. inr refl, λ h. refl)

by_heartbeat_iff :
    (i : Inspector) (parse : String → Option ℕ) (c : RegistryClock) (v : RegistryView) (hb : ℕ)
    → ((by_heartbeat i parse c v (some hb)).archive ≡ true)
      ↔ ((hb + c.stale_registry_ttl_ms ≤ c.now) × LooksDead i parse c v hb)
by_heartbeat_iff i parse c v hb =
    let reason = identity_reason i parse v c.identity_tolerance_ms in
    let (f, g) = by_reason_iff c hb (last_reason (timeout_reason c hb) reason) in
    let (d, e) = reasons_iff c hb reason in
    if_cases {A = RegistryClassification}
      (λ k.
        (k.archive ≡ true) ↔ ((hb + c.stale_registry_ttl_ms ≤ c.now) × LooksDead i parse c v hb))
      (ltb (c.now + 60000) hb) (λ t. (λ h. cc, λ (o, l). ground arith))
      (λ n. (λ h. let (x, y) = f h in (x, d y), λ (o, l). g (o, e l)))

-- A record that may be archived: another instance's, whose heartbeat is at least its time to live
-- old, and which looks dead now: the heartbeat has timed out, or the process is not provably the
-- record's.
abbrev pub IsDead : Inspector → (String → Option ℕ) → RegistryClock → RegistryView → Type 0
IsDead i parse c v =
    (is_self c.self_instance_id v.instance_id ≡ false)
    × ((hb : ℕ) × (parse v.last_heartbeat_at ≡ some hb)
        × (hb + c.stale_registry_ttl_ms ≤ c.now)
        × LooksDead i parse c v hb)

dated_iff :
    (i : Inspector) (parse : String → Option ℕ) (c : RegistryClock) (v : RegistryView)
    (o : Option ℕ)
    → ((by_heartbeat i parse c v o).archive ≡ true) ↔ (
        (hb : ℕ) × (o ≡ some hb)
        × (hb + c.stale_registry_ttl_ms ≤ c.now)
        × LooksDead i parse c v hb)
dated_iff i parse c v none = (λ h. cc, λ (hb, e, o, l). cc)
dated_iff i parse c v (some hb) =
    let (f, g) = by_heartbeat_iff i parse c v hb in
    (
      λ h. let (x, y) = f h in (hb, refl, x, y),
      λ (k, e, o, l).
          subst (λ o. (by_heartbeat i parse c v o).archive ≡ true) (sym e)
            ((by_heartbeat_iff i parse c v k).1 (o, l)),
    )

-- A record that has the form of a registry record may be archived exactly when it is another
-- instance's, its heartbeat is a date at least the registry's time to live ago, and it looks dead:
-- the heartbeat has timed out, or there is a reason to doubt that its process still runs.
pub archive_iff :
    (i : Inspector) (parse : String → Option ℕ) (c : RegistryClock) (o : Fields) (v : RegistryView)
    → valid_registry_record o ≡ some v
    → ((classify_registry_record i parse c (object o)).archive ≡ true) ↔ IsDead i parse c v
unfolding classify_registry_record
archive_iff i parse c o v e =
    let (f, g) = dated_iff i parse c v (parse v.last_heartbeat_at) in
    rw e (
      if_cases {A = RegistryClassification} (λ k. (k.archive ≡ true) ↔ IsDead i parse c v)
        (is_self c.self_instance_id v.instance_id) (λ t. (λ h. cc, λ (a, b). cc))
        (λ n. (λ h. (n, f h), λ (a, b). g b)))

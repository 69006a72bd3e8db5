-- ===== src/Proc.antt =====
-- src/proc.ts: is a recorded process still ours? A throw of a query stands as `none`; `Date.parse`
-- is a parameter, for dates from 1970 on.
pub mod Ancestors
mod Examples
use codex_job_orchestrator.Common.{
  ℕ, ◌+◌, ◌-◌, ◌≤◌, String, ◌≡◌, refl, ap, ◌≢◌, Bool, true, false, not, Option, none, some, arith,
  leb, ◌==◌, if◌then◌else◌, or_default, if_cases, is_empty, Number, is_pos_int, to_nat, int,
  neg_int, non_int,
}

pub data PidIdentityStatus : Type 0 where
  no_identity verified_live verified_dead identity_mismatch unverifiable : PidIdentityStatus

pub record PidIdentityQuery : Type 0 where
  pub exists : ℕ → Option Bool
  pub start_time : ℕ → Option (Option ℕ)
  pub parse_date : String → Option ℕ

abbrev pub distance : ℕ → ℕ → ℕ
distance a b = (a - b) + (b - a)

abbrev pub by_times : Option ℕ → Option ℕ → ℕ → PidIdentityStatus
by_times none os tolerance = unverifiable
by_times (some recorded) none tolerance = unverifiable
by_times (some recorded) (some os) tolerance =
    if leb (distance os recorded) tolerance then verified_live else identity_mismatch

abbrev pub by_probe : PidIdentityQuery → ℕ → String → ℕ → PidIdentityStatus
by_probe q pid started tolerance =
    if not (or_default (q.exists pid) false)
    then verified_dead
    else by_times (q.parse_date started) (or_default (q.start_time pid) none) tolerance

abbrev pub by_started : PidIdentityQuery → ℕ → Option String → ℕ → PidIdentityStatus
by_started q pid none tolerance = no_identity
by_started q pid (some s) tolerance = if is_empty s then no_identity else by_probe q pid s tolerance

-- The pid is `none` when it is null or undefined.
unfoldable pub pid_identity_status :
    PidIdentityQuery → Option Number → Option String → ℕ → PidIdentityStatus
pid_identity_status q none started tolerance = no_identity
pid_identity_status q (some pid) started tolerance =
    if is_pos_int pid then by_started q (to_nat pid) started tolerance else no_identity

abbrev pub is_gone : PidIdentityStatus → Bool
is_gone verified_dead = true
is_gone identity_mismatch = true
is_gone no_identity = false
is_gone verified_live = false
is_gone unverifiable = false

unfoldable pub pid_is_not_our_child : PidIdentityQuery → Option Number → Option String → ℕ → Bool
unfolding pid_identity_status
pid_is_not_our_child q pid started tolerance = is_gone (pid_identity_status q pid started tolerance)

-- What `killTreeVerified` does: whether it kills, and its diagnostic.
pub data KillRefusal : Type 0 where
  own_process : KillRefusal
  not_verified : PidIdentityStatus → KillRefusal

abbrev pub kill_by_status : PidIdentityStatus → Bool × Option KillRefusal
kill_by_status verified_live = (true, none)
kill_by_status verified_dead = (false, none)
kill_by_status no_identity = (false, some (not_verified no_identity))
kill_by_status identity_mismatch = (false, some (not_verified identity_mismatch))
kill_by_status unverifiable = (false, some (not_verified unverifiable))

-- `!pid || pid <= 0` holds for null, NaN, zero and the numbers below: NaN and the negative fractions
-- are `none` here, and `non_int` is a positive fraction or Infinity.
unfoldable pub kill_tree_verified :
    PidIdentityQuery → ℕ → Option Number → Option String → ℕ → Bool × Option KillRefusal
unfolding pid_identity_status
kill_tree_verified q own none started tolerance = (false, none)
kill_tree_verified q own (some (neg_int n)) started tolerance = (false, none)
kill_tree_verified q own (some non_int) started tolerance =
    kill_by_status (pid_identity_status q (some non_int) started tolerance)
kill_tree_verified q own (some (int n)) started tolerance =
    if n == 0
    then (false, none)
    else if n == own
    then (false, some own_process)
    else kill_by_status (pid_identity_status q (some (int n)) started tolerance)

-- The process with this pid exists and started when the record says, within the tolerance.
pub record IsOurs (q : PidIdentityQuery) (pid : ℕ) (started : String) (tolerance : ℕ) : Type 0 where
  pub recorded : ℕ
  pub os_start : ℕ
  pub running : q.exists pid ≡ some true
  pub parsed : q.parse_date started ≡ some recorded
  pub measured : q.start_time pid ≡ some (some os_start)
  pub near : distance os_start recorded ≤ tolerance

by_times-live :
    (a b : Option ℕ) (t : ℕ)
    → by_times a b t ≡ verified_live
    → (r : ℕ) × (o : ℕ) × (a ≡ some r) × (b ≡ some o) × (distance o r ≤ t)
by_times-live none b t h = cc
by_times-live (some r) none t h = cc
by_times-live (some r) (some o) t h = (r, o, refl, refl, ground arith)

exists_true : (o : Option Bool) → or_default o false ≡ true → o ≡ some true
exists_true none h = cc
exists_true (some b) h = ap some h

started_some : (o : Option (Option ℕ)) (t : ℕ) → or_default o none ≡ some t → o ≡ some (some t)
started_some none t h = cc
started_some (some b) t h = ap some h

by_probe-live :
    (q : PidIdentityQuery) (pid : ℕ) (s : String) (t : ℕ)
    → by_probe q pid s t ≡ verified_live
    → IsOurs q pid s t
by_probe-live q pid s t =
    if_cases {A = PidIdentityStatus} (λ x. x ≡ verified_live → IsOurs q pid s t)
      (not (or_default (q.exists pid) false)) (λ n h. cc)
      (λ n h.
        let (r, o, a, b, d) =
          by_times-live (q.parse_date s) (or_default (q.start_time pid) none) t h in
        record {
          recorded = r;
          os_start = o;
          running = exists_true (q.exists pid) (ground arith);
          parsed = a;
          measured = started_some (q.start_time pid) o b;
          near = d;
        })

by_started-live :
    (q : PidIdentityQuery) (pid : ℕ) (o : Option String) (t : ℕ)
    → by_started q pid o t ≡ verified_live
    → (s : String) × (o ≡ some s) × IsOurs q pid s t
by_started-live q pid none t h = cc
by_started-live q pid (some s) t h =
    if_cases {A = PidIdentityStatus}
      (λ x. x ≡ verified_live → (s2 : String) × (some s ≡ some s2) × IsOurs q pid s2 t) (is_empty s)
      (λ e l. cc) (λ e l. (s, refl, by_probe-live q pid s t l)) h

killed_live : (x : PidIdentityStatus) → (kill_by_status x).0 ≡ true → x ≡ verified_live
killed_live verified_live h = refl
killed_live verified_dead h = cc
killed_live no_identity h = cc
killed_live identity_mismatch h = cc
killed_live unverifiable h = cc

pid_identity_status-live :
    (q : PidIdentityQuery) (n : ℕ) (o : Option String) (t : ℕ)
    → pid_identity_status q (some (int n)) o t ≡ verified_live
    → (s : String) × (o ≡ some s) × IsOurs q n s t
unfolding pid_identity_status
pid_identity_status-live q n o t =
    if_cases {A = PidIdentityStatus}
      (λ x. x ≡ verified_live → (s : String) × (o ≡ some s) × IsOurs q n s t) (leb 1 n)
      (λ p l. by_started-live q n o t l) (λ p l. cc)

-- What is known of a pid whose process tree is killed.
abbrev pub MayKill : PidIdentityQuery → ℕ → Option String → ℕ → ℕ → Type 0
MayKill q own o t n = (n ≢ own) × ((s : String) × (o ≡ some s) × IsOurs q n s t)

-- A tree is killed only if its root is another process than the killer's own, exists, and started
-- at the recorded time within the tolerance: an unknown start time, an unparseable record or a
-- reused pid never leads to a kill.
pub kill_tree_verified-MayKill :
    (q : PidIdentityQuery) (own n : ℕ) (o : Option String) (t : ℕ)
    → (kill_tree_verified q own (some (int n)) o t).0 ≡ true
    → MayKill q own o t n
unfolding kill_tree_verified
kill_tree_verified-MayKill q own n o t =
    if_cases {A = Bool × Option KillRefusal} (λ x. x.0 ≡ true → MayKill q own o t n) (n == 0)
      (λ z k. cc)
      (λ z.
        if_cases {A = Bool × Option KillRefusal} (λ x. x.0 ≡ true → MayKill q own o t n) (n == own)
          (λ e k. cc) (λ e k. (ground arith, pid_identity_status-live q n o t (killed_live _ k))))

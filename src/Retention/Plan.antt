-- ===== src/Retention/Plan.antt =====
-- src/retention.ts: `planRetention`. A directory is its entries, `none` when it cannot be listed;
-- an entry carries what `lstat` and reading answer for it.
use codex_job_orchestrator.Common.{
  ℕ, ◌+◌, String, Bool, true, false, not, ◌&&◌, ◌||◌, Option, none, some, List, [], ◌∷◌, ◌++◌, map,
  all, ltb, ◌==◌, if◌then◌else◌, or_default, is_some, codes, is_id_char, is_empty, text_lt, Json,
  ◌>>=◌, null,
}
use codex_job_orchestrator.Retention.Policy.{
  RetentionAction, PlanItemKind, Duration, RetentionPolicy, bound_policy, archive_registry,
  truncate_log_candidate, archive_claim_candidate, archive_settings_candidate, keep, skip, log,
  stderr_log, claim,
}
use codex_job_orchestrator.Retention.Registry.{
  Inspector, RegistryClock, RegistryClassification, classify_registry_record,
}
use codex_job_orchestrator.Retention.Scan.{
  Host, relative_key, Stats, JobView, read_job_view, RetentionPlanItem, ScanCtx, scan_file,
}

pub record Dirs : Type 0 where
  pub jobs : Option (List (String × Option Json))
  pub logs : Option (List (String × Option Stats))
  pub settings : Option (List (String × Option Stats))
  pub claims : Option (List (String × Option Stats))
  pub registry : Option (List (String × (Option Stats × Option Json)))

-- The parameters of a plan; `join root dir name` is `path.join`.
pub record PlanOptions : Type 0 where
  pub host : Host
  pub join : String → String → String → String
  pub root : String
  pub now : ℕ
  pub policy : RetentionPolicy Duration
  pub inspector : Inspector
  pub self_instance_id : Option String
  pub stale_after_ms : ℕ
  pub identity_tolerance_ms : ℕ

module _ {ℓ} {A : Type ℓ} where
  abbrev pub insert_entry : (String × A) → List (String × A) → List (String × A)
  insert_entry x [] = x ∷ []
  insert_entry x (y ∷ ys) =
      let rest = insert_entry x ys in if text_lt x.0 y.0 then x ∷ y ∷ ys else y ∷ rest

  abbrev pub sort_entries : List (String × A) → List (String × A)
  sort_entries [] = []
  sort_entries (x ∷ xs) = insert_entry x (sort_entries xs)

  unfoldable pub list_dir : Option (List (String × A)) → List (String × A)
  list_dir none = []
  list_dir (some xs) = sort_entries xs

abbrev pub codes_eq : List ℕ → List ℕ → Bool
codes_eq [] [] = true
codes_eq [] (y ∷ ys) = false
codes_eq (x ∷ xs) [] = false
codes_eq (x ∷ xs) (y ∷ ys) = x == y && codes_eq xs ys

abbrev pub prepend : ℕ → Option (List ℕ) → Option (List ℕ)
prepend c none = none
prepend c (some cs) = some (c ∷ cs)

-- `name.slice(0, -suffix.length)` when `name.endsWith(suffix)`.
unfoldable pub strip_suffix : List ℕ → List ℕ → Option (List ℕ)
strip_suffix suffix [] = if codes_eq [] suffix then some [] else none
strip_suffix suffix (c ∷ cs) =
    let rest = strip_suffix suffix cs in
    if codes_eq (c ∷ cs) suffix then some [] else prepend c rest

-- `[0-9a-zA-Z_.-]`.
abbrev pub is_file_char : ℕ → Bool
is_file_char c = is_id_char c || c == 46

abbrev pub plain : List ℕ → Option (List ℕ)
plain [] = none
plain (c ∷ cs) = if all is_file_char (c ∷ cs) then some (c ∷ cs) else none

abbrev pub or_else : Option (List ℕ) → Option (List ℕ) → Option (List ℕ)
or_else none b = b
or_else (some a) b = some a

-- What stands before the suffix in a name of the jobs and of the claims directory.
unfoldable pub job_file_stem : List ℕ → Option (List ℕ)
unfolding strip_suffix
job_file_stem n = strip_suffix (codes ".json") n >>= plain

unfoldable pub claim_file_stem : List ℕ → Option (List ℕ)
unfolding strip_suffix
claim_file_stem n =
    or_else (strip_suffix (codes ".recover.json") n) (strip_suffix (codes ".supervisor.json") n)
    >>= plain

-- The last record set for an id is the one that counts, so the list is kept newest first.
unfoldable pub job_views : List (String × Option Json) → List JobView → List JobView
unfolding job_file_stem read_job_view
job_views [] known = known
job_views ((n, f) ∷ rest) known =
    job_views rest (add_view (job_file_stem (codes n)) (read_job_view f) known)
  where
    add_view : Option (List ℕ) → Option JobView → List JobView → List JobView
    add_view none v known = known
    add_view (some s) none known = known
    add_view (some s) (some v) known = v ∷ known

unfoldable pub find_view : List ℕ → List JobView → Option JobView
find_view id [] = none
find_view id (v ∷ vs) = if codes_eq (codes v.job_id) id then some v else find_view id vs

pub record RetentionPlanTotals : Type 0 where
  pub counts : RetentionAction → ℕ
  pub bytes : RetentionAction → ℕ

pub record RetentionPlan : Type 0 where
  pub items : List RetentionPlanItem
  pub totals : RetentionPlanTotals

-- The order of the actions' names.
abbrev pub action_rank : RetentionAction → ℕ
action_rank archive_claim_candidate = 0
action_rank archive_registry = 1
action_rank archive_settings_candidate = 2
action_rank keep = 3
action_rank skip = 4
action_rank truncate_log_candidate = 5

abbrev pub same_action : RetentionAction → RetentionAction → Bool
same_action a b = action_rank a == action_rank b

abbrev pub empty_plan : RetentionPlan
empty_plan = record { items = []; totals = record { counts = λ a. 0; bytes = λ a. 0 } }

-- `add`: the item is pushed and counted under its action.
unfoldable pub add : Option RetentionPlanItem → RetentionPlan → RetentionPlan
add none p = p
add (some it) p = record {
  items = p.items ++ (it ∷ []);
  totals = record {
    counts = λ a. p.totals.counts a + (if same_action it.action a then 1 else 0);
    bytes = λ a. p.totals.bytes a + (if same_action it.action a then it.bytes else 0);
  };
}

abbrev pub add_all : List (Option RetentionPlanItem) → RetentionPlan → RetentionPlan
add_all [] p = p
add_all (it ∷ its) p = add_all its (add it p)

abbrev pub ctx_of : PlanOptions → ScanCtx
ctx_of o = record { host = o.host; root = o.root; now = o.now; policy = bound_policy o.policy }

abbrev pub lookup : Option (List ℕ) → List JobView → Option JobView
lookup none vs = none
lookup (some id) vs = find_view id vs

-- One entry of the logs, the settings and the claims directory.
unfoldable pub log_item :
    PlanOptions → List JobView → String → Option Stats → Option RetentionPlanItem
unfolding strip_suffix find_view scan_file
log_item o vs n st =
    if is_some (strip_suffix (codes ".stderr.log") (codes n))
    then scan_file (ctx_of o) (o.join o.root "logs" n) stderr_log
        (lookup (strip_suffix (codes ".stderr.log") (codes n)) vs) st
    else if is_some (strip_suffix (codes ".log") (codes n))
    then scan_file (ctx_of o) (o.join o.root "logs" n) log
        (lookup (strip_suffix (codes ".log") (codes n)) vs) st
    else none

unfoldable pub settings_item :
    PlanOptions → List JobView → String → Option Stats → Option RetentionPlanItem
unfolding strip_suffix find_view scan_file
settings_item o vs n st =
    if is_some (strip_suffix (codes ".json") (codes n))
    then scan_file (ctx_of o) (o.join o.root "settings" n) PlanItemKind.settings
        (lookup (strip_suffix (codes ".json") (codes n)) vs) st
    else none

unfoldable pub claim_item :
    PlanOptions → List JobView → String → Option Stats → Option RetentionPlanItem
unfolding claim_file_stem find_view scan_file
claim_item o vs n st =
    if is_some (claim_file_stem (codes n))
    then scan_file (ctx_of o) (o.join o.root "claims" n) claim
        (lookup (claim_file_stem (codes n)) vs) st
    else none

abbrev pub registry_action : Bool → RetentionAction
registry_action true = archive_registry
registry_action false = keep

abbrev pub registry_planned : String → Stats → RegistryClassification → Option RetentionPlanItem
registry_planned rel st k = some (record {
  relative_path = rel;
  kind = PlanItemKind.registry;
  action = registry_action k.archive;
  fixed_reason = k.fixed_reason;
  age_ms = k.stale_since_ms;
  bytes = st.size;
  job_id = none;
})

abbrev pub clock_of : PlanOptions → RegistryClock
clock_of o = record {
  self_instance_id = o.self_instance_id;
  now = o.now;
  stale_after_ms = o.stale_after_ms;
  stale_registry_ttl_ms = (ctx_of o).policy.stale_registry_ttl;
  identity_tolerance_ms = o.identity_tolerance_ms;
}

abbrev pub registry_stats :
    PlanOptions → String → Option Stats → Option Json → Option RetentionPlanItem
registry_stats o rel none f = none
registry_stats o rel (some st) f =
    if st.is_file
    then registry_planned rel st
        (classify_registry_record o.inspector o.host.parse_date (clock_of o) (or_default f null))
    else none

abbrev pub registry_key :
    PlanOptions → Option String → Option Stats → Option Json → Option RetentionPlanItem
registry_key o none st f = none
registry_key o (some rel) st f = if is_empty rel then none else registry_stats o rel st f

unfoldable pub registry_item :
    PlanOptions → String → Option Stats → Option Json → Option RetentionPlanItem
unfolding strip_suffix relative_key classify_registry_record
registry_item o n st f =
    if is_some (strip_suffix (codes ".json") (codes n))
    then registry_key o (relative_key o.host (o.join o.root "registry/instances" n) o.root) st f
    else none

unfoldable pub item_before : RetentionPlanItem → RetentionPlanItem → Bool
item_before a b =
    if same_action a.action b.action
    then not (text_lt b.relative_path a.relative_path)
    else ltb (action_rank a.action) (action_rank b.action)

abbrev pub insert_item : RetentionPlanItem → List RetentionPlanItem → List RetentionPlanItem
insert_item x [] = x ∷ []
insert_item x (y ∷ ys) =
    let rest = insert_item x ys in if item_before x y then x ∷ y ∷ ys else y ∷ rest

abbrev pub sort_items : List RetentionPlanItem → List RetentionPlanItem
sort_items [] = []
sort_items (x ∷ xs) = insert_item x (sort_items xs)

-- The items of the four directories in turn.
unfoldable pub scanned : PlanOptions → Dirs → List (Option RetentionPlanItem)
unfolding job_views list_dir log_item settings_item claim_item registry_item
scanned o d =
    let vs = job_views (list_dir d.jobs) [] in
    map (λ e. log_item o vs e.0 e.1) (list_dir d.logs)
    ++ map (λ e. settings_item o vs e.0 e.1) (list_dir d.settings)
    ++ map (λ e. claim_item o vs e.0 e.1) (list_dir d.claims)
    ++ map (λ e. registry_item o e.0 e.1.0 e.1.1) (list_dir d.registry)

unfoldable pub plan_retention : PlanOptions → Dirs → RetentionPlan
unfolding scanned add
plan_retention o d =
    let p = add_all (scanned o d) empty_plan in record p { items = sort_items p.items }

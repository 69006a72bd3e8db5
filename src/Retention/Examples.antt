-- ===== src/Retention/Examples.antt =====
-- src/retention.ts: the theorems at concrete files.
use codex_job_orchestrator.Common.{
  text_field, non_empty_field, pos_int_field, ℕ, String, ◌≡◌, refl, ◌↔◌, true, false, Option, none,
  some, [], ◌∷◌, map, str_eq, if◌then◌else◌, codes, Fields, int, number, string, object, end, field,
}
use codex_job_orchestrator.JobStore.Status.{JobStatus, is_terminal, status_of_name}
use codex_job_orchestrator.Retention.Policy.{
  RetentionAction, PlanItemKind, day_ms, bound, bound_policy, log_class_of, ttl_for,
  fixed_for_terminal, fixed_for_log, truncate_log_candidate, archive_claim_candidate, keep,
  no_number, infinite, finite, below,
}
use codex_job_orchestrator.Retention.Registry.{
  Inspector, RegistryView, version_one, valid_registry_record, RegistryClock,
  classify_registry_record, IsDead, archive_iff,
}
use codex_job_orchestrator.Retention.Scan.{
  Host, is_inside, relative_key, Stats, JobView, read_fields, read_job_view, RetentionPlanItem,
  reference_ms, age_of, verdict_of, scan_file,
}
use codex_job_orchestrator.Retention.Plan.{
  Dirs, PlanOptions, list_dir, strip_suffix, job_file_stem, claim_file_stem, job_views, find_view,
  add, ctx_of, log_item, settings_item, claim_item, registry_item, item_before, scanned,
  plan_retention,
}
use codex_job_orchestrator.Retention.Justified.{
  bound_policy-IsBounded, Justifies, scan_file-Justifies,
}
use codex_job_orchestrator.Retention.Settings.{IsIdle, settings_item-IsIdle}

abbrev parse : String → Option ℕ
parse s = if str_eq s "epoch" then some 0 else none

abbrev host : Host
host = record {
  relative = λ a b. b;
  is_absolute = λ _. false;
  slashes = λ p. p;
  parse_date = parse;
}

abbrev inspector : Inspector
inspector = record { exists = λ _. some false; start_time = λ _. none }

abbrev options : PlanOptions
options = record {
  host = host;
  join = λ r d n. n;
  root = "/";
  now = 9000000000;
  policy = record {
    succeeded_log_ttl = finite 1;
    failed_log_ttl = infinite;
    needs_attention_log_ttl = no_number;
    terminal_claim_settings_ttl = below 4;
    stale_registry_ttl = finite day_ms;
  };
  inspector = inspector;
  self_instance_id = none;
  stale_after_ms = 90000;
  identity_tolerance_ms = 5000;
}

abbrev view : JobView
view = record { job_id = "a1"; status = JobStatus.succeeded; ended_at = some "epoch" }

abbrev stats : Stats
stats = record { is_symbolic_link = false; is_file = true; mtime_ms = 5; size = 12 }

abbrev dirs : Dirs
dirs = record {
  jobs = some (
      (
        "a1.json",
        some (
            object (
              field "jobId" (string "a1")
                (field "status" (string "succeeded") (field "startedAt" (string "epoch") end)))),
      )
      ∷ []);
  logs = some (("a1.log", some stats) ∷ ("b2.log", some stats) ∷ []);
  settings = some (("a1.settings.json", some stats) ∷ []);
  claims = some (("a1.recover.json", some stats) ∷ []);
  registry = none;
}

abbrev outline : RetentionPlanItem → String × RetentionAction
outline it = (it.relative_path, it.action)

-- The log and the claim of the finished job may go; its settings file is taken for an unknown job's.
plan_acts :
    map outline (plan_retention options dirs).items
    ≡ ("a1.recover.json", archive_claim_candidate)
      ∷ ("a1.settings.json", keep)
      ∷ ("b2.log", keep)
      ∷ ("a1.log", truncate_log_candidate)
      ∷ []
unfolding plan_retention scanned add job_views list_dir log_item settings_item claim_item
    registry_item strip_suffix job_file_stem claim_file_stem find_view scan_file relative_key
    is_inside age_of reference_ms verdict_of log_class_of ttl_for fixed_for_log fixed_for_terminal
    is_terminal read_job_view read_fields status_of_name non_empty_field text_field bound_policy
    bound item_before
plan_acts = refl

scan_file-Justifies_example :
    Justifies
      (ctx_of options)
      PlanItemKind.log
      (some view)
      (some stats)
      (scan_file (ctx_of options) "a1.log" PlanItemKind.log (some view) (some stats))
scan_file-Justifies_example =
    scan_file-Justifies (ctx_of options) "a1.log" PlanItemKind.log (some view) (some stats)
      (bound_policy-IsBounded options.policy)

settings_item-IsIdle_example :
    IsIdle (settings_item options (view ∷ []) "a1.settings.json" (some stats))
settings_item-IsIdle_example =
    settings_item-IsIdle options (view ∷ []) "a1.settings.json" (codes "a1") (some stats) (refl, tt)
      refl

abbrev clock : RegistryClock
clock = record {
  self_instance_id = none;
  now = 9000000000;
  stale_after_ms = 90000;
  stale_registry_ttl_ms = day_ms;
  identity_tolerance_ms = 5000;
}

abbrev instance_record : Fields
instance_record = field "schemaVersion" (number (int 1)) (
    field "instanceId" (string "i1") (
      field "pid" (number (int 5)) (
        field "processStartedAt" (string "epoch") (
          field "serverStartedAt" (string "epoch") (
            field "entry" (string "main") (
              field "buildFingerprint" (string "f")
                (field "lastHeartbeatAt" (string "epoch") (field "version" (string "2") end))))))))

abbrev instance_view : RegistryView
instance_view = record {
  instance_id = "i1";
  pid = 5;
  process_started_at = "epoch";
  last_heartbeat_at = "epoch";
}

archive_iff_example :
    ((classify_registry_record inspector parse clock (object instance_record)).archive ≡ true)
    ↔ IsDead inspector parse clock instance_view
unfolding valid_registry_record non_empty_field text_field pos_int_field version_one
archive_iff_example = archive_iff inspector parse clock instance_record instance_view refl

-- ===== src/Contracts/Inside.antt =====
-- src/contracts-v2.ts: the paths of a valid contract stay inside the work folder.
use codex_job_orchestrator.Common.{
  ℕ, suc, String, ◌≡◌, refl, ap, subst, Option, none, some, List, [], ◌∷◌, append-eq-nil,
  flat-eq-nil, concat, Json, Items, Fields, get, null, bool, number, string, array, object, nil,
  cons,
}
use codex_job_orchestrator.Contracts.Paths.{Paths}
use codex_job_orchestrator.Contracts.Budgets.{unknown_fields}
use codex_job_orchestrator.Contracts.Entries.{
  glob_errors, entry_place, glob_items, glob_array_errors, scope_checks, scope_errors,
  validate_scope, command_checks, command_errors, command_item_errors, command_items,
  validate_acceptance,
}
use codex_job_orchestrator.Contracts.Validate.{
  deliverable_errors, validate_reporting, contract_checks, contract_errors, verdict_of,
  validate_task_contract_v2, valid,
}
use codex_job_orchestrator.Contracts.Contained.{
  IsContained, EveryItem, EveryOf, RunsInside, DeliversInside, glob_errors-IsContained,
  cwd_errors-IsContained, deliverable_errors-DeliversInside,
}

module _ (h : Paths) (folder : String) (show : ℕ → String) where
  glob_items-EveryItem :
      (f : String) (i : ℕ) (items : Items)
      → glob_items h show folder f i items ≡ []
      → EveryItem (λ v. IsContained h folder (some v)) items
  unfolding glob_items
  glob_items-EveryItem f i nil e = tt
  glob_items-EveryItem f i (cons g rest) e =
      let (a, b) =
        append-eq-nil (glob_errors h folder (entry_place show f i) (some g))
          (glob_items h show folder f (suc i) rest) e in
      (
        glob_errors-IsContained h folder (entry_place show f i) (some g) a,
        glob_items-EveryItem f (suc i) rest b,
      )

  glob_array_errors-EveryOf :
      (f : String) (v : Option Json)
      → glob_array_errors h show folder f v ≡ []
      → EveryOf (λ g. IsContained h folder (some g)) v
  unfolding glob_array_errors
  glob_array_errors-EveryOf f (some (array items)) e =
      (items, refl, glob_items-EveryItem f 0 items e)
  glob_array_errors-EveryOf f none e = cc
  glob_array_errors-EveryOf f (some null) e = cc
  glob_array_errors-EveryOf f (some (bool b)) e = cc
  glob_array_errors-EveryOf f (some (number n)) e = cc
  glob_array_errors-EveryOf f (some (string n)) e = cc
  glob_array_errors-EveryOf f (some (object n)) e = cc

  -- The three arrays of a scope.
  abbrev pub ScopeInside : Option Json → Type 0
  ScopeInside v =
      (o : Fields) × (v ≡ some (object o))
      × EveryOf (λ g. IsContained h folder (some g)) (get "readGlobs" o)
      × EveryOf (λ g. IsContained h folder (some g)) (get "writeFiles" o)
      × EveryOf (λ g. IsContained h folder (some g)) (get "forbiddenGlobs" o)

  validate_scope-ScopeInside :
      (v : Option Json) → validate_scope h show folder v ≡ [] → ScopeInside v
  unfolding validate_scope scope_errors scope_checks
  validate_scope-ScopeInside (some (object o)) e =
      let (u, (r1, (r2, (r3, (a, (b, (c, z))))))) = flat-eq-nil (scope_checks h show folder o) e in
      (
        o,
        refl,
        glob_array_errors-EveryOf "scope.readGlobs" (get "readGlobs" o) a,
        glob_array_errors-EveryOf "scope.writeFiles" (get "writeFiles" o) b,
        glob_array_errors-EveryOf "scope.forbiddenGlobs" (get "forbiddenGlobs" o) c,
      )
  validate_scope-ScopeInside none e = cc
  validate_scope-ScopeInside (some null) e = cc
  validate_scope-ScopeInside (some (bool b)) e = cc
  validate_scope-ScopeInside (some (number n)) e = cc
  validate_scope-ScopeInside (some (string n)) e = cc
  validate_scope-ScopeInside (some (array n)) e = cc

  command_item_errors-RunsInside :
      (place : String) (v : Json)
      → command_item_errors h folder place v ≡ []
      → RunsInside h folder v
  unfolding command_item_errors command_errors command_checks
  command_item_errors-RunsInside place (object o) e =
      let (u, (i, (v, (w, z)))) = flat-eq-nil (command_checks h folder place o) e in
      (
        o,
        refl,
        cwd_errors-IsContained h folder (concat place ".cwdRelative") (get "cwdRelative" o) w,
      )
  command_item_errors-RunsInside place null e = cc
  command_item_errors-RunsInside place (bool b) e = cc
  command_item_errors-RunsInside place (number n) e = cc
  command_item_errors-RunsInside place (string n) e = cc
  command_item_errors-RunsInside place (array n) e = cc

  command_items-EveryItem :
      (i : ℕ) (items : Items)
      → command_items h show folder i items ≡ []
      → EveryItem (RunsInside h folder) items
  unfolding command_items
  command_items-EveryItem i nil e = tt
  command_items-EveryItem i (cons c rest) e =
      let (a, b) =
        append-eq-nil (command_item_errors h folder (entry_place show "acceptance" i) c)
          (command_items h show folder (suc i) rest) e in
      (
        command_item_errors-RunsInside (entry_place show "acceptance" i) c a,
        command_items-EveryItem (suc i) rest b,
      )

  validate_acceptance-EveryOf :
      (v : Option Json) → validate_acceptance h show folder v ≡ [] → EveryOf (RunsInside h folder) v
  unfolding validate_acceptance
  validate_acceptance-EveryOf (some (array items)) e =
      (items, refl, command_items-EveryItem 0 items e)
  validate_acceptance-EveryOf none e = cc
  validate_acceptance-EveryOf (some null) e = cc
  validate_acceptance-EveryOf (some (bool b)) e = cc
  validate_acceptance-EveryOf (some (number n)) e = cc
  validate_acceptance-EveryOf (some (string n)) e = cc
  validate_acceptance-EveryOf (some (object n)) e = cc

  abbrev pub ReportInside : Option Json → Type 0
  ReportInside v =
      (o : Fields) × (v ≡ some (object o)) × DeliversInside h folder (get "deliverablePath" o)

  validate_reporting-ReportInside :
      (v : Option Json) → validate_reporting h folder v ≡ [] → ReportInside v
  unfolding validate_reporting
  validate_reporting-ReportInside (some (object o)) e = (
    o,
    refl,
    deliverable_errors-DeliversInside h folder (get "deliverablePath" o)
        (append-eq-nil (unknown_fields ("deliverablePath" ∷ []) "unknown reporting field '" "'" o)
          (deliverable_errors h folder (get "deliverablePath" o)) e).1,
  )
  validate_reporting-ReportInside none e = cc
  validate_reporting-ReportInside (some null) e = cc
  validate_reporting-ReportInside (some (bool b)) e = cc
  validate_reporting-ReportInside (some (number n)) e = cc
  validate_reporting-ReportInside (some (string n)) e = cc
  validate_reporting-ReportInside (some (array n)) e = cc

  -- Every glob of a contract that is found valid and every folder of its commands is a relative
  -- path, and its report, if it names one, an absolute path that ends with `.md`; each of them
  -- resolves to a path that is, when normalized, the work folder itself or the work folder, the
  -- separator of its style and something further.
  pub valid_stays_inside :
      (j : Json) (c : Fields)
      → validate_task_contract_v2 h show folder j ≡ valid c
      → (j ≡ object c)
        × ScopeInside (get "scope" c)
        × EveryOf (RunsInside h folder) (get "acceptance" c)
        × ReportInside (get "reporting" c)
  unfolding validate_task_contract_v2 contract_errors contract_checks
  valid_stays_inside (object o) c e =
      let (same, empty) = no_errors o (contract_errors h show folder o) e in
      let (u, (v, (s, (w, (b, (a, (r, z))))))) =
        flat-eq-nil (contract_checks h show folder o) empty in
      (
        ap object same,
        subst (λ x. ScopeInside (get "scope" x)) same
            (validate_scope-ScopeInside (get "scope" o) s),
        subst (λ x. EveryOf (RunsInside h folder) (get "acceptance" x)) same
            (validate_acceptance-EveryOf (get "acceptance" o) a),
        subst (λ x. ReportInside (get "reporting" x)) same
            (validate_reporting-ReportInside (get "reporting" o) r),
      )
    where
      no_errors : (o : Fields) (es : List String) → verdict_of o es ≡ valid c → (o ≡ c) × (es ≡ [])
      no_errors o [] h = (cc, refl)
      no_errors o (x ∷ xs) h = cc
  valid_stays_inside null c e = cc
  valid_stays_inside (bool b) c e = cc
  valid_stays_inside (number n) c e = cc
  valid_stays_inside (string n) c e = cc
  valid_stays_inside (array n) c e = cc

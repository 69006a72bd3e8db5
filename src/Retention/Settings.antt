-- ===== src/Retention/Settings.antt =====
-- src/retention.ts with src/job-store.ts: what the plan makes of the settings file of a job, which
-- `settingsFilePath` names `<jobId>.settings.json`.
-- The code of the dot stands nowhere in the id.
use codex_job_orchestrator.Common.{
  ℕ, suc, ◌+◌, String, ◌≡◌, refl, sym, ap, ◌∙◌, inl, inr, Bool, true, false, not, Option, none,
  some, List, [], ◌∷◌, ◌++◌, arith, length, length-append, any, All, ◌==◌, Bool-cases, Option-cases,
  if_cases, codes, is_empty,
}
use codex_job_orchestrator.Retention.Policy.{PlanItemKind}
use codex_job_orchestrator.Retention.Scan.{
  relative_key, Stats, JobView, RetentionPlanItem, ScanCtx, verdict_of, scan_stats, scan_file,
}
use codex_job_orchestrator.Retention.Plan.{
  PlanOptions, codes_eq, strip_suffix, find_view, ctx_of, settings_item,
}
use codex_job_orchestrator.Retention.Justified.{acts}

abbrev pub has_no_dot : List ℕ → Bool
has_no_dot ids = not (any (λ c. c == 46) ids)

abbrev pub AllPlain : List JobView → Type 0
AllPlain vs = All (λ v. has_no_dot (codes v.job_id) ≡ true) vs

dotted : (xs ys : List ℕ) → codes_eq xs (ys ++ codes ".settings") ≡ true → has_no_dot xs ≡ false
dotted [] [] h = cc
dotted [] (y ∷ ys) h = cc
dotted (x ∷ xs) [] h = ground arith
dotted (x ∷ xs) (y ∷ ys) h = ground (arith, dotted xs ys)

undotted_is_other :
    (xs ys : List ℕ) → has_no_dot xs ≡ true → codes_eq xs (ys ++ codes ".settings") ≡ false
undotted_is_other xs ys h = elim (Bool-cases (codes_eq xs (ys ++ codes ".settings"))) [
  | inl t ↦ let d = dotted xs ys t in cc
  | inr f ↦ f
]

unknown :
    (ids : List ℕ) (vs : List JobView)
    → AllPlain vs
    → find_view (ids ++ codes ".settings") vs ≡ none
unfolding find_view
unknown ids [] p = refl
unknown ids (v ∷ vs) (p, ps) = rw (undotted_is_other (codes v.job_id) ids p) (unknown ids vs ps)

codes_eq-length : (xs ys : List ℕ) → codes_eq xs ys ≡ true → length xs ≡ length ys
codes_eq-length [] [] h = refl
codes_eq-length [] (y ∷ ys) h = cc
codes_eq-length (x ∷ xs) [] h = cc
codes_eq-length (x ∷ xs) (y ∷ ys) h = ap suc (codes_eq-length xs ys (ground arith))

impossible : (n : ℕ) → suc (n + 14) ≡ 5 → true ≡ false
impossible n h = ground arith

longer : (cs : List ℕ) (c : ℕ) → codes_eq (c ∷ cs ++ codes ".settings.json") (codes ".json") ≡ false
longer cs c = elim (Bool-cases (codes_eq (c ∷ cs ++ codes ".settings.json") (codes ".json"))) [
  | inl t ↦
      t
      ∙ impossible (length cs) (
          ap suc (sym (length-append cs (codes ".settings.json")))
          ∙ codes_eq-length (c ∷ cs ++ codes ".settings.json") (codes ".json") t)
  | inr f ↦ f
]

-- The stem of a settings file's name.
pub stem_of_settings :
    (ids : List ℕ)
    → strip_suffix (codes ".json") (ids ++ codes ".settings.json") ≡ some (ids ++ codes ".settings")
unfolding strip_suffix
stem_of_settings [] = refl
stem_of_settings (c ∷ cs) = rw (longer cs c, stem_of_settings cs) refl

-- There is no item, or it does not act.
abbrev pub IsIdle : Option RetentionPlanItem → Type 0
IsIdle none = Unit
IsIdle (some it) = acts it.action ≡ false

unknown_job-IsIdle :
    (c : ScanCtx) (abs : String) (st : Option Stats)
    → IsIdle (scan_file c abs PlanItemKind.settings none st)
unfolding scan_file verdict_of
unknown_job-IsIdle c abs st = elim (Option-cases (relative_key c.host abs c.root)) [
  | inl e ↦ rw e refl
  | inr (rel, e) ↦ rw e (
      if_cases {A = Option RetentionPlanItem} IsIdle (is_empty rel) (λ t. refl)
        (λ f. idle_stats rel st))
]
  where
    idle_stats :
        (rel : String) (st : Option Stats) → IsIdle (scan_stats c rel PlanItemKind.settings none st)
    idle_stats rel none = tt
    idle_stats rel (some s) =
        if_cases {A = Option RetentionPlanItem} IsIdle s.is_symbolic_link (λ t. refl)
          (λ l.
            if_cases {A = Option RetentionPlanItem} IsIdle (not s.is_file) (λ t. refl) (λ f. refl))

-- However old it is, and whatever the status of its job: no plan acts on the settings file of a
-- job, `<jobId>.settings.json`. The plan looks for a job named after the whole stem
-- `<jobId>.settings`, and no known job's id has a dot.
pub settings_item-IsIdle :
    (o : PlanOptions) (vs : List JobView) (n : String) (ids : List ℕ) (st : Option Stats)
    → AllPlain vs
    → codes n ≡ ids ++ codes ".settings.json"
    → IsIdle (settings_item o vs n st)
unfolding settings_item
settings_item-IsIdle o vs n ids st p e =
    rw (e, stem_of_settings ids)
      (rw (unknown ids vs p) (unknown_job-IsIdle (ctx_of o) (o.join o.root "settings" n) st))

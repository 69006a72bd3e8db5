-- ===== src/JobEvents/Dispatch.antt =====
-- src/job-events.ts: the events of a job's files reach the listeners of that job.
use codex_job_orchestrator.Common.{
  String, ◌≡◌, refl, Bool, true, false, not, some, arith, any, ◌==◌, codes, is_empty, concat,
  ends_with,
}
use codex_job_orchestrator.JobEvents.{JobEventBroker, emit, before_dot, on_dir_event}
use text.Mathlib.TextLemmas.{nil-append, cons-append}

-- `[^.]`.
abbrev dotless : String → Bool
dotless id = not (any (λ c. c == b'.') (codes id))

ends_with-concat : (id t end : String) → ends_with t end ≡ true → ends_with (concat id t) end ≡ true
ends_with-concat String.[] t end h = rw nil-append h
ends_with-concat (String.◌∷◌ c s) t end h =
    rw cons-append (ground (arith, ends_with-concat s t end h))

before_dot-concat :
    (id t : String) → dotless id ≡ true → before_dot t ≡ "" → before_dot (concat id t) ≡ id
before_dot-concat String.[] t h e = rw nil-append e
before_dot-concat (String.◌∷◌ c s) t h e =
    rw cons-append (ground (arith, before_dot-concat s t (ground arith) e))

is_empty-concat : (id t : String) → is_empty t ≡ false → is_empty (concat id t) ≡ false
is_empty-concat String.[] t h = rw nil-append h
is_empty-concat (String.◌∷◌ c s) t h = rw cons-append refl

file_event :
    (basename : String → String) (b : JobEventBroker) (f id t : String)
    → basename f ≡ concat id t
    → is_empty f ≡ false
    → is_empty id ≡ false
    → dotless id ≡ true
    → before_dot t ≡ ""
    → ends_with t ".json" ≡ true
    → on_dir_event basename b (some f) ≡ emit b id (some (concat id t))
unfolding on_dir_event
file_event basename b f id t e full named dots h j =
    rw (e, full, ends_with-concat id t ".json" j, before_dot-concat id t dots h, named) refl

-- An event for the file of a job's record, or for the file that marks it done, is delivered to just
-- the listeners of that job, with the name of the file; the job's id has a character, and no dot.
dispatch_by_name :
    (basename : String → String) (b : JobEventBroker) (f id : String)
    → is_empty f ≡ false
    → is_empty id ≡ false
    → dotless id ≡ true
    → (basename f ≡ concat id ".json"
        → on_dir_event basename b (some f) ≡ emit b id (some (concat id ".json")))
      × (basename f ≡ concat id ".done.json"
          → on_dir_event basename b (some f) ≡ emit b id (some (concat id ".done.json")))
dispatch_by_name basename b f id full named dots = (
  (λ e. file_event basename b f id ".json" e full named dots refl refl),
  λ e. file_event basename b f id ".done.json" e full named dots refl refl,
)

-- ===== src/Controller/Pass.antt =====
-- src/admission-controller.ts: the pass over the candidates in their order.
use codex_job_orchestrator.Common.{
  ℕ, Bool, true, false, not, Option, none, some, List, [], ◌∷◌, ltb, leb, ◌==◌, if◌then◌else◌,
  or_default, codes,
}
use codex_job_orchestrator.Admission.Types.{Host}
use codex_job_orchestrator.Admission.Files.{Area}
use codex_job_orchestrator.Admission.Manager.{Outcome, returned, thrown}
use codex_job_orchestrator.Controller.{
  AdmissionCandidate, AdmissionDecision, Turn, Controller, decide,
}

-- `a < b` on the ids.
unfoldable pub id_lt : List ℕ → List ℕ → Bool
id_lt [] [] = false
id_lt [] (y ∷ ys) = true
id_lt (x ∷ xs) [] = false
id_lt (x ∷ xs) (y ∷ ys) = let rest = id_lt xs ys in if x == y then rest else ltb x y

abbrev same_time : Option ℕ → Option ℕ → Bool
same_time none b = false
same_time (some a) none = false
same_time (some a) (some b) = a == b

-- `compareCandidates(a, b) <= 0`: a may stand before b. NaN differs from every time, itself
-- included, and counts as 0 in the difference.
unfoldable pub before : AdmissionCandidate → AdmissionCandidate → Bool
unfolding id_lt
before a b =
    if not (a.priority == b.priority)
    then ltb b.priority a.priority
    else if not (same_time a.queued_at b.queued_at)
    then leb (or_default a.queued_at 0) (or_default b.queued_at 0)
    else not (id_lt (codes b.job_id) (codes a.job_id))

-- `[...candidates].sort(compareCandidates)`, which keeps the order of equals.
unfoldable pub insert_turn : Turn → List Turn → List Turn
insert_turn t [] = t ∷ []
insert_turn t (u ∷ us) = if before t.candidate u.candidate then t ∷ u ∷ us else u ∷ insert_turn t us

unfoldable pub sort_turns : List Turn → List Turn
unfolding insert_turn
sort_turns [] = []
sort_turns (t ∷ ts) = insert_turn t (sort_turns ts)

pub record PumpResult : Type 0 where
  pub area : Area
  pub decisions : List AdmissionDecision
  pub threw : Bool

abbrev pub and_then : Outcome AdmissionDecision → Area → PumpResult → PumpResult
and_then thrown a rest = record { area = a; decisions = []; threw = true }
and_then (returned d) a rest = record rest { decisions = d ∷ rest.decisions }

unfoldable pub decide_all : Host → Controller → List Turn → Area → PumpResult
unfolding decide
decide_all h k [] a = record { area = a; decisions = []; threw = false }
decide_all h k (t ∷ ts) a =
    let r = decide h k t a in and_then r.decision r.area (decide_all h k ts r.area)

unfoldable pub pump : Host → Controller → List Turn → Area → PumpResult
unfolding decide_all sort_turns
pump h k ts a = decide_all h k (sort_turns ts) a

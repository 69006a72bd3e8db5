-- ===== src/Controller/Ranking.antt =====
-- src/admission-controller.ts: `compareCandidates` as an order, and the pass in that order.
use codex_job_orchestrator.Common.{
  ℕ, ◌<◌, ◌≡◌, refl, ◌⊎◌, inl, inr, true, false, List, [], ◌∷◌, map, arith, All, codes, or_default,
  is_some, Bool-cases,
}
use codex_job_orchestrator.Admission.Types.{Host}
use codex_job_orchestrator.Admission.Files.{Area}
use codex_job_orchestrator.Controller.{AdmissionCandidate, Turn, Controller}
use codex_job_orchestrator.Controller.Pass.{id_lt, before, insert_turn, sort_turns, pump}
use codex_job_orchestrator.Controller.Order.{turn_id, decision_id, sort_turns-perm, decide_all-ids}
use mathlib.Core.List.{Perm}

id_lt_asym : (xs ys : List ℕ) → id_lt xs ys ≡ true → id_lt ys xs ≡ false
unfolding id_lt
id_lt_asym [] [] e = cc
id_lt_asym [] (y ∷ ys) e = refl
id_lt_asym (x ∷ xs) [] e = cc
id_lt_asym (x ∷ xs) (y ∷ ys) e = let rest = id_lt_asym xs ys in ground arith

id_lt_trans : (xs ys zs : List ℕ) → id_lt ys xs ≡ false → id_lt zs ys ≡ false → id_lt zs xs ≡ false
unfolding id_lt
id_lt_trans [] [] [] e f = refl
id_lt_trans [] (y ∷ ys) [] e f = cc
id_lt_trans (x ∷ xs) [] [] e f = cc
id_lt_trans (x ∷ xs) (y ∷ ys) [] e f = cc
id_lt_trans [] [] (z ∷ zs) e f = refl
id_lt_trans [] (y ∷ ys) (z ∷ zs) e f = refl
id_lt_trans (x ∷ xs) [] (z ∷ zs) e f = cc
id_lt_trans (x ∷ xs) (y ∷ ys) (z ∷ zs) e f = let rest = id_lt_trans xs ys zs in ground arith

abbrev pub IsDated : Turn → Type 0
IsDated t = is_some t.candidate.queued_at ≡ true

abbrev time_of : AdmissionCandidate → ℕ
time_of c = or_default c.queued_at 0

-- The higher priority first, then the earlier time, then the id that is not the later one.
abbrev pub IsAhead : AdmissionCandidate → AdmissionCandidate → Type 0
IsAhead a b =
    (b.priority < a.priority)
    ⊎ ((a.priority ≡ b.priority)
        × ((time_of a < time_of b)
            ⊎ ((time_of a ≡ time_of b) × (id_lt (codes b.job_id) (codes a.job_id) ≡ false))))

IsAhead-trans : (a b c : AdmissionCandidate) → IsAhead a b → IsAhead b c → IsAhead a c
IsAhead-trans a b c h i =
    let ids = id_lt_trans (codes a.job_id) (codes b.job_id) (codes c.job_id) in ground arith

before-IsAhead :
    (a b : AdmissionCandidate)
    → is_some a.queued_at ≡ true
    → is_some b.queued_at ≡ true
    → before a b ≡ true
    → IsAhead a b
unfolding before
before-IsAhead a b s t h = ground arith

before-IsBehind :
    (a b : AdmissionCandidate)
    → is_some a.queued_at ≡ true
    → is_some b.queued_at ≡ true
    → before a b ≡ false
    → IsAhead b a
unfolding before
before-IsBehind a b s t h = let ids = id_lt_asym (codes b.job_id) (codes a.job_id) in ground arith

-- Each turn is ahead of all that follow it.
abbrev pub IsInOrder : List Turn → Type 0
IsInOrder [] = Unit
IsInOrder (t ∷ ts) = All (λ u. IsAhead t.candidate u.candidate) ts × IsInOrder ts

insert_turn-All :
    (P : Turn → Type 0) (t : Turn) (us : List Turn) → P t → All P us → All P (insert_turn t us)
unfolding insert_turn
insert_turn-All P t [] p ps = (p, tt)
insert_turn-All P t (u ∷ us) p (q, qs) = elim (Bool-cases (before t.candidate u.candidate)) [
  | inl e ↦ rw e (p, (q, qs))
  | inr e ↦ rw e (q, insert_turn-All P t us p qs)
]

IsAhead-All :
    (a b : AdmissionCandidate) (us : List Turn)
    → IsAhead a b
    → All (λ u. IsAhead b u.candidate) us
    → All (λ u. IsAhead a u.candidate) us
IsAhead-All a b [] h v = tt
IsAhead-All a b (u ∷ us) h (v, vs) = (IsAhead-trans a b u.candidate h v, IsAhead-All a b us h vs)

insert_turn-IsInOrder :
    (t : Turn) (us : List Turn)
    → IsDated t
    → All IsDated us
    → IsInOrder us
    → IsInOrder (insert_turn t us)
unfolding insert_turn
insert_turn-IsInOrder t [] d ds o = (tt, tt)
insert_turn-IsInOrder t (u ∷ us) d (e, es) (o, os) =
    elim (Bool-cases (before t.candidate u.candidate)) [
      | inl b ↦
          let h = before-IsAhead t.candidate u.candidate d e b in
          rw b ((h, IsAhead-All t.candidate u.candidate us h o), (o, os))
      | inr b ↦ rw b (
        insert_turn-All (λ v. IsAhead u.candidate v.candidate) t us
            (before-IsBehind t.candidate u.candidate d e b) o,
        insert_turn-IsInOrder t us d es os,
      )
    ]

sort_turns-IsInOrder :
    (ts : List Turn) → All IsDated ts → All IsDated (sort_turns ts) × IsInOrder (sort_turns ts)
unfolding sort_turns
sort_turns-IsInOrder [] d = (tt, tt)
sort_turns-IsInOrder (t ∷ ts) (d, ds) =
    let (e, o) = sort_turns-IsInOrder ts ds in
    (insert_turn-All IsDated t (sort_turns ts) d e, insert_turn-IsInOrder t (sort_turns ts) d e o)

-- Unless an exception ends it, a pass over candidates whose queue times parse decides each exactly
-- once, and in the fixed order: each is ahead of all that are decided after it, by a higher
-- priority, by an earlier time, or by an id that is not the later one.
pub pump-IsInOrder :
    (h : Host) (k : Controller) (ts : List Turn) (a : Area)
    → All IsDated ts
    → (pump h k ts a).threw ≡ false
    → (us : List Turn) × Perm us ts
      × IsInOrder us
      × (map decision_id (pump h k ts a).decisions ≡ map turn_id us)
unfolding pump
pump-IsInOrder h k ts a d e = (
  sort_turns ts,
  sort_turns-perm ts,
  (sort_turns-IsInOrder ts d).1,
  decide_all-ids h k (sort_turns ts) a e,
)

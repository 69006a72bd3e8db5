-- ===== src/JobIndex/Shape.antt =====
-- src/job-index.ts: the queries of the index, and what an entry's lists gain and lose.
use codex_job_orchestrator.Common.{
  dict_get, dict_set, ℕ, zero, suc, ◌+◌, ◌-◌, ◌≤◌, String, ◌≡◌, refl, sym, ap, subst, ◌⊎◌, inl, inr,
  true, false, ◌&&◌, Option, none, some, List, [], ◌∷◌, arith, str_eq, eq_iff, eq_refl, Dict,
  one_if, dict_get-dict_set, dict_get-dict_delete, length, count_if, ltb, if◌then◌else◌, Bool-cases,
  Option-cases,
}
use codex_job_orchestrator.JobIndex.Types.{JobIndex}
use codex_job_orchestrator.JobIndex.Sessions.{
  contains, insert_at, remove_first, drop, set_or_delete, without,
}

abbrev pub list_of : Option (List String) → List String
list_of none = []
list_of (some xs) = xs

abbrev pub jobs_for_session : JobIndex → String → List String
jobs_for_session x s = list_of (dict_get s x.session_order)

abbrev pub reply_children_of : JobIndex → String → List String
reply_children_of x p = list_of (dict_get p x.reply_children)

-- How often c is in a list.
abbrev pub occurrences : String → List String → ℕ
occurrences c xs = count_if (str_eq c) xs

pub occurrences-insert_at :
    (c x : String) (n : ℕ) (xs : List String)
    → occurrences c (insert_at n x xs) ≡ occurrences c xs + one_if (str_eq c x)
occurrences-insert_at c x zero xs = ground arith
occurrences-insert_at c x (suc n) [] = ground arith
occurrences-insert_at c x (suc n) (y ∷ ys) = ground (arith, occurrences-insert_at c x n ys)

pub occurrences-remove_first :
    (c x : String) (xs : List String)
    → occurrences c (remove_first x xs) ≡ occurrences c xs - one_if (str_eq c x)
unfolding remove_first
occurrences-remove_first c x [] = ground arith
occurrences-remove_first c x (y ∷ ys) = elim (Bool-cases (str_eq x y)) [
  | inl e ↦ rw (e, ap (λ z. str_eq c z) ((eq_iff x y).0 e)) (ground arith)
  | inr e ↦
      let rest = occurrences-remove_first c x ys in
      elim (Bool-cases (str_eq c x)) [
        | inl h ↦ rw (e, rest, h, subst (λ z. str_eq z y ≡ false) (sym ((eq_iff c x).0 h)) e) refl
        | inr h ↦ rw (e, rest, h) (ground arith)
      ]
]

pub occurrences-drop :
    (c : String) (n : ℕ) (xs : List String) → occurrences c (drop n xs) ≤ occurrences c xs
occurrences-drop c zero xs = omega arith
occurrences-drop c (suc n) [] = omega arith
occurrences-drop c (suc n) (x ∷ xs) = ground (arith, occurrences-drop c n xs)

pub contains-occurrences :
    (c : String) (xs : List String) → contains c xs ≡ ltb 0 (occurrences c xs)
contains-occurrences c [] = refl
contains-occurrences c (x ∷ xs) = ground (arith, contains-occurrences c xs)

pub length-drop : (n : ℕ) (xs : List String) → length (drop n xs) ≡ length xs - n
length-drop zero xs = omega arith
length-drop (suc n) [] = omega arith
length-drop (suc n) (x ∷ xs) = ground (arith, length-drop n xs)

pub length-insert_at :
    (n : ℕ) (x : String) (xs : List String) → length (insert_at n x xs) ≡ suc (length xs)
length-insert_at zero x xs = refl
length-insert_at (suc n) x [] = refl
length-insert_at (suc n) x (y ∷ ys) = ap suc (length-insert_at n x ys)

pub length-remove_first :
    (x : String) (xs : List String)
    → length (remove_first x xs) ≡ length xs - one_if (contains x xs)
unfolding remove_first
length-remove_first x [] = refl
length-remove_first x (y ∷ ys) = ground (arith, length-remove_first x ys, positive-length x ys)
  where
    positive-length : (z : String) (zs : List String) → contains z zs ≡ true → 1 ≤ length zs
    positive-length z [] h = cc
    positive-length z (w ∷ ws) h = omega arith

-- The list at a key after an update of the dictionary.
pub list_of-dict_set :
    (k s : String) (v : List String) (d : Dict (List String))
    → list_of (dict_get s (dict_set k v d)) ≡ (if str_eq k s then v else list_of (dict_get s d))
list_of-dict_set k s v d = rw (dict_get-dict_set k s v d) (ground arith)

pub list_of-set_or_delete :
    (k s : String) (v : List String) (d : Dict (List String))
    → list_of (dict_get s (set_or_delete k v d))
      ≡ (if str_eq k s then v else list_of (dict_get s d))
list_of-set_or_delete k s [] d = rw (dict_get-dict_delete k s d) (ground arith)
list_of-set_or_delete k s (x ∷ xs) d = list_of-dict_set k s (x ∷ xs) d

pub occurrences-without :
    (c k x s : String) (d : Dict (List String))
    → occurrences c (list_of (dict_get s (without k x (dict_get k d) d)))
      ≡ occurrences c (list_of (dict_get s d)) - one_if (str_eq k s && str_eq c x)
occurrences-without c k x s d = elim (Bool-cases (str_eq k s)) [
  | inl e ↦
      subst
        (λ t.
          occurrences c (list_of (dict_get t (without k x (dict_get k d) d)))
          ≡ occurrences c (list_of (dict_get t d)) - one_if (str_eq k t && str_eq c x))
        ((eq_iff k s).0 e) (here (Option-cases (dict_get k d)))
  | inr e ↦ rw (e, there e (dict_get k d)) (omega arith)
]
  where
    there :
        str_eq k s ≡ false
        → (o : Option (List String))
        → list_of (dict_get s (without k x o d)) ≡ list_of (dict_get s d)
    there e none = refl
    there e (some list) = rw (list_of-set_or_delete k s (remove_first x list) d, e) refl

    here :
        (dict_get k d ≡ none) ⊎ ((a : List String) × (dict_get k d ≡ some a))
        → occurrences c (list_of (dict_get k (without k x (dict_get k d) d)))
          ≡ occurrences c (list_of (dict_get k d)) - one_if (str_eq k k && str_eq c x)
    here (inl e) = rw (e, e) (omega arith)
    here (inr (a, e)) =
        rw (e, list_of-set_or_delete k k (remove_first x a) d, eq_refl k)
          (occurrences-remove_first c x a)

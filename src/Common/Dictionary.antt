-- ===== src/Common/Dictionary.antt =====
-- The source's `Map` with text keys: entries in the order of their first insertion.
use codex_job_orchestrator.Common.Tests.{if◌then◌else◌, Bool-cases}
use codex_job_orchestrator.Common.Lists.{count_if}
use mathlib.Core.Path.{◌≡◌, refl, sym, ap, ◌∙◌, subst}
use Prim.Native.Nat.{ℕ, ◌+◌}
use mathlib.Core.Logic.{inl, inr}
use mathlib.Core.Bool.{Bool, true, false}
use mathlib.Core.Option.{Option, none, some}
use mathlib.Core.List.{List, [], ◌∷◌}
use Prim.Native.String.{String}
use native.Mathlib.Omega.{arith}
use text.Mathlib.Text.{◌==◌ as str_eq}
use text.Mathlib.TextEquality.{eq_iff}
use text.Mathlib.TextPositions.{eq_refl}

abbrev pub Dict {ℓ} : Type ℓ → Type ℓ
Dict A = List (String × A)

pub str_eq_sym : (n k : String) → str_eq n k ≡ false → str_eq k n ≡ false
str_eq_sym n k e = elim (Bool-cases (str_eq k n)) [
  | inl t ↦
      let x = subst (λ y. str_eq y k ≡ false) (sym ((eq_iff k n).0 t)) e in let r = eq_refl k in cc
  | inr f ↦ f
]

apart : (n k id : String) → str_eq n k ≡ false → str_eq n id ≡ true → str_eq k id ≡ false
apart n k id e h = subst (λ x. str_eq k x ≡ false) ((eq_iff n id).0 h) (str_eq_sym n k e)

abbrev pub one_if : Bool → ℕ
one_if true = 1
one_if false = 0

module _ {ℓ} {A : Type ℓ} where
  unfoldable pub dict_get : String → Dict A → Option A
  dict_get k [] = none
  dict_get k ((j, v) ∷ rest) = if str_eq j k then some v else dict_get k rest

  -- `set` keeps the place of a key that is there.
  unfoldable pub dict_set : String → A → Dict A → Dict A
  dict_set k v [] = (k, v) ∷ []
  dict_set k v ((j, w) ∷ rest) =
      let others = dict_set k v rest in if str_eq j k then (j, v) ∷ rest else (j, w) ∷ others

  unfoldable pub dict_delete : String → Dict A → Dict A
  dict_delete k [] = []
  dict_delete k ((j, w) ∷ rest) =
      let others = dict_delete k rest in if str_eq j k then others else (j, w) ∷ others

  same_key :
      (k id j : String) (v w : A) (d : Dict A)
      → str_eq j k ≡ true
      → dict_get id (dict_set k v ((j, w) ∷ d))
        ≡ (if str_eq k id then some v else dict_get id ((j, w) ∷ d))
  unfolding dict_get dict_set
  same_key k id j v w d e =
      rw (e, ap (λ x. str_eq x id) ((eq_iff j k).0 e)) (if_twice (str_eq k id))
    where
      if_twice :
          (b : Bool)
          → (if b then some v else dict_get id d)
            ≡ (if b then some v else (if b then some w else dict_get id d))
      if_twice true = refl
      if_twice false = refl

  pub dict_get-dict_set :
      (k id : String) (v : A) (d : Dict A)
      → dict_get id (dict_set k v d) ≡ (if str_eq k id then some v else dict_get id d)
  unfolding dict_get dict_set
  dict_get-dict_set k id v [] = refl
  dict_get-dict_set k id v ((j, w) ∷ d) = elim (Bool-cases (str_eq j k)) [
    | inl e ↦ same_key k id j v w d e
    | inr e ↦
        let rest = dict_get-dict_set k id v d in
        elim (Bool-cases (str_eq j id)) [
          | inl h ↦ rw (e, h, apart j k id e h) refl
          | inr h ↦ rw (e, h) rest
        ]
  ]

  pub dict_get-dict_delete :
      (k id : String) (d : Dict A)
      → dict_get id (dict_delete k d) ≡ (if str_eq k id then none else dict_get id d)
  unfolding dict_get dict_delete
  dict_get-dict_delete k id [] = ground arith
  dict_get-dict_delete k id ((j, w) ∷ d) =
      let rest = dict_get-dict_delete k id d in
      elim (Bool-cases (str_eq j k)) [
        | inl e ↦ rw (e, ap (λ x. str_eq x id) ((eq_iff j k).0 e)) (rest ∙ skip (str_eq k id))
        | inr e ↦ elim (Bool-cases (str_eq j id)) [
          | inl h ↦ rw (e, h, apart j k id e h) refl
          | inr h ↦ rw (e, h) rest
        ]
      ]
    where
      skip :
          (b : Bool)
          → (if b then none else dict_get id d)
            ≡ (if b then none else (if b then some w else dict_get id d))
      skip true = refl
      skip false = refl

  abbrev pub holds : (A → Bool) → Option A → Bool
  holds p none = false
  holds p (some a) = p a

  -- The values that satisfy p.
  abbrev pub tally : (A → Bool) → Dict A → ℕ
  tally p d = count_if (λ e. p e.1) d

  -- Setting a key takes its old value out of the count and puts the new one in.
  pub tally-dict_set :
      (p : A → Bool) (k : String) (v : A) (d : Dict A)
      → tally p (dict_set k v d) + one_if (holds p (dict_get k d)) ≡ tally p d + one_if (p v)
  unfolding dict_get dict_set
  tally-dict_set p k v [] = ground arith
  tally-dict_set p k v ((j, w) ∷ d) = ground (arith, tally-dict_set p k v d)

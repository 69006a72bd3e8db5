-- ===== src/Common/Values.antt =====
-- Values of the source's language as its modules receive them: numbers that may fail
-- `Number.isInteger`, and what `JSON.parse` returns.
use Prim.Native.Nat.{ℕ}
use Prim.Native.String.{String}
use Prim.Native.Nat.{◌≤◌}
use native.Mathlib.Omega.{arith}
use mathlib.Core.Path.{◌≡◌, refl}
use mathlib.Core.Bool.{Bool, true, false}
use mathlib.Core.Option.{Option, none, some}
use text.Mathlib.Text.{◌==◌ as str_eq}
use codex_job_orchestrator.Common.Tests.{leb, ◌==◌, if◌then◌else◌}
use codex_job_orchestrator.Common.Text.{is_empty}

-- `neg_int n` is -(n + 1); `non_int` stands for fractions, NaN and the infinities.
pub data Number : Type 0 where
  int : ℕ → Number
  neg_int : ℕ → Number
  non_int : Number

-- `Number.isInteger(n) && n >= 1`.
abbrev pub is_pos_int : Number → Bool
is_pos_int (int n) = leb 1 n
is_pos_int (neg_int n) = false
is_pos_int non_int = false

-- The value of a number that a check has found to be a non-negative integer.
abbrev pub to_nat : Number → ℕ
to_nat (int n) = n
to_nat (neg_int n) = 0
to_nat non_int = 0

-- `n === m` for an integer m.
abbrev pub is_int : ℕ → Number → Bool
is_int m (int n) = n == m
is_int m (neg_int n) = false
is_int m non_int = false

mutual
  pub data Json : Type 0 where
    null : Json
    bool : Bool → Json
    number : Number → Json
    string : String → Json
    array : Items → Json
    object : Fields → Json

  pub data Items : Type 0 where
    nil : Items
    cons : Json → Items → Items

  pub data Fields : Type 0 where
    end : Fields
    field : String → Json → Fields → Fields

abbrev pub get : String → Fields → Option Json
get k end = none
get k (field j v fs) = if str_eq j k then some v else get k fs

infixl 5 ◌>>=◌ ◌>>◌
abbrev pub ◌>>=◌ {ℓ κ} : {A : Type ℓ} {B : Type κ} → Option A → (A → Option B) → Option B
none >>= f = none
some a >>= f = f a

abbrev pub ◌>>◌ {ℓ} : {B : Type ℓ} → Option (Unit {0}) → Option B → Option B
m >> k = m >>= λ _. k

abbrev pub guard : Bool → Option (Unit {0})
guard true = some tt
guard false = none

abbrev pub as_text : Json → Option String
as_text (string s) = some s
as_text _ = none

abbrev pub as_number : Json → Option Number
as_number (number n) = some n
as_number _ = none

-- `typeof o[k] === 'string'`, then `.length > 0` as well.
unfoldable pub text_field : String → Fields → Option String
text_field k o = get k o >>= as_text

abbrev non_empty : String → Option String
non_empty s = if is_empty s then none else some s

unfoldable pub non_empty_field : String → Fields → Option String
unfolding text_field
non_empty_field k o = text_field k o >>= non_empty

abbrev positive : Number → Option ℕ
positive n = if is_pos_int n then some (to_nat n) else none

-- `typeof o[k] === 'number' && Number.isInteger(o[k]) && o[k] > 0`.
unfoldable pub pos_int_field : String → Fields → Option ℕ
pos_int_field k o = get k o >>= as_number >>= positive

-- Inversion of a chain that succeeds.
pub >>=-eq-some {ℓ κ} :
    {A : Type ℓ} {B : Type κ} (m : Option A) (f : A → Option B) {b : B}
    → (m >>= f) ≡ some b
    → (a : A) × (m ≡ some a) × (f a ≡ some b)
>>=-eq-some none f h = cc
>>=-eq-some (some a) f h = (a, refl, h)

non_empty-eq-some : (s t : String) → non_empty s ≡ some t → is_empty t ≡ false
non_empty-eq-some s t h = ground arith

pub non_empty_field-eq-some :
    (k : String) (o : Fields) (t : String) → non_empty_field k o ≡ some t → is_empty t ≡ false
unfolding non_empty_field
non_empty_field-eq-some k o t h =
    let (s, _, e) = >>=-eq-some (text_field k o) non_empty h in non_empty-eq-some s t e

positive-eq-some : (n : Number) (m : ℕ) → positive n ≡ some m → 1 ≤ m
positive-eq-some (int n) m h = ground arith
positive-eq-some (neg_int n) m h = cc
positive-eq-some non_int m h = cc

pub pos_int_field-eq-some : (k : String) (o : Fields) (m : ℕ) → pos_int_field k o ≡ some m → 1 ≤ m
unfolding pos_int_field
pos_int_field-eq-some k o m h =
    let (n, _, e) = >>=-eq-some (get k o >>= as_number) positive h in positive-eq-some n m e

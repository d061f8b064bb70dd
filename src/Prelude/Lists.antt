-- ===== src/Prelude/Lists.antt =====
-- Lists measured by native numbers, under the library's names.
use Prim.Native.Nat.{ℕ, zero, suc, ◌+◌, ◌<◌}
use mathlib.Core.Path.{◌≡◌, refl, ap}
use mathlib.Core.Bool.{true}
use heisentick_strat.Prelude.Tests.{is_some}
use mathlib.Core.List.{List, [], ◌∷◌, ◌++◌}
use mathlib.Core.Option.{Option, none, some}
use native.Mathlib.Omega.{arith}

module _ {ℓ} {A : Type ℓ} where
  abbrev pub length : List A → ℕ
  length [] = 0
  length (x ∷ xs) = suc (length xs)

  abbrev pub get_elem? : List A → ℕ → Option A
  get_elem? [] i = none
  get_elem? (x ∷ xs) zero = some x
  get_elem? (x ∷ xs) (suc i) = get_elem? xs i

  abbrev pub last? : List A → Option A
  last? [] = none
  last? (x ∷ []) = some x
  last? (x ∷ y ∷ xs) = last? (y ∷ xs)

  pub length-append : (xs ys : List A) → length (xs ++ ys) ≡ length xs + length ys
  length-append [] ys = omega arith
  length-append (x ∷ xs) ys = omega (arith, length-append xs ys)

-- A predicate of every element, which computes to tuples.
abbrev pub All {ℓ κ} : {A : Type ℓ} → (A → Type κ) → List A → Type κ
All P [] = Unit
All P (x ∷ xs) = P x × All P xs

pub All-append {ℓ κ} :
    {A : Type ℓ} (P : A → Type κ) (xs ys : List A) → All P xs → All P ys → All P (xs ++ ys)
All-append P [] ys hx hy = hy
All-append P (x ∷ xs) ys hx hy = (hx.0, All-append P xs ys hx.1 hy)

-- An index within the list reads an element.
pub get_elem?-is_some {ℓ} :
    {A : Type ℓ} (xs : List A) (i : ℕ) → i < length xs → is_some (get_elem? xs i) ≡ true
get_elem?-is_some [] i h = elim h [ ]
get_elem?-is_some (x ∷ xs) zero h = refl
get_elem?-is_some (x ∷ xs) (suc i) h = get_elem?-is_some xs i (omega arith)

-- A list of four elements, taken apart.
pub four_cases {ℓ κ} :
    {A : Type ℓ} (P : List A → Type κ)
    → ((a b c d : A) → P (a ∷ b ∷ c ∷ d ∷ []))
    → (xs : List A) → length xs ≡ 4
    → P xs
four_cases P f [] h = absurd (omega arith)
four_cases P f (a ∷ []) h = absurd (omega arith)
four_cases P f (a ∷ b ∷ []) h = absurd (omega arith)
four_cases P f (a ∷ b ∷ c ∷ []) h = absurd (omega arith)
four_cases P f (a ∷ b ∷ c ∷ d ∷ []) h = f a b c d
four_cases P f (a ∷ b ∷ c ∷ d ∷ e ∷ xs) h = absurd (omega arith)

pub length-snoc {ℓ} : {A : Type ℓ} (xs : List A) (x : A) → length (xs ++ x ∷ []) ≡ suc (length xs)
length-snoc [] x = refl
length-snoc (y ∷ ys) x = ap suc (length-snoc ys x)

-- ===== src/Sequential/Waiting.antt =====
-- engine/sequential_execution.go: which opportunities are still pending while events are accepted.
use mathlib.Core.Path.{subst}
use heisentick_strat.Prelude.{
  ℕ, Bool, List, Option, [], ap, arith, false, get_elem?, inl, inr, length, none, refl, some, suc,
  true, zero, ◌++◌, ◌==◌, ◌||◌, ◌∷◌, ◌≡◌, ◌⊎◌,
}
use heisentick_strat.Sequential.Types.{Opportunity, Status, pending}
use heisentick_strat.Sequential.Fill.{set_at}

abbrev pub is_pending : Status → Bool
is_pending pending = true
is_pending _ = false

unfoldable pub listed : ℕ → List ℕ → Bool
listed k [] = false
listed k (j ∷ js) = k == j || listed k js

abbrev pub is_index : Option ℕ → ℕ → Bool
is_index none k = false
is_index (some j) k = k == j

-- Every pending opportunity is the one that waits for a fill, or a candidate.
abbrev pub Awaited : Option ℕ → List ℕ → List Opportunity → Type 0
Awaited waiting candidates os =
    (k : ℕ) (o : Opportunity)
    → get_elem? os k ≡ some o
    → is_pending o.status ≡ true
    → is_index waiting k || listed k candidates ≡ true

pub length-set_at {ℓ} :
    {A : Type ℓ} (j : ℕ) (y : A) (xs : List A) → length (set_at j y xs) ≡ length xs
unfolding set_at
length-set_at j y [] = refl
length-set_at zero y (x ∷ xs) = refl
length-set_at (suc j) y (x ∷ xs) = ap suc (length-set_at j y xs)

get_elem?-set_at {ℓ} :
    {A : Type ℓ} (j : ℕ) (y : A) (xs : List A) (k : ℕ) (o : A)
    → get_elem? (set_at j y xs) k ≡ some o
    → (y ≡ o) ⊎ ((k == j ≡ false) × (get_elem? xs k ≡ some o))
unfolding set_at
get_elem?-set_at j y [] k o e = absurd (ground arith)
get_elem?-set_at zero y (x ∷ xs) zero o e = inl (ground arith)
get_elem?-set_at zero y (x ∷ xs) (suc k) o e = inr (ground arith, e)
get_elem?-set_at (suc j) y (x ∷ xs) zero o e = inr (ground arith, e)
get_elem?-set_at (suc j) y (x ∷ xs) (suc k) o e = elim (get_elem?-set_at j y xs k o e) [
  | inl h ↦ inl h
  | inr h ↦ inr (ground arith, h.1)
]

get_elem?-snoc {ℓ} :
    {A : Type ℓ} (xs : List A) (y : A) (k : ℕ) (o : A)
    → get_elem? (xs ++ y ∷ []) k ≡ some o
    → ((k == length xs ≡ true) × (y ≡ o)) ⊎ (get_elem? xs k ≡ some o)
get_elem?-snoc [] y zero o e = inl (ground arith, ground arith)
get_elem?-snoc [] y (suc k) o e = absurd (ground arith)
get_elem?-snoc (x ∷ xs) y zero o e = inr e
get_elem?-snoc (x ∷ xs) y (suc k) o e = elim (get_elem?-snoc xs y k o e) [
  | inl h ↦ inl (ground arith, h.1)
  | inr h ↦ inr h
]

-- An opportunity that is decided leaves the candidates.
pub set_at-Awaited :
    (waiting : Option ℕ) (candidates : List ℕ) (os : List Opportunity) (j : ℕ) (y : Opportunity)
    → Awaited waiting (j ∷ candidates) os
    → is_pending y.status ≡ false
    → Awaited waiting candidates (set_at j y os)
unfolding listed
set_at-Awaited waiting candidates os j y h d k o e p = elim (get_elem?-set_at j y os k o e) [
  | inl q ↦ absurd (decided_pending y o d q p)
  | inr g ↦ let a = h k o g.1 p in ground arith
]
  where
    decided_pending :
        (y o : Opportunity) → is_pending y.status ≡ false → y ≡ o → is_pending o.status ≡ true → ⊥
    decided_pending y o d q p =
        let d' : is_pending o.status ≡ false = subst (λ x. is_pending x.status ≡ false) q d in
        ground arith

-- An opportunity that is appended becomes a candidate.
pub snoc-Awaited :
    (waiting : Option ℕ) (candidates : List ℕ) (os : List Opportunity) (y : Opportunity)
    → Awaited waiting candidates os
    → Awaited waiting (length os ∷ candidates) (os ++ y ∷ [])
unfolding listed
snoc-Awaited waiting candidates os y h k o e p = elim (get_elem?-snoc os y k o e) [
  | inl q ↦ let a = q.0 in ground arith
  | inr g ↦ let a = h k o g p in ground arith
]

listed-snoc : (k j : ℕ) (js : List ℕ) → listed k (js ++ j ∷ []) ≡ listed k (j ∷ js)
unfolding listed
listed-snoc k j [] = refl
listed-snoc k j (x ∷ js) = let h = listed-snoc k j js in ground arith

-- The last candidate may be listed first.
pub last-Awaited :
    (waiting : Option ℕ) (candidates : List ℕ) (os : List Opportunity) (j : ℕ)
    → Awaited waiting (j ∷ candidates) os
    → Awaited waiting (candidates ++ j ∷ []) os
last-Awaited waiting candidates os j h k o e p =
    let l = listed-snoc k j candidates in let a = h k o e p in ground arith

-- A candidate that is taken waits for a fill.
pub taken-Awaited :
    (candidates : List ℕ) (os : List Opportunity) (j : ℕ)
    → Awaited none (j ∷ candidates) os
    → Awaited (some j) candidates os
unfolding listed
taken-Awaited candidates os j h k o e p = let a = h k o e p in ground arith

-- What waits for a fill may be listed as a candidate.
pub released-Awaited :
    (os : List Opportunity) (j : ℕ) → Awaited (some j) [] os → Awaited none (j ∷ []) os
unfolding listed
released-Awaited os j h k o e p = let a = h k o e p in ground arith

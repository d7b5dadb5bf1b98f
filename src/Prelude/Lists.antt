-- ===== src/Prelude/Lists.antt =====
-- Lists measured by native numbers, and the predicate that holds of every item.
use Prim.Native.Nat.{ℕ, suc, ◌+◌}
use mathlib.Core.Path.{◌≡◌, refl}
use mathlib.Core.List.{List, [], ◌∷◌, ◌++◌}
use mathlib.Core.Bool.{Bool, true, false, ◌||◌}
use native.Mathlib.Omega.{arith}
use text.Mathlib.Text.{◌==◌}
use text.Mathlib.TextEquality.{eq_iff}
use Prim.Native.String.{String}

module _ {ℓ} {A : Type ℓ} where
  abbrev pub length : List A → ℕ
  length [] = 0
  length (x ∷ xs) = suc (length xs)

  pub length-append : (xs ys : List A) → length (xs ++ ys) ≡ length xs + length ys
  length-append [] ys = omega arith
  length-append (x ∷ xs) ys = omega (arith, length-append xs ys)

abbrev pub All {ℓ κ} : {A : Type ℓ} → (A → Type κ) → List A → Type κ
All P [] = Unit
All P (x ∷ xs) = P x × All P xs

pub All-append {ℓ κ} :
    {A : Type ℓ} (Q : A → Type κ) (front back : List A)
    → All Q front
    → All Q back
    → All Q (front ++ back)
All-append Q [] back _ all_back = all_back
All-append Q (_ ∷ front) back (first, others) all_back =
    (first, All-append Q front back others all_back)

pub All-map {ℓ κ} :
    {A : Type ℓ} {P Q : A → Type κ} → ((x : A) → P x → Q x) → (xs : List A) → All P xs → All Q xs
All-map f [] h = h
All-map f (x ∷ xs) h = (f x h.0, All-map f xs h.1)

-- Whether a text stands in a list of texts.
abbrev pub contains : String → List String → Bool
contains s [] = false
contains s (v ∷ vs) = elim (s == v) [ true ↦ true | false ↦ contains s vs ]

-- No text stands twice in the list.
abbrev pub IsDistinct : List String → Type 0
IsDistinct [] = Unit
IsDistinct (x ∷ xs) = (contains x xs ≡ false) × IsDistinct xs

pub contains-snoc :
    (c y : String) (xs : List String) → contains c (xs ++ y ∷ []) ≡ (contains c xs || c == y)
contains-snoc c y [] = ground arith
contains-snoc c y (x ∷ xs) = ground (arith, contains-snoc c y xs)

pub IsDistinct-snoc :
    (y : String) (xs : List String)
    → IsDistinct xs
    → contains y xs ≡ false
    → IsDistinct (xs ++ y ∷ [])
IsDistinct-snoc y [] d h = (refl, tt)
IsDistinct-snoc y (x ∷ xs) d h = (
  ground (arith, contains-snoc x y xs, eq_iff x y, eq_iff y x),
  IsDistinct-snoc y xs d.1 (ground arith),
)

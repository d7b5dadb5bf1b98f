-- ===== src/Prelude/Slots.antt =====
-- Lists whose items are read and written by their index, and sums over them.
use Prim.Native.Nat.{ℕ, zero, suc, ◌+◌, ◌<◌}
use mathlib.Core.Path.{◌≡◌, refl}
use mathlib.Core.Option.{Option, none, some}
use mathlib.Core.List.{List, [], ◌∷◌, ◌++◌}
use native.Mathlib.Decide.{dec_lt}
use native.Mathlib.Omega.{arith}
use lantern_client.Prelude.Tests.{eqb, if◌then◌else◌, some_eq}
use lantern_client.Prelude.Lists.{All}

module _ {ℓ} {A : Type ℓ} where
  unfoldable pub get_elem? : List A → ℕ → Option A
  get_elem? [] i = none
  get_elem? (x ∷ xs) zero = some x
  get_elem? (x ∷ xs) (suc i) = get_elem? xs i

  -- A write out of bounds changes nothing.
  unfoldable pub set : List A → ℕ → A → List A
  set [] i v = []
  set (x ∷ xs) zero v = v ∷ xs
  set (x ∷ xs) (suc i) v = x ∷ set xs i v

  pub get_elem?-set :
      (xs : List A) (i j : ℕ) (old new : A)
      → get_elem? xs i ≡ some old
      → get_elem? (set xs i new) j ≡ (if eqb i j then some new else get_elem? xs j)
  unfolding get_elem? set
  get_elem?-set [] i j old new h = cc
  get_elem?-set (x ∷ xs) zero zero old new h = refl
  get_elem?-set (x ∷ xs) zero (suc j) old new h = ground arith
  get_elem?-set (x ∷ xs) (suc i) zero old new h = ground arith
  get_elem?-set (x ∷ xs) (suc i) (suc j) old new h = ground (arith, get_elem?-set xs i j old new h)

  pub get_elem?-snoc :
      (xs : List A) (i : ℕ) (x a : A)
      → get_elem? xs i ≡ some x
      → get_elem? (xs ++ a ∷ []) i ≡ some x
  unfolding get_elem?
  get_elem?-snoc [] i x a h = cc
  get_elem?-snoc (y ∷ xs) zero x a h = h
  get_elem?-snoc (y ∷ xs) (suc i) x a h = get_elem?-snoc xs i x a h

  pub All-get_elem? :
      (P : A → Type 0) (xs : List A) (i : ℕ) (x : A) → All P xs → get_elem? xs i ≡ some x → P x
  unfolding get_elem?
  All-get_elem? P [] i x h at = cc
  All-get_elem? P (y ∷ xs) zero x h at = rw (← some_eq at) h.0
  All-get_elem? P (y ∷ xs) (suc i) x h at = All-get_elem? P xs i x h.1 at

  pub All-set : (P : A → Type 0) (xs : List A) (i : ℕ) (a : A) → All P xs → P a → All P (set xs i a)
  unfolding set
  All-set P [] i a h p = tt
  All-set P (y ∷ xs) zero a h p = (p, h.1)
  All-set P (y ∷ xs) (suc i) a h p = (h.0, All-set P xs i a h.1 p)

  -- The sum of the weights of the items.
  unfoldable pub total : (A → ℕ) → List A → ℕ
  total w [] = 0
  total w (x ∷ xs) = w x + total w xs

  pub total-snoc : (w : A → ℕ) (xs : List A) (a : A) → total w (xs ++ a ∷ []) ≡ total w xs + w a
  unfolding total
  total-snoc w [] a = omega arith
  total-snoc w (x ∷ xs) a = omega (arith, total-snoc w xs a)

  pub total-set :
      (w : A → ℕ) (xs : List A) (i : ℕ) (old new : A)
      → get_elem? xs i ≡ some old
      → total w (set xs i new) + w old ≡ total w xs + w new
  unfolding total get_elem? set
  total-set w [] i old new h = cc
  total-set w (x ∷ xs) zero old new h = ground arith
  total-set w (x ∷ xs) (suc i) old new h = omega (arith, total-set w xs i old new h)

  -- A sum that is not 0 has an item that weighs something.
  pub total-found :
      (w : A → ℕ) (xs : List A)
      → 0 < total w xs
      → (i : ℕ) × (x : A) × (get_elem? xs i ≡ some x) × (0 < w x)
  unfolding total get_elem?
  total-found w [] h = absurd (omega arith)
  total-found w (x ∷ xs) h = elim (dec_lt 0 (w x)) [
    | yes heavy ↦ (0, x, refl, heavy)
    | no light ↦ let (i, y, at, heavy) = total-found w xs (omega arith) in (suc i, y, at, heavy)
  ]

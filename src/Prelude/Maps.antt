-- ===== src/Prelude/Maps.antt =====
-- A Go map with string keys, as the list of its entries. Go enumerates a map in any order: a
-- statement about every list of entries is one about every order.
use Prim.Native.String.{String}
use mathlib.Core.Path.{◌≡◌, refl, ap, ◌∙◌}
use mathlib.Core.Option.{Option, none, some}
use mathlib.Core.List.{List, [], ◌∷◌}
use native.Mathlib.Omega.{arith}
use text.Mathlib.Text.{◌==◌}
use text.Mathlib.TextEquality.{eq_iff}
use lantern_client.Prelude.Tests.{if◌then◌else◌}

abbrev pub Dict {ℓ} : Type ℓ → Type ℓ
Dict V = List (String × V)

module _ {ℓ} {V : Type ℓ} where
  -- `v, ok := m[k]`
  unfoldable pub lookup : String → Dict V → Option V
  lookup name [] = none
  lookup name ((key, value) ∷ rest) =
      let later = lookup name rest in if key == name then some value else later

  -- `m[k] = v`
  unfoldable pub insert : String → V → Dict V → Dict V
  insert name new [] = (name, new) ∷ []
  insert name new ((key, old) ∷ rest) =
      let later = insert name new rest in
      if key == name then (name, new) ∷ rest else (key, old) ∷ later

  -- `delete(m, k)`
  unfoldable pub erase : String → Dict V → Dict V
  erase k [] = []
  erase k ((j, v) ∷ m) = let rest = erase k m in if j == k then rest else (j, v) ∷ rest

  -- `for k, v := range entries { m[k] = v }`
  unfoldable pub insert_all : Dict V → Dict V → Dict V
  insert_all [] m = m
  insert_all ((k, v) ∷ es) m = insert_all es (insert k v m)

  -- The last write of a list of writes wins.
  unfoldable pub last_write : String → Dict V → Option V → Option V
  last_write j [] o = o
  last_write j ((k, v) ∷ es) o = last_write j es (if k == j then some v else o)

  -- A write is seen under its own key alone.
  pub lookup-insert :
      (name other : String) (new : V) (entries : Dict V)
      → lookup other (insert name new entries)
        ≡ (if name == other then some new else lookup other entries)
  unfolding insert lookup
  lookup-insert name other new [] = refl
  lookup-insert name other new ((key, old) ∷ rest) = ground (
    arith,
    lookup-insert name other new rest,
    eq_iff key other,
    eq_iff key name,
    eq_iff name other,
  )

  pub lookup-erase :
      (k j : String) (m : Dict V) → lookup j (erase k m) ≡ (if k == j then none else lookup j m)
  unfolding lookup erase
  lookup-erase k j [] = ground arith
  lookup-erase k j ((i, w) ∷ m) =
      ground (arith, lookup-erase k j m, eq_iff i k, eq_iff i j, eq_iff k j)

  pub lookup-insert_all :
      (es : Dict V) (m : Dict V) (j : String)
      → lookup j (insert_all es m) ≡ last_write j es (lookup j m)
  unfolding insert_all last_write
  lookup-insert_all [] m j = refl
  lookup-insert_all ((k, v) ∷ es) m j =
      lookup-insert_all es (insert k v m) j ∙ ap (last_write j es) (lookup-insert k j v m)

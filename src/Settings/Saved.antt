-- ===== src/Settings/Saved.antt =====
-- What the settings file and the UI get of the map (`mapToSave` and `uiMap` of
-- desktop/app/settings.go).
use lantern_client.Prelude.{
  ◌≡◌, String, Option, none, some, [], ◌∷◌, Dict, lookup, lookup-insert, eq_iff, arith,
  if◌then◌else◌, ◌>>=◌,
}
use lantern_client.Settings.Value.{Value}
use lantern_client.Settings.Names.{meta_of}
use lantern_client.Settings.Store.{map_to_save, shows}

-- The file has the entries of the settings that the table marks as persistent, with their values,
-- and no others.
lookup-map_to_save :
    (j : String) (m : Dict Value)
    → lookup j (map_to_save m) ≡ (if (meta_of j).persist then lookup j m else none)
unfolding map_to_save lookup
lookup-map_to_save j [] = ground arith
lookup-map_to_save j ((k, v) ∷ m) =
    ground (arith, lookup-insert k j v (map_to_save m), lookup-map_to_save j m, eq_iff k j)

-- A Go map has one entry for a key.
abbrev pub HasKeysOnce {ℓ} : {V : Type ℓ} → Dict V → Type ℓ
HasKeysOnce [] = Unit
HasKeysOnce ((k, v) ∷ m) = (lookup k m ≡ none) × HasKeysOnce m

-- What of an entry the UI gets.
abbrev pub visible : String → Option Value → Option Value
visible k none = none
visible k (some v) = shows (meta_of k) v >>= λ shown. if shown then some v else none

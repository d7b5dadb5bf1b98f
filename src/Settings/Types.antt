-- ===== src/Settings/Types.antt =====
-- The types that the values of the settings have by the table, and that a write of values of those
-- types keeps (desktop/app/settings.go).
use lantern_client.Prelude.{
  ◌≡◌, String, Bool, false, true, Option, none, some, [], ◌∷◌, Dict, lookup, insert, insert_all,
  Bool-cases, inl, inr, ◌==◌, Ensures, Ensures-bind,
}
use lantern_client.Settings.Value.{Value, bool, int, int64, string, bytes, strings, array}
use lantern_client.Settings.Names.{
  SettingType, st_bool, st_number, st_string, st_string_array, Meta, setting_meta, meta_of, or_zero,
}
use lantern_client.Settings.Store.{
  Settings, notify_ui, save, notify_ui, on_change, on_changes, set_vals, ui_map, shows,
  show_nonempty,
}

-- The dynamic types that a setting of each kind may hold. The salt is text in the table and is
-- stored as bytes.
abbrev pub HasType : SettingType → Value → Type 0
HasType st_bool (bool b) = Unit
HasType st_bool v = ⊥
HasType st_number (int z) = Unit
HasType st_number (int64 z) = Unit
HasType st_number v = ⊥
HasType st_string (string t) = Unit
HasType st_string (bytes b) = Unit
HasType st_string v = ⊥
HasType st_string_array (strings a) = Unit
HasType st_string_array (array a) = Unit
HasType st_string_array v = ⊥

abbrev FitsMeta : Option Meta → Value → Type 0
FitsMeta none v = Unit
FitsMeta (some t) v = HasType t.s_type v

-- The value fits the table's entry for the name, if there is one.
unfoldable pub Fits : String → Value → Type 0
Fits k v = FitsMeta (lookup k setting_meta) v

abbrev pub IsWellTyped : Dict Value → Type 0
IsWellTyped [] = Unit
IsWellTyped ((k, v) ∷ m) = Fits k v × IsWellTyped m

nonempty-HasType :
    (t : SettingType) (v : Value) → HasType t v → Ensures (λ _. Unit {0}) (show_nonempty t v)
unfolding show_nonempty
nonempty-HasType st_bool (bool b) h = tt
nonempty-HasType st_number (int z) h = tt
nonempty-HasType st_number (int64 z) h = tt
nonempty-HasType st_string (string t) h = tt
nonempty-HasType st_string (bytes b) h = tt
nonempty-HasType st_string_array (strings a) h = tt
nonempty-HasType st_string_array (array a) h = tt
nonempty-HasType _ _ h = absurd h

shows-HasType : (t : Meta) (v : Value) → HasType t.s_type v → Ensures (λ _. Unit {0}) (shows t v)
unfolding shows
shows-HasType t v h = elim (Bool-cases t.omitempty) [
  | inl e ↦ rw e (nonempty-HasType t.s_type v h)
  | inr e ↦ rw e tt
]

shows-FitsMeta :
    (o : Option Meta) (v : Value) → FitsMeta o v → Ensures (λ _. Unit {0}) (shows (or_zero o) v)
shows-FitsMeta none v h = unfold shows in tt
shows-FitsMeta (some t) v h = shows-HasType t v h

-- A well-typed map can be shown to the UI.
pub ui_map-IsWellTyped : (m : Dict Value) → IsWellTyped m → Ensures (λ _. Unit {0}) (ui_map m)
unfolding ui_map
ui_map-IsWellTyped [] h = tt
ui_map-IsWellTyped ((k, v) ∷ m) h =
    Ensures-bind (λ _. Unit {0}) (λ _. Unit {0}) (shows (meta_of k) v) _
      (unfold meta_of Fits in shows-FitsMeta (lookup k setting_meta) v h.0)
      λ b _.
        Ensures-bind (λ _. Unit {0}) (λ _. Unit {0}) (ui_map m) _ (ui_map-IsWellTyped m h.1)
          λ r _. tt

insert-IsWellTyped :
    (k : String) (v : Value) (m : Dict Value)
    → Fits k v
    → IsWellTyped m
    → IsWellTyped (insert k v m)
unfolding insert
insert-IsWellTyped k v [] f h = (f, tt)
insert-IsWellTyped k v ((j, w) ∷ m) f h = elim (Bool-cases (j == k)) [
  | inl e ↦ rw e (f, h.1)
  | inr e ↦ rw e (h.0, insert-IsWellTyped k v m f h.1)
]

pub insert_all-IsWellTyped :
    (es m : Dict Value) → IsWellTyped es → IsWellTyped m → IsWellTyped (insert_all es m)
unfolding insert_all
insert_all-IsWellTyped [] m f h = h
insert_all-IsWellTyped ((k, v) ∷ es) m f h =
    insert_all-IsWellTyped es (insert k v m) f.1 (insert-IsWellTyped k v m f.0 h)

-- The invariant of the store.
abbrev pub IsTyped : Settings → Type 0
IsTyped s = IsWellTyped s.m

notify_ui-IsTyped : (b : Bool) (s : Settings) → IsTyped s → Ensures IsTyped (notify_ui b s)
unfolding notify_ui
notify_ui-IsTyped false s h = h
notify_ui-IsTyped true s h =
    Ensures-bind (λ _. Unit {0}) IsTyped (ui_map s.m) _ (ui_map-IsWellTyped s.m h) λ r _. h

on_change-IsTyped :
    (k : String) (v : Value) (s : Settings) → IsTyped s → Ensures IsTyped (on_change k v s)
unfolding on_change
on_change-IsTyped k v s h = notify_ui-IsTyped s.ws_out _ h

on_changes-IsTyped :
    (vals : Dict Value) (s : Settings) → IsTyped s → Ensures IsTyped (on_changes vals s)
unfolding on_changes
on_changes-IsTyped [] s h = h
on_changes-IsTyped ((k, v) ∷ vals) s h =
    Ensures-bind IsTyped IsTyped (on_change k v s) _ (on_change-IsTyped k v s h)
      (on_changes-IsTyped vals)

-- Values that fit their names are stored, and the store stays typed.
pub set_vals-IsTyped :
    (vals : Dict Value) (s : Settings)
    → IsWellTyped vals
    → IsTyped s
    → Ensures IsTyped (set_vals vals s)
unfolding set_vals save
set_vals-IsTyped vals s f h = on_changes-IsTyped vals _ (insert_all-IsWellTyped vals s.m f h)

-- A value whose name has that type in the table may be stored under the name.
pub Fits-of :
    (k : String) (v : Value) (t : Meta)
    → lookup k setting_meta ≡ some t
    → HasType t.s_type v
    → Fits k v
unfolding Fits
Fits-of k v t e h = rw e h

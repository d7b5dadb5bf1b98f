-- ===== src/Settings/Store.antt =====
-- The settings store of desktop/app/settings.go: reading, writing, saving and change notices.
use lantern_client.Prelude.{
  ℕ, zero, String, Bool, true, false, not, Option, none, some, List, [], ◌∷◌, ◌++◌, Dict, lookup,
  insert, insert_all, ℤ, pos, if◌then◌else◌, ◌==◌, ◌>>=◌,
}
use lantern_client.Settings.Value.{
  Value, nil, bool, int, int64, number, string, bytes, strings, array, sprint_all, parse_int64,
}
use lantern_client.Settings.Names.{
  SettingType, st_bool, st_number, st_string, st_string_array, Meta, meta_of, sn_user_id,
  sn_user_token,
}

-- What the store does to the world: a write of the settings file, a call of a change callback, a
-- message to the UI.
pub data Event : Type 0 where
  saved : Dict Value → Event
  called : ℕ → Value → Event
  sent : Dict Value → Event

-- `Settings`. Callbacks are named by numbers; `ws_out` says whether a UI channel is attached.
pub record Settings : Type 0 where
  pub m : Dict Value
  pub change_notifiers : Dict (List ℕ)
  pub ws_out : Bool
  pub events : List Event

-- The entries that `mapToSave` copies.
unfoldable pub map_to_save : Dict Value → Dict Value
map_to_save [] = []
map_to_save ((k, v) ∷ m) =
    let rest = map_to_save m in if (meta_of k).persist then insert k v rest else rest

is_zero : ℤ → Bool
is_zero (pos zero) = true
is_zero _ = false

-- Whether a value of a setting that omits empty values is shown; `none` is the panic of `v.(bool)`.
unfoldable pub show_nonempty : SettingType → Value → Option Bool
unfolding is_zero
show_nonempty t nil = some false
show_nonempty st_bool (bool b) = some b
show_nonempty st_bool v = none
show_nonempty st_string (string s) = some (not (s == ""))
show_nonempty st_string v = some true
show_nonempty st_string_array (strings a) = some true
show_nonempty st_string_array v = some false
show_nonempty st_number (int z) = some (not (is_zero z))
show_nonempty st_number v = some true

unfoldable pub shows : Meta → Value → Option Bool
unfolding show_nonempty
shows t v = if t.omitempty then show_nonempty t.s_type v else some true

-- `uiMap`.
unfoldable pub ui_map : Dict Value → Option (Dict Value)
ui_map [] = some []
ui_map ((k, v) ∷ m) =
    let rest = ui_map m in
    shows (meta_of k) v >>= λ shown. rest >>= λ r. some (if shown then insert k v r else r)

abbrev pub emit : List Event → Settings → Settings
emit es s = record s { events = s.events ++ es }

-- `save`: what is written. A failure of the disk is logged and changes nothing else.
unfoldable pub save : Settings → Settings
save s = emit (saved (map_to_save s.m) ∷ []) s

abbrev or_empty : Option (List ℕ) → List ℕ
or_empty none = []
or_empty (some l) = l

unfoldable pub calls : List ℕ → Value → List Event
calls [] v = []
calls (cb ∷ cbs) v = called cb v ∷ calls cbs v

-- `onChange`: the callbacks of the setting, then the whole map to the UI if a channel is attached.
unfoldable pub notify_ui : Bool → Settings → Option Settings
notify_ui false s = some s
notify_ui true s = do shown ← ui_map s.m; some (emit (sent shown ∷ []) s)

unfoldable pub on_change : String → Value → Settings → Option Settings
on_change attr value s =
    notify_ui s.ws_out (emit (calls (or_empty (lookup attr s.change_notifiers)) value) s)

unfoldable pub on_changes : Dict Value → Settings → Option Settings
on_changes [] s = some s
on_changes ((k, v) ∷ vals) s = on_change k v s >>= λ s'. on_changes vals s'

-- `setVals`: all the values, then one save, then the notices.
unfoldable pub set_vals : Dict Value → Settings → Option Settings
set_vals vals s = on_changes vals (save (record s { m = insert_all vals s.m }))

unfoldable pub set_val : String → Value → Settings → Option Settings
set_val name v s = set_vals ((name, v) ∷ []) s

-- `OnChange`.
unfoldable pub add_notifier : String → ℕ → Settings → Settings
add_notifier attr cb s = record s {
  change_notifiers =
      insert attr (or_empty (lookup attr s.change_notifiers) ++ cb ∷ []) s.change_notifiers;
}

unfoldable pub set_bool : String → Value → Settings → Option Settings
set_bool name (bool b) s = set_val name (bool b) s
set_bool name v s = some s

unfoldable pub set_int64 : String → Value → Settings → Option Settings
set_int64 name (int64 z) s = set_val name (int64 z) s
set_int64 name v s = some s

set_parsed : String → Option ℤ → Settings → Option Settings
set_parsed name none s = some s
set_parsed name (some z) s = set_val name (int64 z) s

unfoldable pub set_num : String → Value → Settings → Option Settings
unfolding set_parsed
set_num name (number t) s = set_parsed name (parse_int64 t) s
set_num name v s = some s

unfoldable pub set_string : String → Value → Settings → Option Settings
set_string name (string t) s = set_val name (string t) s
set_string name v s = some s

unfoldable pub set_string_array : (Value → String) → String → Value → Settings → Option Settings
set_string_array sprint name nil s = set_val name (strings []) s
set_string_array sprint name (strings sa) s = set_val name (strings sa) s
set_string_array sprint name (array ss) s = set_val name (strings (sprint_all sprint ss)) s
set_string_array sprint name v s = some s

-- `SetUserIDAndToken`.
unfoldable pub set_user_id_and_token : ℤ → String → Settings → Option Settings
set_user_id_and_token id token s =
    set_vals ((sn_user_id, int64 id) ∷ (sn_user_token, string token) ∷ []) s

as_bool : Option Value → Bool
as_bool (some (bool b)) = b
as_bool _ = false

unfoldable pub get_bool : String → Settings → Bool
unfolding as_bool
get_bool name s = as_bool (lookup name s.m)

as_string : Option Value → String
as_string (some (string t)) = t
as_string _ = ""

unfoldable pub get_string : String → Settings → String
unfolding as_string
get_string name s = as_string (lookup name s.m)

as_int64 : Option Value → ℤ
as_int64 (some (int64 z)) = z
as_int64 (some (int z)) = z
as_int64 _ = pos 0

unfoldable pub get_int64 : String → Settings → ℤ
unfolding as_int64
get_int64 name s = as_int64 (lookup name s.m)

as_bytes : Option Value → List ℕ
as_bytes (some (bytes b)) = b
as_bytes _ = []

unfoldable pub get_bytes : String → Settings → List ℕ
unfolding as_bytes
get_bytes name s = as_bytes (lookup name s.m)

as_string_array : (Value → String) → Option Value → List String
as_string_array sprint (some (strings a)) = a
as_string_array sprint (some (array a)) = sprint_all sprint a
as_string_array sprint _ = []

unfoldable pub get_string_array : (Value → String) → String → Settings → List String
unfolding as_string_array
get_string_array sprint name s = as_string_array sprint (lookup name s.m)

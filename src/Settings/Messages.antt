-- ===== src/Settings/Messages.antt =====
-- The loop of desktop/app/settings.go that applies what the UI sends (`Settings.read`).
use lantern_client.Prelude.{String, Option, none, some, [], ◌∷◌, Dict, lookup, ◌>>=◌}
use lantern_client.Settings.Value.{Value, object, entries}
use lantern_client.Settings.Names.{
  SettingType, st_bool, st_number, st_string, st_string_array, Meta, setting_meta,
}
use lantern_client.Settings.Store.{
  Settings, sent, emit, ui_map, set_bool, set_num, set_string, set_string_array,
}

module _ (sprint : Value → String) where
  unfoldable pub set_typed : SettingType → String → Value → Settings → Option Settings
  set_typed st_bool name v s = set_bool name v s
  set_typed st_string name v s = set_string name v s
  set_typed st_number name v s = set_num name v s
  set_typed st_string_array name v s = set_string_array sprint name v s

  unfoldable pub set_known : Option Meta → String → Value → Settings → Option Settings
  set_known none name v s = some s
  set_known (some t) name v s = set_typed t.s_type name v s

  -- One entry of a message: a name without an entry in the table is skipped.
  unfoldable pub apply_entry : String → Value → Settings → Option Settings
  unfolding set_typed set_known
  apply_entry name v s = set_known (lookup name setting_meta) name v s

  unfoldable pub apply_entries : Dict Value → Settings → Option Settings
  apply_entries [] s = some s
  apply_entries ((k, v) ∷ es) s = apply_entry k v s >>= λ s'. apply_entries es s'

  -- One message. What is no object is dropped; the whole map is sent back after an object.
  unfoldable pub read_message : Value → Settings → Option Settings
  read_message (object fields) s = do
    s' ← apply_entries (entries fields) s
    shown ← ui_map s'.m
    some (emit (sent shown ∷ []) s')
  read_message v s = some s

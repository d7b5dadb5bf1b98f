-- ===== src/Settings/Safety.antt =====
-- No message from the UI changes the types of the stored values or stops the service
-- (`read` of desktop/app/settings.go).
use lantern_client.Prelude.{
  ◌≡◌, refl, String, some, [], ◌∷◌, Dict, lookup, Option-cases, inl, inr, Ensures, Ensures-bind,
}
use lantern_client.Settings.Value.{
  Value, nil, bool, int64, number, string, strings, array, object, entries, parse_int64, sprint_all,
}
use lantern_client.Settings.Names.{
  SettingType, st_bool, st_number, st_string, st_string_array, Meta, setting_meta,
}
use lantern_client.Settings.Store.{
  Settings, set_val, set_bool, set_num, set_string, set_string_array, ui_map,
}
use lantern_client.Settings.Messages.{set_typed, apply_entry, apply_entries, read_message}
use lantern_client.Settings.Types.{Fits, IsTyped, ui_map-IsWellTyped, set_vals-IsTyped, Fits-of}

set_val-IsTyped :
    (k : String) (v : Value) (s : Settings) → Fits k v → IsTyped s → Ensures IsTyped (set_val k v s)
unfolding set_val
set_val-IsTyped k v s f h = set_vals-IsTyped ((k, v) ∷ []) s (f, tt) h

module _ (sprint : Value → String) (k : String) (t : Meta) (known : lookup k setting_meta ≡ some t)
    (s : Settings) (h : IsTyped s) where
  set_bool-IsTyped : (v : Value) → t.s_type ≡ st_bool → Ensures IsTyped (set_bool k v s)
  unfolding set_bool
  set_bool-IsTyped (bool b) e =
      set_val-IsTyped k (bool b) s (Fits-of k (bool b) t known (rw e tt)) h
  set_bool-IsTyped _ e = h

  set_string-IsTyped : (v : Value) → t.s_type ≡ st_string → Ensures IsTyped (set_string k v s)
  unfolding set_string
  set_string-IsTyped (string b) e =
      set_val-IsTyped k (string b) s (Fits-of k (string b) t known (rw e tt)) h
  set_string-IsTyped _ e = h

  set_num-IsTyped : (v : Value) → t.s_type ≡ st_number → Ensures IsTyped (set_num k v s)
  unfolding set_num
  set_num-IsTyped (number n) e = elim (Option-cases (parse_int64 n)) [
    | inl p ↦ rw p h
    | inr (z, p) ↦ rw p (set_val-IsTyped k (int64 z) s (Fits-of k (int64 z) t known (rw e tt)) h)
  ]
  set_num-IsTyped _ e = h

  set_string_array-IsTyped :
      (v : Value) → t.s_type ≡ st_string_array → Ensures IsTyped (set_string_array sprint k v s)
  unfolding set_string_array
  set_string_array-IsTyped nil e =
      set_val-IsTyped k _ s (Fits-of k (strings []) t known (rw e tt)) h
  set_string_array-IsTyped (strings a) e =
      set_val-IsTyped k _ s (Fits-of k (strings a) t known (rw e tt)) h
  set_string_array-IsTyped (array a) e =
      set_val-IsTyped k _ s (Fits-of k (strings (sprint_all sprint a)) t known (rw e tt)) h
  set_string_array-IsTyped _ e = h

module _ (sprint : Value → String) where
  set_typed-IsTyped :
      (k : String) (t : Meta) (ty : SettingType) (v : Value) (s : Settings)
      → lookup k setting_meta ≡ some t
      → t.s_type ≡ ty
      → IsTyped s
      → Ensures IsTyped (set_typed sprint ty k v s)
  unfolding set_typed
  set_typed-IsTyped k t st_bool v s known e h = set_bool-IsTyped sprint k t known s h v e
  set_typed-IsTyped k t st_string v s known e h = set_string-IsTyped sprint k t known s h v e
  set_typed-IsTyped k t st_number v s known e h = set_num-IsTyped sprint k t known s h v e
  set_typed-IsTyped k t st_string_array v s known e h =
      set_string_array-IsTyped sprint k t known s h v e

  apply_entry-IsTyped :
      (k : String) (v : Value) (s : Settings)
      → IsTyped s
      → Ensures IsTyped (apply_entry sprint k v s)
  unfolding apply_entry
  apply_entry-IsTyped k v s h = elim (Option-cases (lookup k setting_meta)) [
    | inl e ↦ rw e h
    | inr (t, e) ↦ rw e (set_typed-IsTyped k t t.s_type v s e refl h)
  ]

  apply_entries-IsTyped :
      (es : Dict Value) (s : Settings) → IsTyped s → Ensures IsTyped (apply_entries sprint es s)
  unfolding apply_entries
  apply_entries-IsTyped [] s h = h
  apply_entries-IsTyped ((k, v) ∷ es) s h =
      Ensures-bind IsTyped IsTyped (apply_entry sprint k v s) _ (apply_entry-IsTyped k v s h)
        (apply_entries-IsTyped es)

  -- Whatever the UI sends, a store whose values have the types of the table handles it without a
  -- panic, and its values have those types afterwards.
  pub read_message-IsTyped :
      (message : Value) (s : Settings) → IsTyped s → Ensures IsTyped (read_message sprint message s)
  unfolding read_message
  read_message-IsTyped (object fields) s h =
      Ensures-bind IsTyped IsTyped (apply_entries sprint (entries fields) s) _
        (apply_entries-IsTyped (entries fields) s h)
        λ s' h'.
          Ensures-bind (λ _. Unit {0}) IsTyped (ui_map s'.m) _ (ui_map-IsWellTyped s'.m h')
            λ r _. h'
  read_message-IsTyped _ s h = h

-- ===== src/Settings/Protected.antt =====
-- Settings that the UI cannot write (desktop/app/settings.go, `Settings.read`).
use lantern_client.Prelude.{
  Ensures, Ensures-mono, ◌≡◌, sym, ◌∙◌, String, false, none, some, [], ◌∷◌, Dict, lookup,
  insert_all, lookup-insert, eq_iff, Bool-cases, Option-cases, inl, inr, ◌==◌, >>=-eq-some, some_eq,
  ap,
}
use lantern_client.Settings.Value.{
  Value, nil, bool, int64, number, string, strings, array, object, entries, parse_int64, sprint_all,
}
use lantern_client.Settings.Names.{
  SettingType, st_bool, st_number, st_string, st_string_array, Meta, setting_meta,
}
use lantern_client.Settings.Store.{
  Settings, ui_map, set_val, set_bool, set_num, set_string, set_string_array,
}
use lantern_client.Settings.Messages.{set_typed, apply_entry, apply_entries, read_message}
use lantern_client.Settings.Types.{IsTyped}
use lantern_client.Settings.Safety.{read_message-IsTyped}
use lantern_client.Settings.Writes.{set_vals-Written}

abbrev pub Same : String → Settings → Settings → Type 0
Same j s s' = lookup j s'.m ≡ lookup j s.m

Same-of_eq : (j : String) (s s' : Settings) → some s ≡ some s' → Same j s s'
Same-of_eq j s s' h = ap (λ t. lookup j t.m) (sym (some_eq h))

module _ (sprint : Value → String) (k j : String) (ne : (k == j) ≡ false) (s s' : Settings) where
  set_val-Same : (v : Value) → set_val k v s ≡ some s' → Same j s s'
  unfolding set_val insert_all
  set_val-Same v h = rw ((set_vals-Written ((k, v) ∷ []) s s' h).new_m, lookup-insert, ne)

  set_bool-Same : (v : Value) → set_bool k v s ≡ some s' → Same j s s'
  unfolding set_bool
  set_bool-Same (bool b) h = set_val-Same (bool b) h
  set_bool-Same _ h = Same-of_eq j s s' h

  set_string-Same : (v : Value) → set_string k v s ≡ some s' → Same j s s'
  unfolding set_string
  set_string-Same (string b) h = set_val-Same (string b) h
  set_string-Same _ h = Same-of_eq j s s' h

  set_num-Same : (v : Value) → set_num k v s ≡ some s' → Same j s s'
  unfolding set_num
  set_num-Same (number n) h = elim (Option-cases (parse_int64 n)) [
    | inl p ↦ Same-of_eq j s s' (rw p at h)
    | inr (z, p) ↦ set_val-Same (int64 z) (rw p at h)
  ]
  set_num-Same _ h = Same-of_eq j s s' h

  set_string_array-Same : (v : Value) → set_string_array sprint k v s ≡ some s' → Same j s s'
  unfolding set_string_array
  set_string_array-Same nil h = set_val-Same (strings []) h
  set_string_array-Same (strings a) h = set_val-Same (strings a) h
  set_string_array-Same (array a) h = set_val-Same (strings (sprint_all sprint a)) h
  set_string_array-Same _ h = Same-of_eq j s s' h

  set_typed-Same : (t : SettingType) (v : Value) → set_typed sprint t k v s ≡ some s' → Same j s s'
  unfolding set_typed
  set_typed-Same st_bool v h = set_bool-Same v h
  set_typed-Same st_string v h = set_string-Same v h
  set_typed-Same st_number v h = set_num-Same v h
  set_typed-Same st_string_array v h = set_string_array-Same v h

differs :
    (k j : String) (t : Meta)
    → lookup k setting_meta ≡ some t
    → lookup j setting_meta ≡ none
    → (k == j) ≡ false
differs k j t known unknown = elim (Bool-cases (k == j)) [
  | inl e ↦ absurd (cc (known, unknown, (eq_iff k j).0 e))
  | inr e ↦ e
]

module _ (sprint : Value → String) (j : String) (unknown : lookup j setting_meta ≡ none) where
  apply_entry-Same :
      (k : String) (v : Value) (s s' : Settings) → apply_entry sprint k v s ≡ some s' → Same j s s'
  unfolding apply_entry
  apply_entry-Same k v s s' h = elim (Option-cases (lookup k setting_meta)) [
    | inl e ↦ Same-of_eq j s s' (rw e at h)
    | inr (t, e) ↦ set_typed-Same sprint k j (differs k j t e unknown) s s' t.s_type v (rw e at h)
  ]

  apply_entries-Same :
      (es : Dict Value) (s s' : Settings) → apply_entries sprint es s ≡ some s' → Same j s s'
  unfolding apply_entries
  apply_entries-Same [] s s' h = Same-of_eq j s s' h
  apply_entries-Same ((k, v) ∷ es) s s' h =
      let (t, first, rest) = >>=-eq-some (apply_entry sprint k v s) _ h in
      apply_entries-Same es t s' rest ∙ apply_entry-Same k v s t first

  lookup-read_message :
      (message : Value) (s s' : Settings)
      → read_message sprint message s ≡ some s'
      → lookup j s'.m ≡ lookup j s.m
  unfolding read_message
  lookup-read_message (object fields) s s' h =
      let (t, first, rest) = >>=-eq-some (apply_entries sprint (entries fields) s) _ h in
      let (r, got, last) = >>=-eq-some (ui_map t.m) _ rest in
      ap (λ (u : Settings). lookup j u.m) (sym (some_eq last))
      ∙ apply_entries-Same (entries fields) s t first
  lookup-read_message _ s s' h = Same-of_eq j s s' h

  -- In a typed store a setting with no entry in the table, such as the device id and the referral code,
  -- has after any message from the UI the value that it had before.
  pub read_message-Same :
      (message : Value) (s : Settings)
      → IsTyped s
      → Ensures (Same j s) (read_message sprint message s)
  read_message-Same message s h =
      Ensures-mono IsTyped (Same j s) (read_message sprint message s)
        (read_message-IsTyped sprint message s h) λ s' e _. lookup-read_message message s s' e

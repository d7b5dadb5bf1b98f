-- ===== src/Settings/Writes.antt =====
-- What a call of `setVals` changes, what it saves, and what is read back.
use lantern_client.Prelude.{
  ℕ, ◌≡◌, refl, sym, ap, ◌∙◌, String, Bool, true, false, some, List, [], ◌∷◌, ◌++◌, Dict, lookup,
  insert_all, lookup-insert, ℤ, eq_refl, ◌==◌, Ensures, Ensures-mono, >>=-eq-some, some_eq,
}
use mathlib.Core.Path.{subst}
use mathlib.Core.List.{append-nil}
use lantern_client.Settings.Value.{Value, int64, string, strings}
use lantern_client.Settings.Names.{setting_meta, sn_user_id, sn_user_token}
use lantern_client.Settings.Store.{
  Settings, Event, saved, called, sent, emit, save, calls, notify_ui, on_change, on_changes,
  set_vals, set_val, set_user_id_and_token, get_int64, get_string, set_string_array,
  get_string_array, set_val, ui_map, set_val, get_string_array, set_string_array, map_to_save,
}
use lantern_client.Settings.Types.{Fits, IsTyped, set_vals-IsTyped}

-- The maps that were written to the file.
pub saves : List Event → List (Dict Value)
saves [] = []
saves (saved m ∷ es) = m ∷ saves es
saves (called cb v ∷ es) = saves es
saves (sent m ∷ es) = saves es

saves-append : (xs ys : List Event) → saves (xs ++ ys) ≡ saves xs ++ saves ys
unfolding saves
saves-append [] ys = refl
saves-append (saved m ∷ es) ys = ap (λ r. m ∷ r) (saves-append es ys)
saves-append (called cb v ∷ es) ys = saves-append es ys
saves-append (sent m ∷ es) ys = saves-append es ys

saves-calls : (cbs : List ℕ) (v : Value) → saves (calls cbs v) ≡ []
unfolding saves calls
saves-calls [] v = refl
saves-calls (cb ∷ cbs) v = saves-calls cbs v

-- What the notices leave alone.
pub record Noticed (s s' : Settings) : Type 0 where
  pub same_m : s'.m ≡ s.m
  pub same_notifiers : s'.change_notifiers ≡ s.change_notifiers
  pub same_out : s'.ws_out ≡ s.ws_out
  pub same_saves : saves s'.events ≡ saves s.events

saves-append_calls :
    (es : List Event) (cbs : List ℕ) (v : Value) → saves (es ++ calls cbs v) ≡ saves es
saves-append_calls es cbs v =
    saves-append es (calls cbs v)
    ∙ ap (λ r. saves es ++ r) (saves-calls cbs v)
    ∙ append-nil (saves es)

saves-append_sent : (es : List Event) (m : Dict Value) → saves (es ++ sent m ∷ []) ≡ saves es
saves-append_sent es m = saves-append es (sent m ∷ []) ∙ (unfold saves in append-nil (saves es))

Noticed-refl : (s : Settings) → Noticed s s
Noticed-refl s = record { same_m = refl; same_notifiers = refl; same_out = refl; same_saves = refl }

Noticed-trans : {s t u : Settings} → Noticed s t → Noticed t u → Noticed s u
Noticed-trans h k = record {
  same_m = k.same_m ∙ h.same_m;
  same_notifiers = k.same_notifiers ∙ h.same_notifiers;
  same_out = k.same_out ∙ h.same_out;
  same_saves = k.same_saves ∙ h.same_saves;
}

notified-Noticed : (s : Settings) (cbs : List ℕ) (v : Value) → Noticed s (emit (calls cbs v) s)
notified-Noticed s cbs v = record {
  same_m = refl;
  same_notifiers = refl;
  same_out = refl;
  same_saves = saves-append_calls s.events cbs v;
}

sent-Noticed : (s : Settings) (m : Dict Value) → Noticed s (emit (sent m ∷ []) s)
sent-Noticed s m = record {
  same_m = refl;
  same_notifiers = refl;
  same_out = refl;
  same_saves = saves-append_sent s.events m;
}

same_as_Noticed : {s t u : Settings} → Noticed s t → some t ≡ some u → Noticed s u
same_as_Noticed {s} h e = subst (Noticed s) (some_eq e) h

notify_ui-Noticed : (b : Bool) (s s' : Settings) → notify_ui b s ≡ some s' → Noticed s s'
unfolding notify_ui
notify_ui-Noticed false s s' h = subst (Noticed s) (some_eq h) (Noticed-refl s)
notify_ui-Noticed true s s' h =
    let (r, got, rest) = >>=-eq-some (ui_map s.m) _ h in same_as_Noticed (sent-Noticed s r) rest

on_change-Noticed :
    (k : String) (v : Value) (s s' : Settings) → on_change k v s ≡ some s' → Noticed s s'
unfolding on_change
on_change-Noticed k v s s' h =
    Noticed-trans (notified-Noticed s _ v) (notify_ui-Noticed s.ws_out _ s' h)

on_changes-Noticed :
    (vals : Dict Value) (s s' : Settings) → on_changes vals s ≡ some s' → Noticed s s'
unfolding on_changes
on_changes-Noticed [] s s' h = same_as_Noticed (Noticed-refl s) h
on_changes-Noticed ((k, v) ∷ vals) s s' h =
    let (t, first, rest) = >>=-eq-some (on_change k v s) _ h in
    Noticed-trans (on_change-Noticed k v s t first) (on_changes-Noticed vals t s' rest)

-- The whole effect of `setVals` on the map and on the file.
pub record Written (vals : Dict Value) (s s' : Settings) : Type 0 where
  pub new_m : s'.m ≡ insert_all vals s.m
  pub one_save : saves s'.events ≡ saves s.events ++ map_to_save s'.m ∷ []

pub set_vals-Written :
    (vals : Dict Value) (s s' : Settings) → set_vals vals s ≡ some s' → Written vals s s'
unfolding set_vals save saves
set_vals-Written vals s s' h =
    let n = on_changes-Noticed vals _ s' h in
    record {
      new_m = n.same_m;
      one_save =
          n.same_saves
          ∙ saves-append s.events _
          ∙ ap (λ m. saves s.events ++ map_to_save m ∷ []) (sym n.same_m);
    }

-- The id and the token as they are read back, and every other setting as it was.
pub record SignedIn (id : ℤ) (token : String) (s s' : Settings) : Type 0 where
  pub id_read : get_int64 sn_user_id s' ≡ id
  pub token_read : get_string sn_user_token s' ≡ token
  pub others :
      (j : String)
      → (sn_user_id == j) ≡ false
      → (sn_user_token == j) ≡ false
      → lookup j s'.m ≡ lookup j s.m
  pub one_save : saves s'.events ≡ saves s.events ++ map_to_save s'.m ∷ []

SignedIn-of_Written :
    (id : ℤ) (token : String) (s s' : Settings)
    → Written ((sn_user_id, int64 id) ∷ (sn_user_token, string token) ∷ []) s s'
    → SignedIn id token s s'
unfolding get_int64 get_string insert_all
SignedIn-of_Written id token s s' w = record {
  id_read = rw (w.new_m, lookup-insert, lookup-insert);
  token_read = rw (w.new_m, lookup-insert);
  others = λ j ne_id ne_token. rw (w.new_m, lookup-insert, ne_token, lookup-insert, ne_id);
  one_save = w.one_save;
}

-- In a store whose values have the types of the table, `SetUserIDAndToken` returns; then the user id
-- and the token that are read are the new ones, every other setting is as before, and the file was
-- written exactly once, with the map that holds both.
pub set_user_id_and_token-SignedIn :
    (id : ℤ) (token : String) (s : Settings)
    → IsTyped s
    → Ensures (SignedIn id token s) (set_user_id_and_token id token s)
unfolding set_user_id_and_token Fits
set_user_id_and_token-SignedIn id token s h =
    Ensures-mono IsTyped (SignedIn id token s) _
      (set_vals-IsTyped ((sn_user_id, int64 id) ∷ (sn_user_token, string token) ∷ []) s
        (unfold lookup setting_meta in (tt, (tt, tt))) h)
      λ s' e _. SignedIn-of_Written id token s s' (set_vals-Written _ s s' e)

-- A list of texts that is stored is read back, and the store stays typed.
pub set_strings_lem :
    (sprint : Value → String) (k : String) (a : List String) (s : Settings)
    → Fits k (strings a)
    → IsTyped s
    → Ensures
        (λ s'. IsTyped s' × (get_string_array sprint k s' ≡ a))
        (set_string_array sprint k (strings a) s)
unfolding set_string_array set_val get_string_array insert_all
set_strings_lem sprint k a s f h =
    Ensures-mono IsTyped _ _ (set_vals-IsTyped ((k, strings a) ∷ []) s (f, tt) h)
      λ s' e h'. (h', rw ((set_vals-Written _ s s' e).new_m, lookup-insert, eq_refl))

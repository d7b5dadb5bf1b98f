-- ===== src/Settings/RoundTrip.antt =====
-- What an accessor writes is what the accessor of the same setting reads.
use lantern_client.Prelude.{
  ◌≡◌, some, refl, String, Bool, List, [], ◌∷◌, lookup, lookup-insert, insert_all, eq_refl, false,
  ◌==◌, Ensures, Ensures-mono,
}
use lantern_client.Settings.Value.{Value, bool, string, strings}
use lantern_client.Settings.Names.{
  setting_meta, sn_proxy_all, sn_google_ads, sn_disconnected, sn_language, sn_country,
  sn_local_http_token, sn_email_address, sn_user_pro, sn_referral_code, sn_taken_surveys,
  sn_past_announcements, sn_addr, sn_socks_addr, sn_ui_addr, sn_enabled_experiments,
  sn_user_first_visit, sn_expiry_date, sn_user_logged_in,
}
use lantern_client.Settings.Store.{
  Settings, set_val, set_bool, set_string, set_string_array, get_bool, get_string, get_string_array,
}
use lantern_client.Settings.Types.{Fits, IsTyped, set_vals-IsTyped}
use lantern_client.Settings.Writes.{set_vals-Written}
use lantern_client.Settings.Accessors.{
  get_addr, get_country, get_disconnected, get_email_address, get_enabled_experiments,
  get_expiration_date, get_google_ads, get_language, get_local_http_token, get_past_announcements,
  get_proxy_all, get_referral_code, get_socks_addr, get_taken_surveys, get_ui_addr,
  get_user_first_visit, is_pro_user, is_user_logged_in, set_addr, set_country, set_disconnected,
  set_email_address, set_enabled_experiments, set_expiration_date, set_google_ads, set_language,
  set_local_http_token, set_past_announcements, set_pro_user, set_proxy_all, set_referral_code,
  set_socks_addr, set_taken_surveys, set_ui_addr, set_user_first_visit, set_user_logged_in,
}

-- The new value is read, the types of the table hold, and every other setting is as it was.
pub record Stored {A : Type 0} (get : Settings → A) (a : A) (k : String) (s s' : Settings)
    : Type 0 where
  pub read : get s' ≡ a
  pub typed : IsTyped s'
  pub others : (j : String) → (k == j) ≡ false → lookup j s'.m ≡ lookup j s.m

set_val-Stored :
    {A : Type 0} (get : Settings → A) (a : A) (k : String) (v : Value) (s : Settings)
    → ((s' : Settings) → lookup k s'.m ≡ some v → get s' ≡ a)
    → Fits k v
    → IsTyped s
    → Ensures (Stored get a k s) (set_val k v s)
unfolding set_val insert_all
set_val-Stored get a k v s reads f h =
    Ensures-mono IsTyped (Stored get a k s) _ (set_vals-IsTyped ((k, v) ∷ []) s (f, tt) h)
      λ s' e typed.
        let w = set_vals-Written ((k, v) ∷ []) s s' e in
        record {
          read = reads s' (rw (w.new_m, lookup-insert, eq_refl));
          typed = typed;
          others = λ j ne. rw (w.new_m, lookup-insert, ne);
        }

module _ (s : Settings) (h : IsTyped s) where
  bool-Stored :
      (k : String) (b : Bool)
      → Fits k (bool b)
      → Ensures (Stored (get_bool k) b k s) (set_val k (bool b) s)
  unfolding get_bool
  bool-Stored k b f = set_val-Stored (get_bool k) b k (bool b) s (λ s' e. rw e refl) f h

  string-Stored :
      (k : String) (t : String)
      → Fits k (string t)
      → Ensures (Stored (get_string k) t k s) (set_val k (string t) s)
  unfolding get_string
  string-Stored k t f = set_val-Stored (get_string k) t k (string t) s (λ s' e. rw e refl) f h

  strings-Stored :
      (sprint : Value → String) (k : String) (a : List String)
      → Fits k (strings a)
      → Ensures (Stored (get_string_array sprint k) a k s) (set_val k (strings a) s)
  unfolding get_string_array
  strings-Stored sprint k a f =
      set_val-Stored (get_string_array sprint k) a k (strings a) s (λ s' e. rw e refl) f h

  -- In a typed store each setter of a flag (proxy all, disconnected, ads, pro, first visit, logged in)
  -- returns; then the getter of that flag reads the new value, the store is typed, and every other
  -- setting is as it was.
  flags_lem :
      (b : Bool)
      → Ensures (Stored get_proxy_all b sn_proxy_all s) (set_proxy_all b s)
        × Ensures (Stored get_disconnected b sn_disconnected s) (set_disconnected b s)
        × Ensures (Stored get_google_ads b sn_google_ads s) (set_google_ads b s)
        × Ensures (Stored is_pro_user b sn_user_pro s) (set_pro_user b s)
        × Ensures (Stored get_user_first_visit b sn_user_first_visit s) (set_user_first_visit b s)
        × Ensures (Stored is_user_logged_in b sn_user_logged_in s) (set_user_logged_in b s)
  unfolding get_proxy_all set_proxy_all get_disconnected set_disconnected get_google_ads
      set_google_ads is_pro_user set_pro_user get_user_first_visit set_user_first_visit
      is_user_logged_in set_user_logged_in set_bool
  flags_lem b = (
    bool-Stored sn_proxy_all b (unfold Fits lookup setting_meta in tt),
    bool-Stored sn_disconnected b (unfold Fits lookup setting_meta in tt),
    bool-Stored sn_google_ads b (unfold Fits lookup setting_meta in tt),
    bool-Stored sn_user_pro b (unfold Fits lookup setting_meta in tt),
    bool-Stored sn_user_first_visit b (unfold Fits lookup setting_meta in tt),
    bool-Stored sn_user_logged_in b (unfold Fits lookup setting_meta in tt),
  )

  -- In a typed store each setter of a text (language, referral code, country, local token, UI address,
  -- proxy addresses, e-mail, expiration date) returns; then its getter reads the new text, the store is
  -- typed, and every other setting is as it was.
  texts_lem :
      (t : String)
      → Ensures (Stored get_language t sn_language s) (set_language t s)
        × Ensures (Stored get_referral_code t sn_referral_code s) (set_referral_code t s)
        × Ensures (Stored get_country t sn_country s) (set_country t s)
        × Ensures (Stored get_local_http_token t sn_local_http_token s) (set_local_http_token t s)
        × Ensures (Stored get_ui_addr t sn_ui_addr s) (set_ui_addr t s)
        × Ensures (Stored get_addr t sn_addr s) (set_addr t s)
        × Ensures (Stored get_socks_addr t sn_socks_addr s) (set_socks_addr t s)
        × Ensures (Stored get_email_address t sn_email_address s) (set_email_address t s)
        × Ensures (Stored get_expiration_date t sn_expiry_date s) (set_expiration_date t s)
  unfolding get_language set_language get_referral_code set_referral_code get_country set_country
      get_local_http_token set_local_http_token get_ui_addr set_ui_addr get_addr set_addr
      get_socks_addr set_socks_addr get_email_address set_email_address get_expiration_date
      set_expiration_date set_string
  texts_lem t = (
    string-Stored sn_language t (unfold Fits lookup setting_meta in tt),
    string-Stored sn_referral_code t (unfold Fits lookup setting_meta in tt),
    string-Stored sn_country t (unfold Fits lookup setting_meta in tt),
    string-Stored sn_local_http_token t (unfold Fits lookup setting_meta in tt),
    string-Stored sn_ui_addr t (unfold Fits lookup setting_meta in tt),
    string-Stored sn_addr t (unfold Fits lookup setting_meta in tt),
    string-Stored sn_socks_addr t (unfold Fits lookup setting_meta in tt),
    string-Stored sn_email_address t (unfold Fits lookup setting_meta in tt),
    string-Stored sn_expiry_date t (unfold Fits lookup setting_meta in tt),
  )

  -- In a typed store each setter of a list of texts (experiments, taken surveys, past announcements)
  -- returns; then its getter reads the new list, the store is typed, and every other setting is as it was.
  lists_lem :
      (sprint : Value → String) (a : List String)
      → Ensures
          (Stored (get_enabled_experiments sprint) a sn_enabled_experiments s)
          (set_enabled_experiments sprint a s)
        × Ensures
            (Stored (get_taken_surveys sprint) a sn_taken_surveys s)
            (set_taken_surveys sprint a s)
        × Ensures
            (Stored (get_past_announcements sprint) a sn_past_announcements s)
            (set_past_announcements sprint a s)
  unfolding get_enabled_experiments set_enabled_experiments get_taken_surveys set_taken_surveys
      get_past_announcements set_past_announcements set_string_array
  lists_lem sprint a = (
    strings-Stored sprint sn_enabled_experiments a (unfold Fits lookup setting_meta in tt),
    strings-Stored sprint sn_taken_surveys a (unfold Fits lookup setting_meta in tt),
    strings-Stored sprint sn_past_announcements a (unfold Fits lookup setting_meta in tt),
  )

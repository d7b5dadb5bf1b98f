-- ===== src/Headers/Auth.antt =====
-- Which auth headers a request carries (`AddCommonHeadersWithOptions` of internalsdk/common/headers.go).
use lantern_client.Prelude.{
  ◌≡◌, refl, ap, ◌∙◌, String, Bool, true, false, not, ◌||◌, ℤ, contains, eq_refl, Bool-cases, inl,
  inr, arith, if◌then◌else◌, ◌==◌,
}
use lantern_client.Headers.Header.{Header, get, get-set_self, get-set_ne}
use lantern_client.Headers.Common.{
  UserConfig, Build, device_id_header, pro_token_header, user_id_header, locale_header,
  add_common_non_user_headers, set_auth, set_user_id, user_id_text, is_zero,
  add_common_headers_with_options,
}
use lantern_client.Headers.Passing.{
  header_names, NotInternal, IsAuth, get-add_common_non_user_headers,
}

-- Canonical names of different headers of the file are different.
abbrev pub KeepsApart : (String → String) → Type 0
KeepsApart canon =
    (k j : String)
    → contains k header_names ≡ true
    → contains j header_names ≡ true
    → (k == j) ≡ false
    → (canon k == canon j) ≡ false

-- What a guarded header holds afterwards.
abbrev pub chosen : Bool → String → String → String
chosen overwrite new old =
    if overwrite || old == "" then (if not (new == "") then new else old) else old

module _ (b : Build) (apart : KeepsApart b.canon) where
  get-set_auth_self :
      (overwrite : Bool) (k v : String) (h : Header)
      → get b.canon k (set_auth b overwrite k v h) ≡ chosen overwrite v (get b.canon k h)
  unfolding set_auth
  get-set_auth_self overwrite k v h =
      ground (arith, get-set_self b.canon k v h (eq_refl (b.canon k)))

  get-set_auth_ne :
      (overwrite : Bool) (k j v : String) (h : Header)
      → (b.canon k == b.canon j) ≡ false
      → get b.canon j (set_auth b overwrite k v h) ≡ get b.canon j h
  unfolding set_auth
  get-set_auth_ne overwrite k j v h ne = ground (arith, get-set_ne b.canon k j v h ne)

  get-set_user_id_ne :
      (overwrite : Bool) (id : ℤ) (j : String) (h : Header)
      → (b.canon user_id_header == b.canon j) ≡ false
      → get b.canon j (set_user_id b overwrite id h) ≡ get b.canon j h
  unfolding set_user_id
  get-set_user_id_ne overwrite id j h ne =
      ground (arith, get-set_ne b.canon user_id_header j (b.format_int id) h ne)

  get-set_user_id_self :
      (overwrite : Bool) (id : ℤ) (h : Header)
      → (b.format_int id == "") ≡ false
      → get b.canon user_id_header (set_user_id b overwrite id h)
        ≡ chosen overwrite (user_id_text b id) (get b.canon user_id_header h)
  unfolding set_user_id user_id_text
  get-set_user_id_self overwrite id h printed = elim (Bool-cases (is_zero id)) [
    | inl e ↦ rw e (ground arith)
    | inr e ↦ rw e (
        ground (
          arith,
          get-set_self b.canon user_id_header (b.format_int id) h
              (eq_refl (b.canon user_id_header)),
        ))
  ]

  -- A request's device id, token and user id after the common headers were added, where
  -- different headers of the file have different canonical names, no internal header has one of
  -- the three names, and the text of the user id is not empty: each is the value of the user's
  -- configuration if that is not empty (for the user id, not 0) and overwriting is allowed or
  -- the request had none; else it is what the request had.
  pub auth-add_common_headers_with_options :
      (uc : UserConfig) (noise : String) (overwrite : Bool) (h : Header)
      → NotInternal b.canon uc.internal_headers device_id_header
      → NotInternal b.canon uc.internal_headers pro_token_header
      → NotInternal b.canon uc.internal_headers user_id_header
      → (b.format_int uc.user_id == "") ≡ false
      → let h' = add_common_headers_with_options b uc noise overwrite h in
        (get b.canon device_id_header h'
          ≡ chosen overwrite uc.device_id (get b.canon device_id_header h))
        × (get b.canon pro_token_header h'
            ≡ chosen overwrite uc.token (get b.canon pro_token_header h))
        × (get b.canon user_id_header h'
            ≡ chosen overwrite (user_id_text b uc.user_id) (get b.canon user_id_header h))
  unfolding add_common_headers_with_options
  auth-add_common_headers_with_options uc noise overwrite h ni_device ni_token ni_user printed = (
    get-set_ne b.canon locale_header device_id_header _ _
          (away locale_header device_id_header refl refl refl)
        ∙ get-set_user_id_ne overwrite _ device_id_header _
            (away user_id_header device_id_header refl refl refl)
        ∙ get-set_auth_ne overwrite pro_token_header device_id_header _ _
            (away pro_token_header device_id_header refl refl refl)
        ∙ get-set_auth_self overwrite device_id_header _ _
        ∙ ap (chosen overwrite uc.device_id) (before device_id_header refl far_device ni_device),
    get-set_ne b.canon locale_header pro_token_header _ _
          (away locale_header pro_token_header refl refl refl)
        ∙ get-set_user_id_ne overwrite _ pro_token_header _
            (away user_id_header pro_token_header refl refl refl)
        ∙ get-set_auth_self overwrite pro_token_header _ _
        ∙ ap (chosen overwrite uc.token) (
            get-set_auth_ne overwrite device_id_header pro_token_header _ _
              (away device_id_header pro_token_header refl refl refl)
            ∙ before pro_token_header refl far_token ni_token),
    get-set_ne b.canon locale_header user_id_header _ _
          (away locale_header user_id_header refl refl refl)
        ∙ get-set_user_id_self overwrite _ _ printed
        ∙ ap (chosen overwrite (user_id_text b uc.user_id)) (
            get-set_auth_ne overwrite pro_token_header user_id_header _ _
              (away pro_token_header user_id_header refl refl refl)
            ∙ get-set_auth_ne overwrite device_id_header user_id_header _ _
                (away device_id_header user_id_header refl refl refl)
            ∙ before user_id_header refl far_user ni_user),
  )
    where
      away :
          (k j : String)
          → contains k header_names ≡ true
          → contains j header_names ≡ true
          → (k == j) ≡ false
          → (b.canon k == b.canon j) ≡ false
      away k j ck cj ne = apart k j ck cj ne

      others :
          (a : String)
          → contains a header_names ≡ true
          → (k : String) → contains k header_names ≡ true
          → (k == a) ≡ false
          → (b.canon k == b.canon a) ≡ false
      others a ca k ck ne = apart k a ck ca ne

      before :
          (a : String) (ca : contains a header_names ≡ true)
          → IsAuth b a (others a ca)
          → NotInternal b.canon uc.internal_headers a
          → get b.canon a (add_common_non_user_headers b uc noise h) ≡ get b.canon a h
      before a ca far ni = get-add_common_non_user_headers b a (others a ca) uc noise h far ni

      far_device : IsAuth b device_id_header (others device_id_header refl)
      far_device = record {
        app_version = refl;
        library_version = refl;
        experiments = refl;
        platform = refl;
        app = refl;
        data_caps = refl;
        time_zone = refl;
        noise = refl;
        locale = refl;
      }

      far_token : IsAuth b pro_token_header (others pro_token_header refl)
      far_token = record {
        app_version = refl;
        library_version = refl;
        experiments = refl;
        platform = refl;
        app = refl;
        data_caps = refl;
        time_zone = refl;
        noise = refl;
        locale = refl;
      }

      far_user : IsAuth b user_id_header (others user_id_header refl)
      far_user = record {
        app_version = refl;
        library_version = refl;
        experiments = refl;
        platform = refl;
        app = refl;
        data_caps = refl;
        time_zone = refl;
        noise = refl;
        locale = refl;
      }

-- ===== src/Session/Redeemed.antt =====
-- A reseller's code, from the session (internalsdk/session_model.go) to the Pro client (internalsdk/pro/pro.go).
use lantern_client.Prelude.{
  ◌≡◌, refl, ◌∙◌, ◌⊎◌, inl, inr, String, Bool, true, false, Option, none, some, [], ◌∷◌, Dict, ◌==◌,
  Bool-cases, Option-cases, lookup, last_write, to_lower,
}
use lantern_client.Pro.Client.{Reply, WithStatus, status_fails, purchase_request}
use lantern_client.Session.Db.{Db, Call, text, continue, ◌then_◌, ignore, get_text, set_email}
use lantern_client.Session.Values.{set_reseller_code}
use lantern_client.Session.Identity.{mutate-Leaves, then-Leaves}
use lantern_client.Session.Purchases.{
  create_purchase_data, request, answered, redeem_request, redeem_reseller_code,
}

-- The order of a code.
abbrev pub code_order : String → String → String → String → Dict String
code_order key device email code =
    ("idempotencyKey", key)
    ∷ ("provider", "reseller-code")
    ∷ ("email", email)
    ∷ ("deviceName", device)
    ∷ ("resellerCode", code)
    ∷ []

module _ {A : Type 0} (locale : String)
    (send : String → Dict String → Option (Reply (WithStatus A))) (key : String) where
  status_of : Option (Reply (WithStatus A)) → Option String
  status_of none = none
  status_of (some r) = some r.body.status

  -- The session's requests go through the client.
  abbrev pub by_client : Dict String → Option String
  unfolding status_of
  by_client req = status_of (purchase_request locale send req)

  -- The Pro flag is as before, or the server has answered to the order of this code, for a device, and its
  -- status is "ok" or it sent no `BaseResponse`.
  unfoldable pub Redeemed : String → String → Db → Bool × Db → Type 0
  Redeemed email code db o =
      (lookup "prouser" o.1.m ≡ lookup "prouser" db.m)
      ⊎ ((device : String) × (r : Reply (WithStatus A)) × (send "/purchase"
              (code_order key device email code)
            ≡ some r)
          × (status_fails r ≡ false))

  answered-Redeemed :
      (device email code : String) (db : Db)
      → Redeemed email code db
          (answered by_client key (by_client (code_order key device email code)) db)
  unfolding Redeemed answered status_of purchase_request
  answered-Redeemed device email code db =
      elim (Option-cases (send "/purchase" (code_order key device email code))) [
        | inl none_sent ↦ rw (none_sent) (inl refl)
        | inr (r, sent) ↦ elim (Bool-cases (status_fails r)) [
          | inl fails ↦ rw (sent, fails) (inl refl)
          | inr fine ↦ inr (device, r, sent, fine)
        ]
      ]

  request-Redeemed :
      (email code : String) (db : Db)
      → Redeemed email code db (redeem_request by_client key email code db)
  unfolding redeem_request request create_purchase_data Redeemed answered
  request-Redeemed email code db = elim (Bool-cases (email == "")) [
    | inl nobody ↦ rw (nobody) (inl refl)
    | inr somebody ↦ rw (somebody) (answered-Redeemed (get_text "model" db) email code db)
  ]

  after-Redeemed :
      (email code : String) (db : Db) (o : Bool × Db)
      → lookup "prouser" o.1.m ≡ lookup "prouser" db.m
      → Redeemed email code db (continue o (redeem_request by_client key email code))
  unfolding Redeemed
  after-Redeemed email code db (false, d) same = inl same
  after-Redeemed email code db (true, d) same = since (request-Redeemed email code d)
    where
      since :
          Redeemed email code d (redeem_request by_client key email code d)
          → Redeemed email code db (redeem_request by_client key email code d)
      since (inl kept) = inl (kept ∙ same)
      since (inr sent) = inr sent

  -- Whichever transactions fail: redeeming a code leaves the Pro flag as it was, unless the server has
  -- answered to the order of just this code for the e-mail address in lower case, and has
  -- given the status "ok" or no `BaseResponse` in its answer.
  pub redeem_reseller_code-Redeemed :
      (email code : String) (db : Db)
      → Redeemed (to_lower email) code db (redeem_reseller_code by_client key email code db)
  unfolding redeem_reseller_code set_email set_reseller_code last_write
  redeem_reseller_code-Redeemed email code db =
      let first : Call = set_email (to_lower email) in
      let second : Call = ignore (set_reseller_code code) in
      after-Redeemed (to_lower email) code db ((first then_ second) db) (
        then-Leaves "prouser" first second
          (mutate-Leaves "prouser" (("emailAddress", text (to_lower email)) ∷ []) (λ o. refl))
          (mutate-Leaves "prouser" (("resellercode", text code) ∷ []) (λ o. refl)) db)

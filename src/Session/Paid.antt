-- ===== src/Session/Paid.antt =====
-- Who becomes Pro by a purchase of internalsdk/session_model.go.
use lantern_client.Prelude.{
  ◌≡◌, refl, ap, ◌∙◌, ◌⊎◌, inl, inr, String, true, false, not, ◌&&◌, Option, none, some, [], ◌∷◌,
  Dict, if◌then◌else◌, ◌==◌, split, Bool-cases, Option-cases, eq_iff,
}
use lantern_client.Session.Db.{Db, Call, get_text, set_pro_user}
use lantern_client.Session.Purchases.{
  currency_of, with_plan, create_purchase_data, paid, request, submit_apple_pay_payment,
  submit_google_play_payment, submit_stripe_play_payment, restored, restore_purchase,
}

-- The order that a purchase of a plan in a currency sends.
abbrev pub order : String → String → String → String → String → String → String → Dict String
order key device provider email token plan cur =
    ("idempotencyKey", key)
    ∷ ("provider", provider)
    ∷ ("email", email)
    ∷ ("deviceName", device)
    ∷ ("token", token)
    ∷ ("plan", plan)
    ∷ ("currency", cur)
    ∷ []

-- A purchase is refused and changes nothing, or the server has answered "ok" to the order of just this
-- plan, paid with this token in the currency of the plan's id, for an email that is not empty unless the
-- provider is Apple; then the user is set to Pro, and nothing else is done.
unfoldable pub IsPurchase :
    (Dict String → Option String) → String → String → String → String → String → Call → Type 0
IsPurchase purchase key provider email plan token call =
    (db : Db)
    → (call db ≡ (false, db))
      ⊎ ((cur : String) × (call db ≡ set_pro_user true db)
          × (currency_of (split 45 plan) ≡ some cur)
          × ((email == "" && not (provider == "applepay")) ≡ false)
          × (purchase (order key (get_text "model" db) provider email token plan cur) ≡ some "ok"))

module _ (purchase : Dict String → Option String) (key email plan token : String) where
  -- The three providers that sell plans.
  abbrev pub IsStore : String → Type 0
  IsStore provider =
      (device : String)
      → create_purchase_data key device email provider "" token plan ≡ (
          if email == "" && not (provider == "applepay")
          then none
          else with_plan
              (("idempotencyKey", key)
                ∷ ("provider", provider)
                ∷ ("email", email)
                ∷ ("deviceName", device)
                ∷ [])
              token plan (currency_of (split 45 plan)))

  paid-IsPurchase :
      (provider : String)
      → IsStore provider
      → IsPurchase purchase key provider email plan token (λ db.
        paid purchase key
          (request purchase key
            (create_purchase_data key (get_text "model" db) email provider "" token plan))
          db)
  unfolding IsPurchase paid request with_plan
  paid-IsPurchase provider store db =
      rw (store (get_text "model" db))
        elim (Bool-cases (email == "" && not (provider == "applepay"))) [
          | inl nobody ↦ rw (nobody) (inl refl)
          | inr somebody ↦ elim (Option-cases (currency_of (split 45 plan))) [
            | inl no_plan ↦ rw (somebody, no_plan) (inl refl)
            | inr (cur, in_plan) ↦
                elim (Option-cases
                  (purchase (order key (get_text "model" db) provider email token plan cur))) [
                    | inl no_answer ↦ rw (somebody, in_plan, no_answer) (inl refl)
                    | inr (status, answer) ↦ elim (Bool-cases (status == "ok")) [
                      | inl is_ok ↦
                          rw (somebody, in_plan, answer, is_ok)
                            (inr (
                              cur,
                              refl,
                              refl,
                              refl,
                              answer ∙ ap some ((eq_iff status "ok").0 is_ok),
                            ))
                      | inr not_ok ↦ rw (somebody, in_plan, answer, not_ok) (inl refl)
                    ]
                  ]
          ]
        ]

-- `restorePurchase` does nothing and fails, or the server has answered "ok" to the email and the code; then
-- it sets the user to Pro, and returns no error even where that could not be stored.
unfoldable pub IsRestore : (Dict String → Option String) → String → String → String → Call → Type 0
IsRestore restore email code provider call =
    (db : Db)
    → (call db ≡ (false, db))
      ⊎ ((call db ≡ (true, (set_pro_user true db).1))
          × (restore (
                ("verified_email", email)
                ∷ ("provider", provider)
                ∷ ("deviceName", get_text "device" db)
                ∷ ("email_verification_code", code)
                ∷ [])
              ≡ some "ok"))

restored_by :
    (answer : Option String) (db : Db)
    → (restored answer db ≡ (false, db))
      ⊎ ((restored answer db ≡ (true, (set_pro_user true db).1)) × (answer ≡ some "ok"))
unfolding restored
restored_by none db = inl refl
restored_by (some status) db = elim (Bool-cases (status == "ok")) [
  | inl is_ok ↦ rw (is_ok) (inr (refl, ap some ((eq_iff status "ok").0 is_ok)))
  | inr not_ok ↦ rw (not_ok) (inl refl)
]

-- A purchase by Apple, Google or Stripe, or a restored one, makes a user Pro only if the server has said
-- "ok" to it, and otherwise returns an error and changes nothing.
pub purchases_lem :
    (purchase restore : Dict String → Option String) (key email plan token code provider : String)
    → IsPurchase purchase key "applepay" email plan token
        (submit_apple_pay_payment purchase key email plan token)
      × IsPurchase purchase key "googleplay" email plan token
          (submit_google_play_payment purchase key email plan token)
      × IsPurchase purchase key "stripe" email plan token
          (submit_stripe_play_payment purchase key email plan token)
      × IsRestore restore email code provider (restore_purchase restore email code provider)
unfolding create_purchase_data submit_apple_pay_payment submit_google_play_payment
    submit_stripe_play_payment restore_purchase IsRestore
purchases_lem purchase restore key email plan token code provider = (
  paid-IsPurchase purchase key email plan token "applepay" (λ device. refl),
  paid-IsPurchase purchase key email plan token "googleplay" (λ device. refl),
  paid-IsPurchase purchase key email plan token "stripe" (λ device. refl),
  λ db.
      restored_by
        (restore (
          ("verified_email", email)
          ∷ ("provider", provider)
          ∷ ("deviceName", get_text "device" db)
          ∷ ("email_verification_code", code)
          ∷ []))
        db,
)

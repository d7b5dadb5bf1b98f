-- ===== src/Tests/Pro.antt =====
-- Runs of the Pro account's updates, polling and plans of internalsdk/pro.
use lantern_client.Prelude.{
  ◌≡◌, ◌≤◌, ◌↔◌, refl, true, false, Option, none, some, List, [], ◌∷◌, pos,
}
use lantern_client.Pro.User.{User, UserDataResponse, update_user_data}
use lantern_client.Pro.Status.{Reported, update_user_data-Reported}
use lantern_client.Pro.Poll.{
  Runner, enter, leave, Turn, fired, done, poll, became_pro, run_section, enter_at, leave_from,
}
use lantern_client.Pro.Exclusion.{
  run_sections, idle, pollers-run_sections, ReachesPro, poll-became_pro_iff,
}
use lantern_client.Pro.Plans.{PlansCache, PaymentMethodsResponse, plans}
use lantern_client.Settings.Value.{array, item, string, done as no_more}

abbrev ada : User
ada = record {
  user_id = pos 5;
  token = "t";
  referral = "r";
  expiration = pos 100;
  email = "a@b";
  user_level = "pro";
  user_status = "active";
  devices = record { id = "d1"; name = "phone"; created = pos 1 } ∷ [];
}

abbrev ada_response : Option UserDataResponse
ada_response = some (record { error = none; user = some ada })

update_user_data-Reported_example :
    Reported ada_response
      (some "d2")
      (some false)
      (update_user_data ada_response (some "d2") (some false)).0
      (update_user_data ada_response (some "d2") (some false)).1
update_user_data-Reported_example = update_user_data-Reported ada_response (some "d2") (some false)

abbrev polling : Runner
polling = record { is_running = true; pollers = 1 }

runs : run_sections (enter ∷ enter ∷ leave ∷ enter ∷ []) idle ≡ some polling
unfolding run_sections run_section enter_at leave_from
runs = refl

pollers-run_sections_example :
    (polling.pollers ≤ 1) × ((polling.is_running ≡ true) ↔ (polling.pollers ≡ 1))
pollers-run_sections_example =
    pollers-run_sections (enter ∷ enter ∷ leave ∷ enter ∷ []) polling runs

abbrev turns : List Turn
turns = fired none false (some 20) ∷ fired (some ada) false (some 40) ∷ done ∷ []

poll-became_pro_iff_example : (poll turns ≡ became_pro) ↔ ReachesPro turns
poll-became_pro_iff_example = poll-became_pro_iff turns

abbrev empty_cache : PlansCache
empty_cache = record { plans = none; payment_methods = none }

abbrev answer : Option PaymentMethodsResponse
answer = some (record {
  plans = "1y-usd" ∷ [];
  providers =
      (
        "desktop",
        some (record {
          method = "card";
          providers = some (record { name = "card"; logo_urls = [] }) ∷ [];
        })
            ∷ [],
      )
      ∷ [];
  logo = ("card", array (item (string "card.svg") no_more)) ∷ [];
})

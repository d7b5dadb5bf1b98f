-- ===== src/Tests/DataCap.antt =====
-- Runs of the data cap of desktop/datacap/datacap.go.
use lantern_client.Prelude.{
  ℕ, ◌<◌, ◌*◌, refl, Bool, false, Option, some, List, [], ◌∷◌, IsDistinct, eqb, if◌then◌else◌, ltb,
  arith,
}
use lantern_client.DataCap.Notify.{Quota, Desktop, process_all, start}
use lantern_client.DataCap.Levels.{campaigns, campaigns-process_all}

abbrev desktop : Desktop
desktop = record {
  translate = λ k args. k;
  itoa = λ n. if eqb n 80 then "80" else "50";
  click_url = "c";
  icon_url = "i";
  app_name = "LANTERN";
}

abbrev quota : ℕ → Quota
quota n = record { mib_used = n; mib_allowed = 100 }

abbrev above : ℕ → ℕ → ℕ → Bool
above used allowed percent = ltb (percent * allowed) (100 * used)

abbrev updates : List (Quota × Option Bool)
updates =
    (quota 60, some false)
    ∷ (quota 70, some false)
    ∷ (quota 90, some false)
    ∷ (quota 100, some false)
    ∷ []

campaigns-process_all_example :
    IsDistinct (campaigns (process_all desktop above updates (start (1 ∷ []))).effects)
campaigns-process_all_example = campaigns-process_all desktop refl refl above (1 ∷ []) updates

-- A percentage in steps of fifty.
abbrev percent_of : ℕ → ℕ → ℕ
percent_of u a = if ltb (u * 2) a then 0 else 50

abbrev nothing_allowed : Quota
nothing_allowed = record { mib_used = 0; mib_allowed = 0 }

below : 0 < 0 → percent_of 0 0 < 100
below h = omega arith

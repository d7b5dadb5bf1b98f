-- ===== src/Tests/Shown.antt =====
-- Runs of the VPN model (internalsdk/vpn_model.go).
use lantern_client.Prelude.{◌≡◌, true, false, List, [], ◌∷◌}
use lantern_client.Session.Db.{Db}
use lantern_client.Session.Vpn.{init_vpn_model}
use lantern_client.Session.Switching.{
  Event, switching, reported, run, view, begun, shown_after, run-shown_after,
}

-- The transaction of the second event fails.
abbrev fresh : Db
fresh = record { m = []; faults = false ∷ false ∷ true ∷ [] }

abbrev events : List Event
events = switching true ∷ reported "connected" ∷ switching false ∷ []

run-shown_after_example :
    view (run events (record { db = (init_vpn_model fresh).1; calls = [] }))
    ≡ shown_after events (begun fresh)
run-shown_after_example = run-shown_after fresh events

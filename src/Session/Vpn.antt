-- ===== src/Session/Vpn.antt =====
-- `VPNModel` of internalsdk/vpn_model.go, on the path database. `calls` are the calls of the manager, the
-- last first: true for `StartVPN`.
use lantern_client.Prelude.{String, Bool, true, false, not, List, [], ◌∷◌, if◌then◌else◌, ◌==◌}
use lantern_client.Session.Db.{Db, Call, Bandwidth, text, bandwidth, mutate, get_text}

pub record Vpn : Type 0 where
  pub db : Db
  pub calls : List Bool

unfoldable pub get_vpn_status : Vpn → String
get_vpn_status v = get_text "/vpn_status" v.db

-- `SaveVPNStatus`.
unfoldable pub save_vpn_status : String → Call
save_vpn_status status = mutate (("/vpn_status", text status) ∷ [])

-- `initVpnModel`.
unfoldable pub init_vpn_model : Call
init_vpn_model db =
    let status = get_text "/vpn_status" db in
    if not (status == "")
    then mutate (("/vpn_status", text status) ∷ []) db
    else mutate (("/vpn_status", text "disconnected") ∷ []) db

abbrev pub changing : Bool → String
changing on = if on then "connecting" else "disconnecting"

unfoldable pub switched : Bool → Vpn → Bool × Db → Bool × Vpn
switched on v (true, db) = (true, record { db = db; calls = on ∷ v.calls })
switched on v (false, db) = (false, record v { db = db })

-- `SwitchVPN`.
unfoldable pub switch_vpn : Bool → Vpn → Bool × Vpn
unfolding switched
switch_vpn on v = switched on v (save_vpn_status (changing on) v.db)

-- The case `connectingDelay`.
unfoldable pub connecting_delay : Bool → Vpn → Vpn
connecting_delay on v = record v { db = (save_vpn_status (changing on) v.db).1 }

unfoldable pub update_bandwidth : Bandwidth → Call
update_bandwidth b = mutate (("/bandwidth", bandwidth b) ∷ [])

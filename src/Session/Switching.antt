-- ===== src/Session/Switching.antt =====
-- What the VPN model (internalsdk/vpn_model.go) shows, as a machine with one status and no database.
use lantern_client.Prelude.{
  ◌≡◌, refl, ◌∙◌, ap, String, Bool, true, false, not, Dict, List, [], ◌∷◌, if◌then◌else◌, ◌==◌,
  Bool-cases, inl, inr,
}
use lantern_client.Session.Db.{Db, DbValue, write_at, Bandwidth, text, bandwidth, mutate, get_text}
use lantern_client.Session.Vpn.{
  Vpn, get_vpn_status, save_vpn_status, init_vpn_model, changing, switched, switch_vpn,
  connecting_delay, update_bandwidth,
}
use lantern_client.Session.Stored.{will_fail, first_fails, IsReadBack, text_stored, others}

-- What happens to the model: the UI switches the VPN or asks for the delay, and the client of the manager
-- reports any status, or a bandwidth.
pub data Event : Type 0 where
  switching delayed : Bool → Event
  reported : String → Event
  measured : Bandwidth → Event

pub step : Event → Vpn → Vpn
step (switching on) v = (switch_vpn on v).1
step (delayed on) v = connecting_delay on v
step (reported status) v = record v { db = (save_vpn_status status v.db).1 }
step (measured b) v = record v { db = (update_bandwidth b v.db).1 }

pub run : List Event → Vpn → Vpn
unfolding step
run [] v = v
run (e ∷ es) v = run es (step e v)

-- The machine: the status, the calls of the manager with the last first, and which of the next
-- transactions fail.
pub record View : Type 0 where
  pub status : String
  pub calls : List Bool
  pub faults : List Bool

rest : List Bool → List Bool
rest [] = []
rest (b ∷ bs) = bs

-- A transaction that writes the status.
told : String → View → View
unfolding rest
told status v = record v {
  status = if first_fails v.faults then v.status else status;
  faults = rest v.faults;
}

called : Bool → Bool → View → View
called fails on v = if fails then v else record v { calls = on ∷ v.calls }

-- The manager starts or stops the VPN only where the status was stored; a delay calls nobody.
shown : Event → View → View
unfolding told called
shown (switching true) v = called (first_fails v.faults) true (told "connecting" v)
shown (switching false) v = called (first_fails v.faults) false (told "disconnecting" v)
shown (delayed true) v = told "connecting" v
shown (delayed false) v = told "disconnecting" v
shown (reported status) v = told status v
shown (measured b) v = record v { faults = rest v.faults }

pub shown_after : List Event → View → View
unfolding shown
shown_after [] v = v
shown_after (e ∷ es) v = shown_after es (shown e v)

pub view : Vpn → View
view v = record { status = get_vpn_status v; calls = v.calls; faults = v.db.faults }

-- The start keeps a status from an earlier run, if there is one.
pub begun : Db → View
unfolding told
begun db =
    let old = get_text "/vpn_status" db in
    told (if old == "" then "disconnected" else old)
      (record { status = old; calls = []; faults = db.faults })

faults_left :
    (fs : List Bool) (values : Dict DbValue) (db : Db)
    → (write_at fs values (record db { faults = fs })).1.faults ≡ rest fs
unfolding rest
faults_left [] values db = refl
faults_left (false ∷ fs) values db = refl
faults_left (true ∷ fs) values db = refl

flag_left :
    (fs : List Bool) (values : Dict DbValue) (db : Db)
    → not (write_at fs values db).0 ≡ first_fails fs
unfolding first_fails
flag_left [] values db = refl
flag_left (false ∷ fs) values db = refl
flag_left (true ∷ fs) values db = refl

view-told :
    (status : String) (v : Vpn)
    → view (record v { db = (save_vpn_status status v.db).1 }) ≡ told status (view v)
unfolding view told get_vpn_status save_vpn_status mutate IsReadBack will_fail
view-told status v =
    rw
      (
        (text_stored "/vpn_status" status v.db).0,
        faults_left v.db.faults (("/vpn_status", text status) ∷ []) v.db,
      )
      refl

view-answered :
    (on : Bool) (v : Vpn) (r : Bool × Db)
    → view (switched on v r).1 ≡ called (not r.0) on (view (record v { db = r.1 }))
unfolding switched called view get_vpn_status
view-answered on v (true, db) = refl
view-answered on v (false, db) = refl

view-switched :
    (on : Bool) (v : Vpn)
    → view (switched on v (save_vpn_status (changing on) v.db)).1
      ≡ called (first_fails v.db.faults) on (told (changing on) (view v))
unfolding save_vpn_status mutate
view-switched on v =
    let r = save_vpn_status (changing on) v.db in
    view-answered on v r
    ∙ ap (λ fails. called fails on (view (record v { db = r.1 }))) (flag_left v.db.faults _ v.db)
    ∙ ap (called (first_fails v.db.faults) on) (view-told (changing on) v)

view-measured :
    (b : Bandwidth) (v : Vpn)
    → view (record v { db = (update_bandwidth b v.db).1 })
      ≡ record (view v) { faults = rest v.db.faults }
unfolding view get_vpn_status update_bandwidth mutate get_text
view-measured b v =
    rw
      (
        others "/bandwidth" (bandwidth b) v.db "/vpn_status" refl,
        faults_left v.db.faults (("/bandwidth", bandwidth b) ∷ []) v.db,
      )
      refl

view-step : (e : Event) (v : Vpn) → view (step e v) ≡ shown e (view v)
unfolding step shown switch_vpn connecting_delay view
view-step (switching true) v = view-switched true v
view-step (switching false) v = view-switched false v
view-step (delayed true) v = view-told "connecting" v
view-step (delayed false) v = view-told "disconnecting" v
view-step (reported status) v = view-told status v
view-step (measured b) v = view-measured b v

view-begun : (db : Db) → view (record { db = (init_vpn_model db).1; calls = [] }) ≡ begun db
unfolding begun init_vpn_model view told get_vpn_status save_vpn_status
view-begun db = elim (Bool-cases (get_text "/vpn_status" db == "")) [
  | inl e ↦ rw e (view-told "disconnected" (record { db = db; calls = [] }))
  | inr e ↦ rw e (view-told (get_text "/vpn_status" db) (record { db = db; calls = [] }))
]

view-run : (es : List Event) (v : Vpn) → view (run es v) ≡ shown_after es (view v)
unfolding run shown_after
view-run [] v = refl
view-run (e ∷ es) v = view-run es (step e v) ∙ ap (shown_after es) (view-step e v)

-- From any database, and whichever transactions fail: after any switches, delays, reports and measurements
-- the status, the calls of the manager and the failures still to come are those of the machine. So
-- the status is the last word that could be stored, and the manager was called just for
-- the switches whose word was stored.
pub run-shown_after :
    (db : Db) (es : List Event)
    → view (run es (record { db = (init_vpn_model db).1; calls = [] })) ≡ shown_after es (begun db)
run-shown_after db es = view-run es _ ∙ ap (shown_after es) (view-begun db)

-- ===== src/Tests/Ws.antt =====
-- Runs of the connections and services of desktop/ws.
use lantern_client.Prelude.{
  List, String, true, Option, none, some, [], ◌∷◌, Ensures, if◌then◌else◌, ◌==◌,
}
use lantern_client.Ws.Clients.{
  Clients, new_clients, request, message, remove, written, step, run, broadcast,
}
use lantern_client.Ws.Safety.{IsSound, IsSound-new_clients, run-IsSound}
use lantern_client.Ws.Delivery.{Delivered, broadcast-Delivered}
use lantern_client.Ws.Services.{new_ui_channel}
use lantern_client.Ws.Inbox.{
  Event, registering, message, taking, RunResult, run-seen_after, new_ui_channel-IsRegistry,
}
use lantern_client.Ws.Inbox.{run as run_channel}

run-IsSound_example : Ensures IsSound (
    run
      (request true true ∷ request true true ∷ message "a" ∷ remove 1 ∷ remove 1 ∷ written 2 ∷ [])
      new_clients)
run-IsSound_example =
    run-IsSound
      (request true true ∷ request true true ∷ message "a" ∷ remove 1 ∷ remove 1 ∷ written 2 ∷ [])
      new_clients IsSound-new_clients

abbrev two_conns : Clients
two_conns = elim (run (request true true ∷ request true true ∷ []) new_clients) [
  | none ↦ new_clients
  | some c ↦ c
]

two_conns-IsSound : IsSound two_conns
unfolding run step
two_conns-IsSound =
    run-IsSound (request true true ∷ request true true ∷ []) new_clients IsSound-new_clients

broadcast-Delivered_example :
    Ensures (Delivered "a" two_conns.conns two_conns) (broadcast "a" two_conns)
broadcast-Delivered_example = broadcast-Delivered "a" two_conns two_conns-IsSound

abbrev encode : String → String → Option String
encode t msg = some msg

abbrev decode_type : String → Option String
decode_type b = if b == "{" then none else some "settings"

abbrev decode : Option String → String → Option String
decode initial b = some b

abbrev talk : List Event
talk =
    registering "settings" ("hello" ∷ []) none
    ∷ registering "pro" [] none
    ∷ message "m"
    ∷ message "{"
    ∷ taking "settings"
    ∷ []

run-seen_after_example :
    RunResult encode decode_type decode talk new_ui_channel
      (run_channel encode decode_type decode talk new_ui_channel)
run-seen_after_example =
    run-seen_after encode decode_type decode talk new_ui_channel new_ui_channel-IsRegistry

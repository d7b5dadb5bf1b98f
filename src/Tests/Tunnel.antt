-- ===== src/Tests/Tunnel.antt =====
-- Runs of the iOS tunnel.
use lantern_client.Prelude.{
  ◌≡◌, refl, ◌+◌, true, none, some, List, [], ◌∷◌, get_elem?, set, IfSome, ◌⊎◌,
}
use lantern_client.Tunnel.Tcp
use lantern_client.Tunnel.Tcp.{
  Tcp, handle, take_request, dialed, answered, start_copy, begin, take_at, dialed_at, answered_at,
  start_at, step,
}
use lantern_client.Tunnel.Dials.{IsExact, new_handler-IsExact, run-IsExact}
use lantern_client.Tunnel.Settled.{pending, dials, CanDial, run-Settles}

-- Of three connections two are dialed for, and the third waits.
abbrev crowd : List Tcp.Event
crowd =
    handle true
    ∷ handle true
    ∷ handle true
    ∷ take_request 0
    ∷ take_request 1
    ∷ dialed 1 (some 7)
    ∷ []

abbrev crowded : Tcp
crowded = elim (Tcp.run crowd Tcp.new_handler) as (λ x. Tcp) [ none ↦ Tcp.new_handler | some s ↦ s ]

crowded_test : (crowded.idle ≡ 0) × (crowded.dialing_conns ≡ 3)
unfolding Tcp.run step begin take_at dialed_at get_elem? set Tcp.new_handler
crowded_test = (refl, refl)

no_third_dial : step (take_request 2) crowded ≡ none
unfolding Tcp.run step begin take_at dialed_at get_elem? set Tcp.new_handler
no_third_dial = refl

run-IsExact_example : IfSome IsExact (Tcp.run crowd Tcp.new_handler)
run-IsExact_example = run-IsExact crowd Tcp.new_handler new_handler-IsExact

abbrev later : List Tcp.Event
later = answered 1 ∷ take_request 2 ∷ start_copy 1 ∷ dialed 0 none ∷ answered 0 ∷ []

abbrev settled : Tcp
settled = elim (Tcp.run later crowded) as (λ x. Tcp) [ none ↦ crowded | some s ↦ s ]

crowd_runs : Tcp.run crowd Tcp.new_handler ≡ some crowded
unfolding Tcp.run step begin take_at dialed_at get_elem? set Tcp.new_handler
crowd_runs = refl

later_runs : Tcp.run later crowded ≡ some settled
unfolding Tcp.run step begin take_at dialed_at answered_at start_at get_elem? set Tcp.new_handler
later_runs = refl

run-Settles_example :
    (dials later + pending settled ≡ pending crowded)
    × ((settled.dialing_conns ≡ 0) ⊎ ((e : Tcp.Event) × CanDial e settled))
run-Settles_example =
    run-Settles crowd later crowded settled crowd_runs (tt, (tt, (tt, (tt, (tt, tt))))) later_runs

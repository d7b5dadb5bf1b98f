-- ===== src/Tests/Udp.antt =====
-- Runs of the UDP handler of the iOS tunnel.
use lantern_client.Prelude.{
  ◌≡◌, refl, ℕ, ◌+◌, ◌≤◌, String, true, false, Option, none, some, List, [], ◌∷◌, get_elem?, set,
  arith, IfSome,
}
use lantern_client.Tunnel.Udp.{
  raw, Udp, Target, Event, connect, on_dial_succeeded, dial_done, on_receive, idle_timeout,
  on_close, step, run, begin, succeeded_at, connected_at, receive_at, idle_at, close_at, same_conn,
  new_handler, receive_to, written, depth,
}
use lantern_client.Tunnel.Leak.{receive_to-closed}
use lantern_client.Tunnel.Watched.{IsTrue, new_handler-IsTrue, run-IsTrue}
use lantern_client.Tunnel.Idle.{Over, receives, run-IsOver}

abbrev site : Target
site = record { ip = "240.0.0.7"; is_dns_port = false; known = true; resolved = true }

abbrev dns : String
dns = "10.0.0.1"

abbrev after : List Event → Udp → Udp
after es s = elim (run dns es s) as (λ x. Udp) [ none ↦ s | some s' ↦ s' ]

abbrev linked : Udp
linked = after (connect 4 site ∷ on_dial_succeeded 0 ∷ dial_done 0 ∷ []) new_handler

abbrev the_end : List Event
the_end = on_receive 0 true ∷ idle_timeout 0 ∷ on_close 0 ∷ []

is_linked : linked.upstreams (raw 4) ≡ some 0
unfolding run step begin succeeded_at connected_at get_elem? set new_handler same_conn
is_linked = refl

it_ends : run dns the_end linked ≡ some (after the_end linked)
unfolding run step begin succeeded_at connected_at receive_at idle_at close_at get_elem? set
    new_handler
it_ends = refl

abbrev no_dns : String → Option (String × ℕ)
no_dns packet = none

receive_to-closed_example : receive_to no_dns 4 "packet" (after the_end linked) ≡ written 0 "packet"
receive_to-closed_example =
    receive_to-closed dns no_dns the_end linked (after the_end linked) 4 0 "packet" is_linked
      (tt, (tt, (tt, tt))) it_ends

abbrev two_more : List Event
two_more = on_receive 0 false ∷ on_receive 0 true ∷ []

the_end-Over : Over 0 1 (after the_end linked)
unfolding run step begin succeeded_at connected_at receive_at idle_at close_at get_elem? set
    new_handler
the_end-Over =
    (_, refl, record { not_dialing = refl; no_timing = refl; left = refl; fits = omega arith })

two_more_come :
    run dns two_more (after the_end linked) ≡ some (after two_more (after the_end linked))
unfolding run step begin succeeded_at connected_at receive_at idle_at close_at get_elem? set
    new_handler
two_more_come = refl

run-IsOver_example : receives 0 two_more + 1 ≤ depth
run-IsOver_example =
    run-IsOver dns 0 1 two_more (after the_end linked) (after two_more (after the_end linked))
      the_end-Over two_more_come

abbrev whole_life : List Event
whole_life = connect 4 site ∷ on_dial_succeeded 0 ∷ dial_done 0 ∷ the_end

run-IsTrue_example : IfSome IsTrue (run dns whole_life new_handler)
run-IsTrue_example = run-IsTrue dns whole_life new_handler new_handler-IsTrue

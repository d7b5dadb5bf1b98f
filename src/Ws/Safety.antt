-- ===== src/Ws/Safety.antt =====
-- No schedule of desktop/ws/ws.go sends on a closed queue or closes a queue twice.
use lantern_client.Prelude.{
  ℕ, suc, ◌≤◌, ◌≡◌, refl, ◌∙◌, String, true, false, List, [], ◌∷◌, length, ltb, eqb, if◌then◌else◌,
  arith, Bool-cases, inl, inr, Ensures, Ensures-bind, Ensures-mono, length-append, ltb→lt,
}
use lantern_client.Ws.Clients.{
  Chan, Clients, capacity, new_clients, add_conn, serve_http, send_chan, close_chan, try_send,
  send_each, broadcast, has, without, do_remove_conn, locked_remove_conn, take_next, Event, request,
  message, remove, written, step, run,
}

abbrev pub AllDifferent : List ℕ → Type 0
AllDifferent [] = Unit
AllDifferent (i ∷ is) = (has i is ≡ false) × AllDifferent is

-- The connections of the map are open, are numbered up to the counter, and are all different; no
-- queue is longer than its capacity.
pub record IsSound (c : Clients) : Type 0 where
  pub live : (id : ℕ) → has id c.conns ≡ true → ((c.chan id).closed ≡ false) × (id ≤ c.next_id)
  pub bounded : (id : ℕ) → length (c.chan id).queue ≤ capacity
  pub different : AllDifferent c.conns

pub IsSound-new_clients : IsSound new_clients
unfolding new_clients has
IsSound-new_clients = record {
  live = λ id h. absurd (cc);
  bounded = λ id. omega arith;
  different = tt;
}

add_conn-IsSound : (c : Clients) → IsSound c → IsSound (add_conn c)
unfolding add_conn has
add_conn-IsSound c h = record {
  live = λ id e. ground (arith, h.live id);
  bounded = λ id. ground (arith, h.bounded id);
  different = (ground (arith, h.live (suc c.next_id)), h.different);
}

pub has-without :
    (j id : ℕ) (is : List ℕ) → has j (without id is) ≡ (if eqb id j then false else has j is)
unfolding has without
has-without j id [] = ground arith
has-without j id (i ∷ is) = ground (arith, has-without j id is)

AllDifferent-without : (id : ℕ) (is : List ℕ) → AllDifferent is → AllDifferent (without id is)
unfolding without
AllDifferent-without id [] h = tt
AllDifferent-without id (i ∷ is) h = elim (Bool-cases (eqb id i)) [
  | inl e ↦ rw e (AllDifferent-without id is h.1)
  | inr e ↦ rw e (ground (arith, has-without i id is, h.0), AllDifferent-without id is h.1)
]

abbrev IsOpen : Chan → Type 0
IsOpen ch = (ch.closed ≡ false) × (length ch.queue ≤ capacity)

send_chan-IsOpen : (msg : String) (ch : Chan) → IsOpen ch → Ensures IsOpen (send_chan msg ch)
unfolding send_chan
send_chan-IsOpen msg ch (is_open, fits) = elim (Bool-cases (ltb (length ch.queue) capacity)) [
  | inl room ↦
      rw (is_open, room) (refl, omega (arith, ltb→lt _ _ room, length-append ch.queue (msg ∷ [])))
  | inr full ↦ rw (is_open, full) (refl, fits)
]

-- A send to a connection of the map does not panic, and changes no other part of the map.
abbrev Sent : Clients → Clients → Type 0
Sent c c' = IsSound c' × (c'.conns ≡ c.conns)

try_send-IsSound :
    (msg : String) (id : ℕ) (c : Clients)
    → IsSound c
    → has id c.conns ≡ true
    → Ensures (Sent c) (try_send msg id c)
unfolding try_send
try_send-IsSound msg id c h e =
    let (is_open, numbered) = h.live id e in
    Ensures-bind IsOpen (Sent c) (send_chan msg (c.chan id)) _
      (send_chan-IsOpen msg _ (is_open, h.bounded id))
      λ ch (still_open, fits). (
        record {
          live = λ j f. ground (arith, h.live j);
          bounded = λ j. ground (arith, h.bounded j);
          different = h.different;
        },
        refl,
      )

send_each-IsSound :
    (msg : String) (ids : List ℕ) (c : Clients)
    → IsSound c
    → ((id : ℕ) → has id ids ≡ true → has id c.conns ≡ true)
    → Ensures (Sent c) (send_each msg ids c)
unfolding send_each
send_each-IsSound msg [] c h within = (h, refl)
send_each-IsSound msg (id ∷ ids) c h within =
    Ensures-bind (Sent c) (Sent c) (try_send msg id c) _
      (try_send-IsSound msg id c h (within id (unfold has in ground arith)))
      λ c' (h', same).
        Ensures-mono (Sent c') (Sent c) _
          (send_each-IsSound msg ids c' h' (λ j e. rw same (within j (unfold has in ground arith))))
          λ c'' _ (h'', same'). (h'', same' ∙ same)

do_remove_conn-IsSound :
    (id : ℕ) (c : Clients)
    → IsSound c
    → has id c.conns ≡ true
    → Ensures IsSound (do_remove_conn id c)
unfolding do_remove_conn close_chan
do_remove_conn-IsSound id c h e = rw (h.live id e).0 (record {
  live = λ j f. ground (arith, has-without j id c.conns, h.live j);
  bounded = λ j. ground (arith, h.bounded j, h.bounded id);
  different = AllDifferent-without id c.conns h.different;
})

locked_remove_conn-IsSound :
    (id : ℕ) (c : Clients) → IsSound c → Ensures IsSound (locked_remove_conn id c)
unfolding locked_remove_conn
locked_remove_conn-IsSound id c h = elim (Bool-cases (has id c.conns)) [
  | inl e ↦ rw e (do_remove_conn-IsSound id c h e)
  | inr e ↦ rw e h
]

take_next-IsSound : (id : ℕ) (c : Clients) → IsSound c → IsSound (take_next id c)
unfolding take_next
take_next-IsSound id c h = record {
  live = λ j f. ground (arith, h.live j);
  bounded = λ j. ground (arith, h.bounded j, h.bounded id);
  different = h.different;
}

step-IsSound : (e : Event) (c : Clients) → IsSound c → Ensures IsSound (step e c)
unfolding step serve_http broadcast
step-IsSound (request true true) c h = add_conn-IsSound c h
step-IsSound (request true false) c h = h
step-IsSound (request false upgraded) c h = h
step-IsSound (message msg) c h =
    Ensures-mono (Sent c) IsSound _ (send_each-IsSound msg c.conns c h (λ id e. e))
      λ c' _ (h', same). h'
step-IsSound (remove id) c h = locked_remove_conn-IsSound id c h
step-IsSound (written id) c h = take_next-IsSound id c h

-- From any state whose connections are open and different and whose queues are within their
-- capacity, such as the start, every sequence of requests, messages, removals (also repeated,
-- also of connections that never were) and writes runs without a panic, and ends in such a
-- state.
pub run-IsSound : (es : List Event) (c : Clients) → IsSound c → Ensures IsSound (run es c)
unfolding run
run-IsSound [] c h = h
run-IsSound (e ∷ es) c h =
    Ensures-bind IsSound IsSound (step e c) _ (step-IsSound e c h) (run-IsSound es)

-- ===== src/Ws/Delivery.antt =====
-- Who gets a message, and what the end of `writeAll` leaves (desktop/ws/ws.go).
use mathlib.Core.Path.{subst}
use lantern_client.Prelude.{
  ℕ, ◌≡◌, refl, ◌∙◌, String, true, false, some, List, [], ◌∷◌, ◌++◌, length, ltb, eqb,
  if◌then◌else◌, arith, Bool-cases, inl, inr, Ensures, Ensures-mono,
}
use lantern_client.Ws.Clients.{
  Chan, Clients, capacity, update, send_chan, close_chan, try_send, send_each, broadcast, has,
  without, do_remove_conn, remove_each, close_all,
}
use lantern_client.Ws.Safety.{AllDifferent, IsSound, has-without}

-- The queue after a send to it: full queues drop the message.
abbrev pub deliver : String → Chan → Chan
deliver msg ch =
    if ltb (length ch.queue) capacity then record ch { queue = ch.queue ++ msg ∷ [] } else ch

send_chan-deliver :
    (msg : String) (ch : Chan) → ch.closed ≡ false → send_chan msg ch ≡ some (deliver msg ch)
unfolding send_chan
send_chan-deliver msg ch h = ground arith

-- Each of the connections got the message once; the others kept their queues.
pub record Delivered (msg : String) (ids : List ℕ) (c c' : Clients) : Type 0 where
  pub same_conns : c'.conns ≡ c.conns
  pub queues : (j : ℕ) → c'.chan j ≡ (if has j ids then deliver msg (c.chan j) else c.chan j)

deliver-closed : (msg : String) (ch : Chan) → (deliver msg ch).closed ≡ ch.closed
deliver-closed msg ch = ground arith

once_more :
    (f : Chan → Chan) (chan : ℕ → Chan) (id j : ℕ) (ids : List ℕ)
    → has id ids ≡ false
    → (if has j ids then f (update chan id (f (chan id)) j) else update chan id (f (chan id)) j)
      ≡ (if has j (id ∷ ids) then f (chan j) else chan j)
unfolding has
once_more f chan id j ids fresh = elim (Bool-cases (eqb id j)) [
  | inl e ↦
      let same : id ≡ j = ground arith in
      subst
        (λ i.
          (if has i ids then f (update chan id (f (chan id)) i) else update chan id (f (chan id)) i)
          ≡ (if has i (id ∷ ids) then f (chan i) else chan i))
        same (ground arith)
  | inr e ↦ ground arith
]

send_each-Delivered :
    (msg : String) (ids : List ℕ) (c : Clients)
    → AllDifferent ids
    → ((j : ℕ) → has j ids ≡ true → (c.chan j).closed ≡ false)
    → Ensures (Delivered msg ids c) (send_each msg ids c)
unfolding send_each has
send_each-Delivered msg [] c d h = record { same_conns = refl; queues = λ j. refl }
send_each-Delivered msg (id ∷ ids) c (fresh, d) h =
    let is_open : (c.chan id).closed ≡ false = h id (ground arith) in
    let c₁ : Clients = record c { chan = update c.chan id (deliver msg (c.chan id)) } in
    let sent : try_send msg id c ≡ some c₁ =
      unfold try_send in rw (send_chan-deliver msg (c.chan id) is_open) in
    rw sent (
      Ensures-mono (Delivered msg ids c₁) (Delivered msg (id ∷ ids) c) (send_each msg ids c₁)
        (send_each-Delivered msg ids c₁ d
          (λ j e. ground (arith, h j, deliver-closed msg (c.chan id))))
        λ c' _ k. record {
          same_conns = k.same_conns;
          queues = λ j. k.queues j ∙ once_more (deliver msg) c.chan id j ids fresh;
        })

-- In a sound state a broadcast returns, and then every connection of the map has the message at the
-- end of its queue, once, unless the queue was full; every other queue is as it was.
pub broadcast-Delivered :
    (msg : String) (c : Clients) → IsSound c → Ensures (Delivered msg c.conns c) (broadcast msg c)
unfolding broadcast
broadcast-Delivered msg c h = send_each-Delivered msg c.conns c h.different (λ j e. (h.live j e).0)

-- What a removal of the connections leaves.
pub record Removed (ids : List ℕ) (c c' : Clients) : Type 0 where
  pub left : (j : ℕ) → has j c'.conns ≡ (if has j ids then false else has j c.conns)
  pub closed : (j : ℕ) → (c'.chan j).closed ≡ (if has j ids then true else (c.chan j).closed)
  pub kept : (j : ℕ) → (c'.chan j).queue ≡ (c.chan j).queue

remove_each-Removed :
    (ids : List ℕ) (c : Clients)
    → AllDifferent ids
    → ((j : ℕ) → has j ids ≡ true → (c.chan j).closed ≡ false)
    → Ensures (Removed ids c) (remove_each ids c)
unfolding remove_each has
remove_each-Removed [] c d h = record { left = λ j. refl; closed = λ j. refl; kept = λ j. refl }
remove_each-Removed (id ∷ ids) c (fresh, d) h =
    let is_open : (c.chan id).closed ≡ false = h id (ground arith) in
    let c₁ : Clients = record c {
      conns = without id c.conns;
      chan = update c.chan id (record (c.chan id) { closed = true });
    } in
    let done : do_remove_conn id c ≡ some c₁ = unfold do_remove_conn close_chan in ground arith in
    rw done (
      Ensures-mono (Removed ids c₁) (Removed (id ∷ ids) c) (remove_each ids c₁)
        (remove_each-Removed ids c₁ d (λ j e. ground (arith, h j)))
        λ c' _ k. record {
          left = λ j. k.left j ∙ ground (arith, has-without j id c.conns);
          closed = λ j. k.closed j ∙ ground arith;
          kept = λ j. k.kept j ∙ ground arith;
        })

-- When `out` is closed, the deferred loop ends without a panic; then every connection that was in the
-- map has left it and its queue is closed, with what was queued still in it, and the queues of others
-- are as they were.
close_all-Removed : (c : Clients) → IsSound c → Ensures (Removed c.conns c) (close_all c)
unfolding close_all
close_all-Removed c h = remove_each-Removed c.conns c h.different (λ j e. (h.live j e).0)

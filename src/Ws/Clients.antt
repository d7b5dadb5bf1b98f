-- ===== src/Ws/Clients.antt =====
-- `clientChannels` of desktop/ws/ws.go: the connected windows and the messages queued for each.
-- A connection is its id. `none` is a panic of Go: a send on a closed channel, or a second close.
-- `writeAll` alone sends to the queues and closes them, so its rounds stand in sequence; connections
-- arrive and are drained between any two of its steps.
use lantern_client.Prelude.{
  ℕ, suc, String, Bool, true, false, Option, none, some, List, [], ◌∷◌, ◌++◌, length, ltb, eqb,
  if◌then◌else◌, ◌>>=◌,
}

-- `out chan []byte` of a connection: what is queued, and whether it was closed.
pub record Chan : Type 0 where
  pub queue : List String
  pub closed : Bool

-- `conns` holds the ids in the order in which `range` visits the map.
pub record Clients : Type 0 where
  pub next_id : ℕ
  pub conns : List ℕ
  pub chan : ℕ → Chan

abbrev pub capacity : ℕ
capacity = 1000

abbrev pub opened : Chan
opened = record { queue = []; closed = false }

abbrev pub update : (ℕ → Chan) → ℕ → Chan → ℕ → Chan
update f i c j = if eqb i j then c else f j

unfoldable pub new_clients : Clients
new_clients = record { next_id = 0; conns = []; chan = λ i. opened }

-- `ServeHTTP` where the method is GET and the upgrade succeeds.
unfoldable pub add_conn : Clients → Clients
add_conn c =
    let id = suc c.next_id in
    record c { next_id = id; conns = id ∷ c.conns; chan = update c.chan id opened }

-- `ServeHTTP`: any other method, or a failed upgrade, adds no connection.
unfoldable pub serve_http : Bool → Bool → Clients → Clients
serve_http is_get upgraded c = if is_get then (if upgraded then add_conn c else c) else c

unfoldable pub send_chan : String → Chan → Option Chan
send_chan msg ch =
    if ch.closed
    then none
    else if ltb (length ch.queue) capacity
    then some (record ch { queue = ch.queue ++ msg ∷ [] })
    else some ch

-- `select { case conn.out <- msg: default: }`: a full queue drops the message.
unfoldable pub try_send : String → ℕ → Clients → Option Clients
try_send msg id c =
    send_chan msg (c.chan id) >>= λ ch. some (record c { chan = update c.chan id ch })

unfoldable pub send_each : String → List ℕ → Clients → Option Clients
send_each msg [] c = some c
send_each msg (id ∷ ids) c = try_send msg id c >>= λ c'. send_each msg ids c'

-- A message on `out` goes to a clone of the map.
unfoldable pub broadcast : String → Clients → Option Clients
broadcast msg c = send_each msg c.conns c

unfoldable pub has : ℕ → List ℕ → Bool
has id [] = false
has id (i ∷ is) = elim (eqb id i) [ true ↦ true | false ↦ has id is ]

unfoldable pub without : ℕ → List ℕ → List ℕ
without id [] = []
without id (i ∷ is) = let rest = without id is in if eqb id i then rest else i ∷ rest

unfoldable pub close_chan : Chan → Option Chan
close_chan ch = if ch.closed then none else some (record ch { closed = true })

-- `doRemoveConn`: the queue is closed and the connection leaves the map.
unfoldable pub do_remove_conn : ℕ → Clients → Option Clients
do_remove_conn id c = close_chan (c.chan id) >>= λ ch.
    some (record c { conns = without id c.conns; chan = update c.chan id ch })

-- `lockedRemoveConn`: a connection that is no more in the map is skipped.
unfoldable pub locked_remove_conn : ℕ → Clients → Option Clients
locked_remove_conn id c = if has id c.conns then do_remove_conn id c else some c

unfoldable pub remove_each : List ℕ → Clients → Option Clients
remove_each [] c = some c
remove_each (id ∷ ids) c = do_remove_conn id c >>= λ c'. remove_each ids c'

-- The deferred part of `writeAll`.
unfoldable pub close_all : Clients → Option Clients
close_all c = remove_each c.conns c

tail_of : List String → List String
tail_of [] = []
tail_of (m ∷ ms) = ms

-- The writer of a connection takes the next message of its queue.
unfoldable pub take_next : ℕ → Clients → Clients
unfolding tail_of
take_next id c = record c {
  chan = update c.chan id (record (c.chan id) { queue = tail_of (c.chan id).queue });
}

pub data Event : Type 0 where
  request : Bool → Bool → Event
  message : String → Event
  remove : ℕ → Event
  written : ℕ → Event

unfoldable pub step : Event → Clients → Option Clients
step (request is_get upgraded) c = some (serve_http is_get upgraded c)
step (message msg) c = broadcast msg c
step (remove id) c = locked_remove_conn id c
step (written id) c = some (take_next id c)

unfoldable pub run : List Event → Clients → Option Clients
run [] c = some c
run (e ∷ es) c = step e c >>= λ c'. run es c'

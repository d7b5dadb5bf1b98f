-- ===== src/Tunnel/Udp.antt =====
-- The UDP traffic of the iOS tunnel (`directUDPHandler` and `UDPCallbacks` of internalsdk/ios/udp.go). Calls of
-- `Connect`, the callbacks of the upstream and the goroutine of `idleTiming` are interleaved: an event is
-- one of them up to its next exchange on a channel, and `none` says that it cannot happen now, since a
-- channel is full or empty. The n-th connection has the upstream n. That an upstream reports
-- its success once is what its interface says; dnsgrab, the resolver and the bytes are arguments.
use lantern_client.Prelude.{
  ℕ, ◌+◌, ◌-◌, String, Bool, true, false, ◌&&◌, Option, none, some, List, [], ◌∷◌, ◌++◌, eqb, ltb,
  ◌==◌, if◌then◌else◌, get_elem?, set, ◌>>=◌,
}

-- A connection of the network stack, or the n-th one wrapped by `newThreadLimitingUDPConn`. As keys of a
-- map they are compared by their address.
pub data Conn : Type 0 where
  raw limited : ℕ → Conn

unfoldable pub same_conn : Conn → Conn → Bool
same_conn (raw m) (raw n) = eqb m n
same_conn (limited m) (limited n) = eqb m n
same_conn (raw m) (limited n) = false
same_conn (limited m) (raw n) = false

-- Where `Connect` is.
pub data Phase : Type 0 where
  dialing connected timed_out : Phase

abbrev pub is_dialing : Phase → Bool
is_dialing dialing = true
is_dialing connected = false
is_dialing timed_out = false

-- `UDPCallbacks`: what its channels hold, whether `idleTiming` runs, and which ends were asked to close.
pub record Flow : Type 0 where
  pub downstream : ℕ
  pub phase : Phase
  pub dial_succeeded : Bool
  pub received : ℕ
  pub wrote : ℕ
  pub timing : Bool
  pub upstream_closed : Bool
  pub downstream_closed : Bool

pub record Udp : Type 0 where
  pub dialing_conns : ℕ
  pub flows : List Flow
  pub upstreams : Conn → Option ℕ

-- The capacity of `received` and of `wrote`.
abbrev pub depth : ℕ
depth = 10

abbrev pub put : Conn → Option ℕ → (Conn → Option ℕ) → Conn → Option ℕ
put key value m other = if same_conn key other then value else m other

-- What `Connect` finds out of its target: its address and port, the host that dnsgrab knows, and
-- whether the host is resolved.
pub record Target : Type 0 where
  pub ip : String
  pub is_dns_port : Bool
  pub known : Bool
  pub resolved : Bool

pub data Event : Type 0 where
  connect : ℕ → Target → Event
  on_dial_succeeded dial_done dial_timeout : ℕ → Event
  on_receive : ℕ → Bool → Event
  on_written take_received take_wrote idle_timeout on_close : ℕ → Event

abbrev pub new_flow : ℕ → Flow
new_flow downstream = record {
  downstream = downstream;
  phase = dialing;
  dial_succeeded = false;
  received = 0;
  wrote = 0;
  timing = false;
  upstream_closed = false;
  downstream_closed = false;
}

abbrev pub with_flow : ℕ → Flow → Udp → Udp
with_flow n f s = record s { flows = set s.flows n f }

-- `Connect` up to its `select`. DNS needs no upstream; an unknown or unresolved host is an error.
unfoldable pub begin : String → ℕ → Target → Udp → Udp
begin dns_host downstream t s =
    if t.ip == dns_host && t.is_dns_port
    then s
    else if t.known && t.resolved
    then record s {
      dialing_conns = s.dialing_conns + 1;
      flows = s.flows ++ new_flow downstream ∷ [];
    }
    else s

-- `OnDialSucceeded`.
unfoldable pub succeeded_at : ℕ → Flow → Udp → Option Udp
succeeded_at n f s =
    if f.dial_succeeded then none else some (with_flow n (record f { dial_succeeded = true }) s)

-- The `select` finds that the dial has succeeded; `idleTiming` begins.
unfoldable pub connected_at : ℕ → Flow → Udp → Option Udp
connected_at n f s =
    if is_dialing f.phase && f.dial_succeeded
    then some (
        with_flow n (record f { phase = connected; timing = true })
          (record s {
            dialing_conns = s.dialing_conns - 1;
            upstreams = put (raw f.downstream) (some n) s.upstreams;
          }))
    else none

-- The `select` finds that the time is up.
unfoldable pub timeout_at : ℕ → Flow → Udp → Option Udp
timeout_at n f s =
    if is_dialing f.phase
    then some (
        with_flow n (record f { phase = timed_out; upstream_closed = true })
          (record s { dialing_conns = s.dialing_conns - 1 }))
    else none

-- `OnReceive`, given whether the datagram is written to the downstream: all of it, its wait for
-- room in the channel included.
unfoldable pub receive_at : ℕ → Bool → Flow → Udp → Option Udp
receive_at n written f s =
    if ltb f.received depth
    then some (
        with_flow n
          (record f {
            received = f.received + 1;
            upstream_closed = if written then f.upstream_closed else true;
          })
          s)
    else none

-- `OnWritten`.
unfoldable pub written_at : ℕ → Flow → Udp → Option Udp
written_at n f s =
    if ltb f.wrote depth then some (with_flow n (record f { wrote = f.wrote + 1 }) s) else none

-- `idleTiming` takes a notice and starts its timer again.
unfoldable pub take_received_at : ℕ → Flow → Udp → Option Udp
take_received_at n f s =
    if f.timing && ltb 0 f.received
    then some (with_flow n (record f { received = f.received - 1 }) s)
    else none

unfoldable pub take_wrote_at : ℕ → Flow → Udp → Option Udp
take_wrote_at n f s =
    if f.timing && ltb 0 f.wrote
    then some (with_flow n (record f { wrote = f.wrote - 1 }) s)
    else none

-- The timer of `idleTiming` fires, and it returns.
unfoldable pub idle_at : ℕ → Flow → Udp → Option Udp
idle_at n f s =
    if f.timing
    then some (with_flow n (record f { timing = false; upstream_closed = true }) s)
    else none

-- `OnClose`: the key is the wrapped downstream.
unfoldable pub close_at : ℕ → Flow → Udp → Option Udp
close_at n f s = some (
    with_flow n (record f { downstream_closed = true })
      (record s { upstreams = put (limited n) none s.upstreams }))

module _ (dns_host : String) where
  unfoldable pub step : Event → Udp → Option Udp
  step (connect d t) s = some (begin dns_host d t s)
  step (on_dial_succeeded n) s = get_elem? s.flows n >>= λ f. succeeded_at n f s
  step (dial_done n) s = get_elem? s.flows n >>= λ f. connected_at n f s
  step (dial_timeout n) s = get_elem? s.flows n >>= λ f. timeout_at n f s
  step (on_receive n written) s = get_elem? s.flows n >>= λ f. receive_at n written f s
  step (on_written n) s = get_elem? s.flows n >>= λ f. written_at n f s
  step (take_received n) s = get_elem? s.flows n >>= λ f. take_received_at n f s
  step (take_wrote n) s = get_elem? s.flows n >>= λ f. take_wrote_at n f s
  step (idle_timeout n) s = get_elem? s.flows n >>= λ f. idle_at n f s
  step (on_close n) s = get_elem? s.flows n >>= λ f. close_at n f s

  unfoldable pub run : List Event → Udp → Option Udp
  run [] s = some s
  run (e ∷ es) s = step e s >>= run es

-- What `ReceiveTo` does with a packet of the network stack.
pub data Delivery : Type 0 where
  written : ℕ → String → Delivery
  replied : String → Delivery
  no_answers failed : Delivery

-- The answer of dnsgrab to a query, with the number of its answers; `none` is an error.
unfoldable pub receive_dns : Option (String × ℕ) → Delivery
receive_dns none = failed
receive_dns (some (response, num_answers)) =
    if eqb num_answers 0 then no_answers else replied response

deliver : (String → Option (String × ℕ)) → String → Option ℕ → Delivery
deliver process packet none = receive_dns (process packet)
deliver process packet (some u) = written u packet

-- `ReceiveTo`.
unfoldable pub receive_to : (String → Option (String × ℕ)) → ℕ → String → Udp → Delivery
unfolding deliver
receive_to process downstream packet s = deliver process packet (s.upstreams (raw downstream))

-- `newDirectUDPHandler`.
unfoldable pub new_handler : Udp
new_handler = record { dialing_conns = 0; flows = []; upstreams = λ c. none }

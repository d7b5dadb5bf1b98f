-- ===== src/Tunnel/Tcp.antt =====
-- The TCP connections of the iOS tunnel (`proxiedTCPHandler` of internalsdk/ios/tcp.go): the calls of `Handle`,
-- the goroutines of `handleDial` that dial for them, and the copying. Goroutines are interleaved: an event is
-- a stretch of one of them up to its next exchange on a channel, and `none` says that
-- it cannot happen now. A goroutine of `handleDial` has no state of its own but the request that it
-- holds, so of those without one only the number counts. What a dial answers is an argument of its
-- event, `none` being an error; the bytes that are copied and the contexts are left out.
use lantern_client.Prelude.{
  ℕ, suc, ◌+◌, ◌-◌, Bool, true, false, Option, none, some, List, [], ◌∷◌, ◌++◌, eqb, if◌then◌else◌,
  get_elem?, set, ◌>>=◌,
}

abbrev pub max_concurrent_dials : ℕ
max_concurrent_dials = 2

-- Where a call of `Handle` with a known host is: it offers its request, a goroutine dials for it or
-- has the answer, the upstream is stored, its bytes are copied, the entry of the map is deleted.
pub data Call : Type 0 where
  requesting dialing : Call
  answering : Option ℕ → Call
  stored copying : ℕ → Call
  removed failed finished : Call

-- The n-th call has the downstream n.
pub record Tcp : Type 0 where
  pub idle : ℕ
  pub dialing_conns : ℕ
  pub copying_conns : ℕ
  pub calls : List Call
  pub upstreams : ℕ → Option ℕ

pub data Event : Type 0 where
  handle : Bool → Event
  take_request : ℕ → Event
  dialed : ℕ → Option ℕ → Event
  answered start_copy end_copy close_all : ℕ → Event

abbrev pub put : ℕ → Option ℕ → (ℕ → Option ℕ) → ℕ → Option ℕ
put key value m other = if eqb key other then value else m other

abbrev pub to : ℕ → Call → Tcp → Tcp
to c next s = record s { calls = set s.calls c next }

-- `Handle` up to its request, given whether the address is one of dnsgrab.
unfoldable pub begin : Bool → Tcp → Tcp
begin false s = s
begin true s = record s { dialing_conns = s.dialing_conns + 1; calls = s.calls ++ requesting ∷ [] }

-- `req := range h.dialRequests`
unfoldable pub take_at : ℕ → ℕ → Call → Tcp → Option Tcp
take_at c (suc idle) requesting s = some (to c dialing (record s { idle = idle }))
take_at c _ _ s = none

unfoldable pub dialed_at : ℕ → Option ℕ → Call → Tcp → Option Tcp
dialed_at c upstream dialing s = some (to c (answering upstream) s)
dialed_at c upstream _ s = none

-- The answer reaches `Handle`, which stores the upstream or returns the error.
unfoldable pub answered_at : ℕ → Call → Tcp → Option Tcp
answered_at c (answering none) s =
    some (to c failed (record s { idle = suc s.idle; dialing_conns = s.dialing_conns - 1 }))
answered_at c (answering (some u)) s = some (
    to c (stored u) (record s {
      idle = suc s.idle;
      dialing_conns = s.dialing_conns - 1;
      upstreams = put c (some u) s.upstreams;
    }))
answered_at c _ s = none

unfoldable pub start_at : ℕ → Call → Tcp → Option Tcp
start_at c (stored u) s = some (to c (copying u) (record s { copying_conns = s.copying_conns + 1 }))
start_at c _ s = none

unfoldable pub end_at : ℕ → Call → Tcp → Option Tcp
end_at c (copying u) s = some (to c removed (record s { upstreams = put c none s.upstreams }))
end_at c _ s = none

unfoldable pub close_at : ℕ → Call → Tcp → Option Tcp
close_at c removed s = some (to c finished (record s { copying_conns = s.copying_conns - 1 }))
close_at c _ s = none

unfoldable pub step : Event → Tcp → Option Tcp
step (handle known) s = some (begin known s)
step (take_request c) s = get_elem? s.calls c >>= λ x. take_at c s.idle x s
step (dialed c upstream) s = get_elem? s.calls c >>= λ x. dialed_at c upstream x s
step (answered c) s = get_elem? s.calls c >>= λ x. answered_at c x s
step (start_copy c) s = get_elem? s.calls c >>= λ x. start_at c x s
step (end_copy c) s = get_elem? s.calls c >>= λ x. end_at c x s
step (close_all c) s = get_elem? s.calls c >>= λ x. close_at c x s

unfoldable pub run : List Event → Tcp → Option Tcp
run [] s = some s
run (e ∷ es) s = step e s >>= run es

-- `newProxiedTCPHandler`, `handleDials` included.
unfoldable pub new_handler : Tcp
new_handler = record {
  idle = max_concurrent_dials;
  dialing_conns = 0;
  copying_conns = 0;
  calls = [];
  upstreams = λ c. none;
}

-- ===== src/Tunnel/Leak.antt =====
-- What is left of a UDP connection of the tunnel after it is closed or idle.
use lantern_client.Prelude.{
  ◌≡◌, refl, ◌∙◌, ℕ, String, Option, some, List, [], ◌∷◌, IfSome, IfSome-bind, IfSome-mono,
  IfSome-some, All,
}
use lantern_client.Tunnel.Steps.{at_flow, guarded, unguarded, begin_lem}
use lantern_client.Tunnel.Udp.{
  raw, Udp, Event, connect, on_dial_succeeded, dial_done, dial_timeout, on_receive, on_written,
  take_received, take_wrote, idle_timeout, on_close, same_conn, succeeded_at, timeout_at,
  receive_at, written_at, take_received_at, take_wrote_at, idle_at, close_at, step, run, receive_to,
  written,
}

-- A connection that is done is what `Connect` stores in the map.
abbrev pub IsNotDone : Event → Type 0
IsNotDone (dial_done n) = ⊥
IsNotDone _ = Unit

-- The entries of the connections of the network stack are the same.
abbrev SameMap : Udp → Udp → Type 0
SameMap s s' = (d : ℕ) → s'.upstreams (raw d) ≡ s.upstreams (raw d)

step-SameMap :
    (host : String) (e : Event) (s : Udp) → IsNotDone e → IfSome (SameMap s) (step host e s)
unfolding step succeeded_at timeout_at receive_at written_at take_received_at take_wrote_at idle_at
    close_at same_conn
step-SameMap host (connect d t) s q = begin_lem (SameMap s) host d t s (λ j. refl) (λ j. refl)
step-SameMap host (on_dial_succeeded n) s q =
    at_flow (SameMap s) n (succeeded_at n) s
      λ f at. unguarded (SameMap s) f.dial_succeeded _ (λ h j. refl)
step-SameMap host (dial_done n) s q = elim q [ ]
step-SameMap host (dial_timeout n) s q =
    at_flow (SameMap s) n (timeout_at n) s λ f at. guarded (SameMap s) _ _ (λ h j. refl)
step-SameMap host (on_receive n w) s q =
    at_flow (SameMap s) n (receive_at n w) s λ f at. guarded (SameMap s) _ _ (λ h j. refl)
step-SameMap host (on_written n) s q =
    at_flow (SameMap s) n (written_at n) s λ f at. guarded (SameMap s) _ _ (λ h j. refl)
step-SameMap host (take_received n) s q =
    at_flow (SameMap s) n (take_received_at n) s λ f at. guarded (SameMap s) _ _ (λ h j. refl)
step-SameMap host (take_wrote n) s q =
    at_flow (SameMap s) n (take_wrote_at n) s λ f at. guarded (SameMap s) _ _ (λ h j. refl)
step-SameMap host (idle_timeout n) s q =
    at_flow (SameMap s) n (idle_at n) s λ f at. guarded (SameMap s) _ _ (λ h j. refl)
step-SameMap host (on_close n) s q = at_flow (SameMap s) n (close_at n) s (λ f at j. refl)

run-SameMap :
    (host : String) (es : List Event) (s : Udp)
    → All IsNotDone es
    → IfSome (SameMap s) (run host es s)
unfolding run
run-SameMap host [] s q = λ j. refl
run-SameMap host (e ∷ es) s q =
    IfSome-bind (SameMap s) (SameMap s) (step host e s) (run host es) (step-SameMap host e s q.0)
      λ t first.
        IfSome-mono (SameMap t) (SameMap s) (run host es t) (run-SameMap host es t q.1)
          λ s' later j. later j ∙ first j

-- Once a connection is stored for a downstream, nothing but a new connection changes that: its close, its
-- time-out and whatever else happens leave the entry, so that every later packet of the downstream
-- is still written to the upstream that has been closed.
pub receive_to-closed :
    (host : String) (process : String → Option (String × ℕ)) (es : List Event) (s s' : Udp)
    (d u : ℕ) (packet : String)
    → s.upstreams (raw d) ≡ some u
    → All IsNotDone es
    → run host es s ≡ some s'
    → receive_to process d packet s' ≡ written u packet
unfolding receive_to
receive_to-closed host process es s s' d u packet entry quiet ran =
    rw (IfSome-some (SameMap s) _ s' (run-SameMap host es s quiet) ran d, entry) refl

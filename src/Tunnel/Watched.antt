-- ===== src/Tunnel/Watched.antt =====
-- What holds of the UDP connections of the tunnel in every state that its handler reaches.
use lantern_client.Prelude.{
  ◌≡◌, refl, ◌∙◌, ◌⊎◌, ◌>>=◌, ℕ, ◌+◌, ◌-◌, ◌≤◌, String, Bool, true, false, ◌&&◌, Option, none, some,
  List, [], ◌∷◌, ◌++◌, eqb, if◌then◌else◌, arith, get_elem?, set, get_elem?-set, get_elem?-snoc,
  total, total-snoc, total-set, Bool-cases, eqb→eq, IfSome, IfSome-bind, inl, inr, some_eq, All,
  All-append, All-get_elem?, All-set,
}
use lantern_client.Tunnel.Udp.{
  Phase, dialing, connected, timed_out, Flow, Udp, Conn, raw, limited, Event, connect,
  on_dial_succeeded, dial_done, dial_timeout, on_receive, on_written, take_received, take_wrote,
  idle_timeout, on_close, is_dialing, depth, put, same_conn, with_flow, succeeded_at, connected_at,
  timeout_at, receive_at, written_at, take_received_at, take_wrote_at, idle_at, close_at, step, run,
  new_flow, new_handler,
}
use lantern_client.Tunnel.Steps.{at_flow, guarded, unguarded, begin_lem}

abbrev is_connected : Phase → Bool
is_connected connected = true
is_connected dialing = false
is_connected timed_out = false

-- 1 where `Connect` waits for the dial.
abbrev pub dials : Flow → ℕ
dials f = if is_dialing f.phase then 1 else 0

pub record IsWatched (f : Flow) : Type 0 where
  pub received_fit : f.received ≤ depth
  pub wrote_fit : f.wrote ≤ depth
  pub succeeded : is_connected f.phase ≡ true → f.dial_succeeded ≡ true
  pub closed : is_dialing f.phase ≡ false → f.timing ≡ false → f.upstream_closed ≡ true

abbrev pub Entry : Udp → ℕ → ℕ → Type 0
Entry s d u =
    (f : Flow) × (get_elem? s.flows u ≡ some f) × (f.downstream ≡ d) × (is_connected f.phase ≡ true)

pub record IsTrue (s : Udp) : Type 0 where
  pub counted : s.dialing_conns ≡ total dials s.flows
  pub watched : All IsWatched s.flows
  pub mapped : (d u : ℕ) → s.upstreams (raw d) ≡ some u → Entry s d u
  pub unwrapped : (n : ℕ) → s.upstreams (limited n) ≡ none

-- The flow `n` moves on from `old` to `g`.
module _ (s s' : Udp) (n : ℕ) (old g : Flow) (at : get_elem? s.flows n ≡ some old) (h : IsTrue s)
    (same : s'.flows ≡ set s.flows n g) where
  found : (u : ℕ) → get_elem? s'.flows u ≡ (if eqb n u then some g else get_elem? s.flows u)
  found u = rw same (get_elem?-set s.flows n u old g at)

  old-IsWatched : IsWatched old
  old-IsWatched = All-get_elem? IsWatched s.flows n old h.watched at

  -- A connection that is in the map stays connected.
  stays_in_map :
      g.downstream ≡ old.downstream
      → (is_connected old.phase ≡ true → is_connected g.phase ≡ true)
      → (d u : ℕ) → Entry s d u
      → Entry s' d u
  stays_in_map down stays d u (f, there, f_down, f_connected) = elim (Bool-cases (eqb n u)) [
    | inl e ↦
        let is_f : old ≡ f = some_eq (rw (← at) (rw (eqb→eq n u e) there)) in
        (g, found u ∙ rw e refl, down ∙ rw is_f f_down, stays (rw is_f f_connected))
    | inr e ↦ (f, found u ∙ rw e there, f_down, f_connected)
  ]

  moved :
      s'.dialing_conns + dials old ≡ s.dialing_conns + dials g
      → IsWatched g
      → ((d u : ℕ) → s'.upstreams (raw d) ≡ some u → Entry s' d u)
      → ((k : ℕ) → s'.upstreams (limited k) ≡ none)
      → IsTrue s'
  moved count good entries none_wrapped = record {
    counted = rw same (omega (arith, total-set dials s.flows n old g at, h.counted));
    watched = rw same (All-set IsWatched s.flows n g h.watched good);
    mapped = entries;
    unwrapped = none_wrapped;
  }

  -- Where the flow stays in its phase and the entries of the network stack are left.
  quiet :
      g.downstream ≡ old.downstream
      → g.phase ≡ old.phase
      → s'.dialing_conns ≡ s.dialing_conns
      → ((d : ℕ) → s'.upstreams (raw d) ≡ s.upstreams (raw d))
      → ((k : ℕ) → s'.upstreams (limited k) ≡ none)
      → (IsWatched old → IsWatched g)
      → IsTrue s'
  quiet down phase count raws none_wrapped good =
      moved (rw (count, phase) refl) (good old-IsWatched)
        (λ d u e. stays_in_map down (λ c. rw phase c) d u (h.mapped d u (rw (← raws d) e)))
        none_wrapped

dialing-connected : (p : Phase) → is_dialing p ≡ true → ¬ (is_connected p ≡ true)
dialing-connected dialing d c = cc
dialing-connected connected d c = cc
dialing-connected timed_out d c = cc

put_or_before :
    (key d n u : ℕ) (m : Conn → Option ℕ)
    → put (raw key) (some n) m (raw d) ≡ some u
    → ((eqb key d ≡ true) × (n ≡ u)) ⊎ (m (raw d) ≡ some u)
unfolding same_conn
put_or_before key d n u m e = elim (Bool-cases (eqb key d)) [
  | inl here ↦ inl (here, ground (arith, e))
  | inr other ↦ inr (ground (arith, e))
]

module _ (s : Udp) (h : IsTrue s) where
  -- `g` changes what the channels hold and which ends are closed, under a test.
  quiet_if :
      (n : ℕ) (test : Flow → Bool) (g : Flow → Flow)
      → ((f : Flow) → (g f).downstream ≡ f.downstream)
      → ((f : Flow) → (g f).phase ≡ f.phase)
      → ((f : Flow) → test f ≡ true → IsWatched f → IsWatched (g f))
      → IfSome IsTrue
          (get_elem? s.flows n >>= λ f. if test f then some (with_flow n (g f) s) else none)
  quiet_if n test g down phase good =
      at_flow IsTrue n (λ f _. if test f then some (with_flow n (g f) s) else none) s
        λ f at. guarded IsTrue (test f) _ λ t.
          quiet s (with_flow n (g f) s) n f (g f) at h refl (down f) (phase f) refl (λ d. refl)
            h.unwrapped (good f t)

  begin-IsTrue :
      (d : ℕ)
      → IsTrue
          (record s { dialing_conns = s.dialing_conns + 1; flows = s.flows ++ new_flow d ∷ [] })
  begin-IsTrue d = record {
    counted = omega (arith, total-snoc dials s.flows (new_flow d), h.counted);
    watched = All-append IsWatched s.flows _ h.watched (
      record {
        received_fit = omega arith;
        wrote_fit = omega arith;
        succeeded = λ c. cc;
        closed = λ c. cc;
      },
      tt,
    );
    mapped = λ j u e.
        let (f, there, down, is_up) = h.mapped j u e in
        (f, get_elem?-snoc s.flows u f (new_flow d) there, down, is_up);
    unwrapped = h.unwrapped;
  }

  connected-IsTrue :
      (n : ℕ) (f : Flow) → get_elem? s.flows n ≡ some f → IfSome IsTrue (connected_at n f s)
  unfolding connected_at same_conn
  connected-IsTrue n f at =
      let is_up : is_dialing f.phase && f.dial_succeeded ≡ true → f.dial_succeeded ≡ true =
        λ t. ground arith in
      let g : Flow = record f { phase = connected; timing = true } in
      let s' : Udp = with_flow n g (record s {
        dialing_conns = s.dialing_conns - 1;
        upstreams = put (raw f.downstream) (some n) s.upstreams;
      }) in
      guarded IsTrue (is_dialing f.phase && f.dial_succeeded) s' λ t.
        moved s s' n f g at h refl (ground (arith, total-set dials s.flows n f g at, h.counted))
          (let old = old-IsWatched s s' n f g at h refl in
            record {
              received_fit = old.received_fit;
              wrote_fit = old.wrote_fit;
              succeeded = λ _. is_up t;
              closed = λ _ c. cc;
            })
          (λ d u e. elim (put_or_before f.downstream d n u s.upstreams e) [
            | inl (here, is_u) ↦ (
              g,
              found s s' n f g at h refl u ∙ rw (← is_u) (ground arith),
              eqb→eq f.downstream d here,
              refl,
            )
            | inr before ↦
                stays_in_map s s' n f g at h refl refl (λ _. refl) d u (h.mapped d u before)
          ])
          h.unwrapped

  timeout-IsTrue :
      (n : ℕ) (f : Flow) → get_elem? s.flows n ≡ some f → IfSome IsTrue (timeout_at n f s)
  unfolding timeout_at
  timeout-IsTrue n f at =
      let g : Flow = record f { phase = timed_out; upstream_closed = true } in
      let s' : Udp = with_flow n g (record s { dialing_conns = s.dialing_conns - 1 }) in
      guarded IsTrue (is_dialing f.phase) s' λ t.
        let old = old-IsWatched s s' n f g at h refl in
        moved s s' n f g at h refl (ground (arith, total-set dials s.flows n f g at, h.counted))
          (record {
            received_fit = old.received_fit;
            wrote_fit = old.wrote_fit;
            succeeded = λ c. cc;
            closed = λ _ _. refl;
          })
          (λ d u e.
            stays_in_map s s' n f g at h refl refl (λ c. absurd (dialing-connected f.phase t c)) d u
              (h.mapped d u e))
          h.unwrapped

  step-IsTrue : (host : String) (e : Event) → IfSome IsTrue (step host e s)
  unfolding step succeeded_at receive_at written_at take_received_at take_wrote_at idle_at close_at
      same_conn
  step-IsTrue host (connect d t) = begin_lem IsTrue host d t s h (begin-IsTrue d)
  step-IsTrue host (on_dial_succeeded n) = at_flow IsTrue n (succeeded_at n) s λ f at.
      unguarded IsTrue f.dial_succeeded _ λ _.
        let g : Flow = record f { dial_succeeded = true } in
        quiet s (with_flow n g s) n f g at h refl refl refl refl (λ d. refl) h.unwrapped
          λ o. record {
            received_fit = o.received_fit;
            wrote_fit = o.wrote_fit;
            succeeded = λ _. refl;
            closed = o.closed;
          }
  step-IsTrue host (dial_done n) = at_flow IsTrue n (connected_at n) s (connected-IsTrue n)
  step-IsTrue host (dial_timeout n) = at_flow IsTrue n (timeout_at n) s (timeout-IsTrue n)
  step-IsTrue host (on_receive n w) =
      quiet_if n _ _ (λ f. refl) (λ f. refl)
        λ f t o. record {
          received_fit = ground (arith, o.received_fit);
          wrote_fit = o.wrote_fit;
          succeeded = o.succeeded;
          closed = λ p q. ground (arith, o.closed p q);
        }
  step-IsTrue host (on_written n) = quiet_if n _ _ (λ f. refl) (λ f. refl) (λ f t o. ground arith)
  step-IsTrue host (take_received n) =
      quiet_if n _ _ (λ f. refl) (λ f. refl) (λ f t o. ground arith)
  step-IsTrue host (take_wrote n) = quiet_if n _ _ (λ f. refl) (λ f. refl) (λ f t o. ground arith)
  step-IsTrue host (idle_timeout n) = quiet_if n _ _ (λ f. refl) (λ f. refl) (λ f t o. ground arith)
  step-IsTrue host (on_close n) = at_flow IsTrue n (close_at n) s λ f at.
      let g : Flow = record f { downstream_closed = true } in
      let s' : Udp = with_flow n g (record s { upstreams = put (limited n) none s.upstreams }) in
      quiet s s' n f g at h refl refl refl refl (λ d. refl) (λ k. ground (arith, h.unwrapped k))
        (λ o. ground arith)

pub new_handler-IsTrue : IsTrue new_handler
unfolding new_handler total
new_handler-IsTrue = record {
  counted = refl;
  watched = tt;
  mapped = λ d u e. cc;
  unwrapped = λ n. refl;
}

-- However connections, callbacks, time-outs and packets are interleaved: the counter is the number of
-- the calls of `Connect` that wait for a dial; each entry of the map is under the connection of the network
-- stack and is the upstream of a flow of it whose dial has succeeded; no more than ten notices are in a
-- channel; and the upstream of every flow past its dial that no `idleTiming` watches was asked to close.
pub run-IsTrue :
    (host : String) (es : List Event) (s : Udp) → IsTrue s → IfSome IsTrue (run host es s)
unfolding run
run-IsTrue host [] s h = h
run-IsTrue host (e ∷ es) s h =
    IfSome-bind IsTrue IsTrue (step host e s) (run host es) (step-IsTrue s h host e)
      (run-IsTrue host es)

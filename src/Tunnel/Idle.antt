-- ===== src/Tunnel/Idle.antt =====
-- What the callbacks of a UDP connection can still do after `idleTiming` has returned.
use lantern_client.Prelude.{
  ◌≡◌, refl, ◌∙◌, ℕ, ◌+◌, ◌≤◌, String, Bool, true, false, none, some, List, [], ◌∷◌, eqb, ltb,
  if◌then◌else◌, arith, get_elem?, set, get_elem?-set, get_elem?-snoc, Bool-cases, eqb→eq, IfSome,
  IfSome-bind, IfSome-mono, IfSome-some, inl, inr, some_eq, ◌>>=◌,
}
use lantern_client.Tunnel.Udp.{
  Flow, Udp, Event, connect, on_dial_succeeded, dial_done, dial_timeout, on_receive, on_written,
  take_received, take_wrote, idle_timeout, on_close, is_dialing, depth, put, limited, with_flow,
  succeeded_at, connected_at, timeout_at, receive_at, written_at, take_received_at, take_wrote_at,
  idle_at, close_at, step, run, new_flow,
}
use lantern_client.Tunnel.Steps.{at_flow, guarded, unguarded, begin_lem}

-- The flow is past its dial and its `idleTiming` has returned; `k` notices of datagrams are not taken.
pub record IsOver (k : ℕ) (f : Flow) : Type 0 where
  pub not_dialing : is_dialing f.phase ≡ false
  pub no_timing : f.timing ≡ false
  pub left : f.received ≡ k
  pub fits : k ≤ depth

-- The flow `n` is over.
abbrev pub Over : ℕ → ℕ → Udp → Type 0
Over n k s = (f : Flow) × (get_elem? s.flows n ≡ some f) × IsOver k f

-- 1 for a datagram that reaches the flow `n`.
abbrev pub hits : ℕ → Event → ℕ
hits n (on_receive m written) = if eqb m n then 1 else 0
hits n _ = 0

-- What the channel of the flow `n` holds after the event, from `k`.
abbrev after : ℕ → Event → ℕ → ℕ
after n (on_receive m written) k = if eqb m n then k + 1 else k
after n _ k = k

after-hits : (n : ℕ) (e : Event) (k : ℕ) → after n e k ≡ hits n e + k
after-hits n (on_receive m written) k = ground arith
after-hits n e k = omega arith

-- The flow `m` becomes `g`.
module _ (n k k' m : ℕ) (old g : Flow) (s s' : Udp) (at : get_elem? s.flows m ≡ some old)
    (same : s'.flows ≡ set s.flows m g) where
  found : get_elem? s'.flows n ≡ (if eqb m n then some g else get_elem? s.flows n)
  found = rw same (get_elem?-set s.flows m n old g at)

  moved :
      Over n k s
      → (eqb m n ≡ true → IsOver k old → IsOver k' g)
      → (eqb m n ≡ false → k ≡ k')
      → Over n k' s'
  moved (f, there, over) mine other = elim (Bool-cases (eqb m n)) [
    | inl e ↦ (g, found ∙ rw e refl, mine e (rw (some_eq (old_is_f e)) over))
    | inr e ↦ (f, found ∙ rw e there, rw (← other e) over)
  ]
    where
      old_is_f : eqb m n ≡ true → some old ≡ some f
      old_is_f e = rw (← at) (rw (eqb→eq m n e) there)

module _ (n k : ℕ) (s : Udp) (over : Over n k s) where
  -- The event leaves what the flow's channel holds.
  still :
      (m : ℕ) (old g : Flow) (s' : Udp)
      → get_elem? s.flows m ≡ some old
      → s'.flows ≡ set s.flows m g
      → (IsOver k old → IsOver k g)
      → Over n k s'
  still m old g s' at same keeps = moved n k k m old g s s' at same over (λ _. keeps) (λ _. refl)

  -- `f` needs a condition that an idle flow does not meet, or keeps what its channel holds.
  still_if :
      (m : ℕ) (test : Flow → Bool) (g : Flow → Flow) (put_flow : Flow → Udp)
      → ((f : Flow) → (put_flow f).flows ≡ set s.flows m (g f))
      → ((f : Flow) → test f ≡ true → IsOver k f → IsOver k (g f))
      → IfSome (Over n k) (get_elem? s.flows m >>= λ f. if test f then some (put_flow f) else none)
  still_if m test g put_flow same keeps =
      at_flow (Over n k) m (λ f _. if test f then some (put_flow f) else none) s
        λ f at.
          guarded (Over n k) (test f) (put_flow f)
            λ h. still m f (g f) (put_flow f) at (same f) (keeps f h)

  step-Over : (host : String) (e : Event) → IfSome (Over n (after n e k)) (step host e s)
  unfolding step succeeded_at connected_at timeout_at receive_at written_at take_received_at
      take_wrote_at idle_at close_at
  step-Over host (connect d t) =
      begin_lem (Over n k) host d t s over
        (over.0, get_elem?-snoc s.flows n over.0 (new_flow d) over.1, over.2)
  step-Over host (on_dial_succeeded m) = at_flow (Over n k) m (succeeded_at m) s λ f at.
      unguarded (Over n k) f.dial_succeeded _ λ h.
        still m f _ (with_flow m (record f { dial_succeeded = true }) s) at refl λ o. record {
          not_dialing = o.not_dialing;
          no_timing = o.no_timing;
          left = o.left;
          fits = o.fits;
        }
  step-Over host (dial_done m) =
      still_if m _ _ _ (λ f. refl) (λ f h o. absurd (ground (arith, o.not_dialing)))
  step-Over host (dial_timeout m) =
      still_if m _ _ _ (λ f. refl) (λ f h o. absurd (ground (arith, o.not_dialing)))
  step-Over host (on_receive m w) =
      at_flow (Over n (after n (on_receive m w) k)) m (receive_at m w) s λ f at.
        guarded (Over n (after n (on_receive m w) k)) (ltb f.received depth) _ λ h.
          moved n k (after n (on_receive m w) k) m f _ s
            (with_flow m
              (record f {
                received = f.received + 1;
                upstream_closed = if w then f.upstream_closed else true;
              })
              s)
            at refl over
            (λ e o. rw e record {
              not_dialing = o.not_dialing;
              no_timing = o.no_timing;
              left = ground (arith, o.left);
              fits = ground (arith, o.left);
            })
            (λ e. rw e refl)
  step-Over host (on_written m) = still_if m _ _ _ (λ f. refl) (λ f h o. ground arith)
  step-Over host (take_received m) =
      still_if m _ _ _ (λ f. refl) (λ f h o. absurd (ground (arith, o.no_timing)))
  step-Over host (take_wrote m) =
      still_if m _ _ _ (λ f. refl) (λ f h o. absurd (ground (arith, o.no_timing)))
  step-Over host (idle_timeout m) =
      still_if m _ _ _ (λ f. refl) (λ f h o. absurd (ground (arith, o.no_timing)))
  step-Over host (on_close m) = at_flow (Over n k) m (close_at m) s λ f at.
      still m f _
        (with_flow m (record f { downstream_closed = true })
          (record s { upstreams = put (limited m) none s.upstreams }))
        at refl λ o. ground arith

-- How many datagrams reach the flow `n`.
abbrev pub receives : ℕ → List Event → ℕ
receives n [] = 0
receives n (e ∷ es) = hits n e + receives n es

run-Over :
    (host : String) (n : ℕ) (es : List Event) (k : ℕ) (s : Udp)
    → Over n k s
    → IfSome (λ s'. receives n es + k ≤ depth) (run host es s)
unfolding run
run-Over host n [] k s (f, _, over) = omega (arith, over.fits)
run-Over host n (e ∷ es) k s over =
    IfSome-bind (Over n (after n e k)) _ (step host e s) (run host es) (step-Over n k s over host e)
      λ t later.
        IfSome-mono _ _ (run host es t) (run-Over host n es (after n e k) t later)
          λ s' h. omega (arith, h, after-hits n e k)

-- Once `idleTiming` of a connection has returned nobody takes from its channels, so whatever happens
-- later, together with the `k` notices that are left there at most ten callbacks `OnReceive` of that
-- connection come to their end: the next one waits for ever.
pub run-IsOver :
    (host : String) (n k : ℕ) (es : List Event) (s s' : Udp)
    → Over n k s
    → run host es s ≡ some s'
    → receives n es + k ≤ depth
run-IsOver host n k es s s' over ran =
    IfSome-some (λ _. receives n es + k ≤ depth) _ s' (run-Over host n es k s over) ran

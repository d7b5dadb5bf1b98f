-- ===== src/Tunnel/Settled.antt =====
-- Dialing for the TCP connections of the tunnel comes to an end.
use lantern_client.Prelude.{
  ◌≡◌, refl, ℕ, zero, suc, ◌+◌, ◌<◌, true, false, Option, none, some, List, [], ◌∷◌, arith,
  get_elem?, total, total-set, total-found, ◌>>=◌, Option-cases, IfSome, IfSome-bind, IfSome-mono,
  IfSome-some, Ensures, ◌⊎◌, inl, inr, All,
}
use native.Mathlib.Decide.{dec_lt}
use lantern_client.Tunnel.Tcp.{
  Call, requesting, dialing, answering, stored, copying, removed, failed, finished, Tcp, Event,
  handle, take_request, dialed, answered, start_copy, end_copy, close_all, take_at, dialed_at,
  answered_at, start_at, end_at, close_at, begin, step, run, new_handler,
}
use lantern_client.Tunnel.Dials.{IsExact, busy, waiting, to_come, run-IsExact, new_handler-IsExact}

-- The events of dialing that the calls still take.
abbrev pub pending : Tcp → ℕ
pending s = total to_come s.calls

-- 1 for an event of dialing, 0 for one of copying.
abbrev pub dial_events : Event → ℕ
dial_events (take_request c) = 1
dial_events (dialed c u) = 1
dial_events (answered c) = 1
dial_events _ = 0

abbrev pub IsQuiet : Event → Type 0
IsQuiet (handle true) = ⊥
IsQuiet _ = Unit

abbrev pub dials : List Event → ℕ
dials [] = 0
dials (e ∷ es) = dial_events e + dials es

-- The rest after a step that counts `n`.
abbrev Falls : ℕ → Tcp → Tcp → Type 0
Falls n s s' = n + pending s' ≡ pending s

at_call :
    (c n : ℕ) (f : Call → Tcp → Option Tcp) (s : Tcp)
    → ((x : Call) → get_elem? s.calls c ≡ some x → IfSome (Falls n s) (f x s))
    → IfSome (Falls n s) (get_elem? s.calls c >>= λ x. f x s)
at_call c n f s falls = elim (Option-cases (get_elem? s.calls c)) [
  | inl e ↦ rw e tt
  | inr (x, e) ↦ rw e (falls x e)
]

module _ (c : ℕ) where
  take-Falls :
      (idle : ℕ) (x : Call) (s : Tcp)
      → get_elem? s.calls c ≡ some x
      → IfSome (Falls 1 s) (take_at c idle x s)
  unfolding take_at
  take-Falls (suc idle) requesting s at =
      omega (arith, total-set to_come s.calls c requesting dialing at)
  take-Falls zero x s at = tt
  take-Falls (suc idle) x s at = tt

  dialed-Falls :
      (u : Option ℕ) (x : Call) (s : Tcp)
      → get_elem? s.calls c ≡ some x
      → IfSome (Falls 1 s) (dialed_at c u x s)
  unfolding dialed_at
  dialed-Falls u dialing s at = omega (arith, total-set to_come s.calls c dialing (answering u) at)
  dialed-Falls u x s at = tt

  answered-Falls :
      (x : Call) (s : Tcp) → get_elem? s.calls c ≡ some x → IfSome (Falls 1 s) (answered_at c x s)
  unfolding answered_at
  answered-Falls (answering none) s at =
      omega (arith, total-set to_come s.calls c (answering none) failed at)
  answered-Falls (answering (some u)) s at =
      omega (arith, total-set to_come s.calls c (answering (some u)) (stored u) at)
  answered-Falls x s at = tt

  start-Falls :
      (x : Call) (s : Tcp) → get_elem? s.calls c ≡ some x → IfSome (Falls 0 s) (start_at c x s)
  unfolding start_at
  start-Falls (stored u) s at = omega (arith, total-set to_come s.calls c (stored u) (copying u) at)
  start-Falls x s at = tt

  end-Falls :
      (x : Call) (s : Tcp) → get_elem? s.calls c ≡ some x → IfSome (Falls 0 s) (end_at c x s)
  unfolding end_at
  end-Falls (copying u) s at = omega (arith, total-set to_come s.calls c (copying u) removed at)
  end-Falls x s at = tt

  close-Falls :
      (x : Call) (s : Tcp) → get_elem? s.calls c ≡ some x → IfSome (Falls 0 s) (close_at c x s)
  unfolding close_at
  close-Falls removed s at = omega (arith, total-set to_come s.calls c removed finished at)
  close-Falls x s at = tt

step-Falls : (e : Event) (s : Tcp) → IsQuiet e → IfSome (Falls (dial_events e) s) (step e s)
unfolding step begin
step-Falls (handle true) s q = elim q [ ]
step-Falls (handle false) s q = omega arith
step-Falls (take_request c) s q =
    at_call c 1 (λ x t. take_at c s.idle x t) s (λ x at. take-Falls c s.idle x s at)
step-Falls (dialed c u) s q = at_call c 1 (dialed_at c u) s (λ x at. dialed-Falls c u x s at)
step-Falls (answered c) s q = at_call c 1 (answered_at c) s (λ x at. answered-Falls c x s at)
step-Falls (start_copy c) s q = at_call c 0 (start_at c) s (λ x at. start-Falls c x s at)
step-Falls (end_copy c) s q = at_call c 0 (end_at c) s (λ x at. end-Falls c x s at)
step-Falls (close_all c) s q = at_call c 0 (close_at c) s (λ x at. close-Falls c x s at)

run-Falls : (es : List Event) (s : Tcp) → All IsQuiet es → IfSome (Falls (dials es) s) (run es s)
unfolding run
run-Falls [] s q = omega arith
run-Falls (e ∷ es) s q =
    IfSome-bind (Falls (dial_events e) s) _ (step e s) (run es) (step-Falls e s q.0) λ t first.
      IfSome-mono (Falls (dials es) t) _ (run es t) (run-Falls es t q.1)
        λ s' later. omega (arith, first, later)

-- The event is one of dialing, and can happen now.
abbrev pub CanDial : Event → Tcp → Type 0
CanDial e s = (dial_events e ≡ 1) × Ensures (λ _. Unit {0}) (step e s)

can_work :
    (s : Tcp) (c : ℕ) (x : Call)
    → get_elem? s.calls c ≡ some x
    → 0 < busy x
    → (e : Event) × CanDial e s
unfolding step dialed_at answered_at
can_work s c dialing at h = (dialed c none, (refl, rw at tt))
can_work s c (answering none) at h = (answered c, (refl, rw at tt))
can_work s c (answering (some u)) at h = (answered c, (refl, rw at tt))
can_work s c requesting at h = absurd (omega arith)
can_work s c (stored u) at h = absurd (omega arith)
can_work s c (copying u) at h = absurd (omega arith)
can_work s c removed at h = absurd (omega arith)
can_work s c failed at h = absurd (omega arith)
can_work s c finished at h = absurd (omega arith)

-- A request waits only while both goroutines work.
can_take :
    (s : Tcp) (c idle : ℕ)
    → s.idle ≡ idle
    → IsExact s
    → get_elem? s.calls c ≡ some requesting
    → (e : Event) × CanDial e s
unfolding step take_at
can_take s c zero i h at =
    let (w, x, found, heavy) = total-found busy s.calls (omega (arith, h.dials)) in
    can_work s w x found heavy
can_take s c (suc idle) i h at = (take_request c, (refl, rw (at, i) tt))

can_move :
    (s : Tcp) (c : ℕ) (x : Call)
    → IsExact s
    → get_elem? s.calls c ≡ some x
    → 0 < waiting x
    → (e : Event) × CanDial e s
can_move s c requesting h at w = can_take s c s.idle refl h at
can_move s c dialing h at w = can_work s c dialing at (omega arith)
can_move s c (answering u) h at w = can_work s c (answering u) at (omega arith)
can_move s c (stored u) h at w = absurd (omega arith)
can_move s c (copying u) h at w = absurd (omega arith)
can_move s c removed h at w = absurd (omega arith)
can_move s c failed h at w = absurd (omega arith)
can_move s c finished h at w = absurd (omega arith)

-- Nobody waits, or an event of dialing can happen.
progress : (s : Tcp) → IsExact s → (s.dialing_conns ≡ 0) ⊎ ((e : Event) × CanDial e s)
progress s h = elim (dec_lt 0 s.dialing_conns) [
  | yes some_wait ↦
      let (c, x, at, w) = total-found waiting s.calls (omega (arith, h.counted)) in
      inr (can_move s c x h at w)
  | no none_waits ↦ inl (omega arith)
]

-- From every state that the handler can reach: while no new connection comes, the calls of `Handle` take
-- just `pending` further events of dialing, whatever the dials answer and however those events and the
-- ends of the copies are interleaved; and at every moment either no call waits for an upstream, or one of
-- those events can happen. So no call waits for ever, as each dial returns within its time limit.
pub run-Settles :
    (past es : List Event) (s s' : Tcp)
    → run past new_handler ≡ some s
    → All IsQuiet es
    → run es s ≡ some s'
    → (dials es + pending s' ≡ pending s) × ((s'.dialing_conns ≡ 0) ⊎ ((e : Event) × CanDial e s'))
run-Settles past es s s' reached quiet ran =
    let sound : IsExact s =
      IfSome-some IsExact _ s (run-IsExact past new_handler new_handler-IsExact) reached in
    (
      IfSome-some (Falls (dials es) s) _ s' (run-Falls es s quiet) ran,
      progress s' (IfSome-some IsExact _ s' (run-IsExact es s sound) ran),
    )

-- ===== src/Tunnel/Dials.antt =====
-- How many dials the tunnel makes at once, what its counters and its map say, and that dialing ends.
use lantern_client.Prelude.{
  ◌≡◌, refl, ap, ℕ, zero, suc, ◌+◌, ◌≤◌, Bool, true, false, Option, none, some, List, [], ◌∷◌, ◌++◌,
  eqb, if◌then◌else◌, arith, get_elem?, set, get_elem?-set, total, total-snoc, total-set, ◌>>=◌,
  Bool-cases, Option-cases, IfSome, IfSome-bind, sym, eqb→eq, ◌∙◌, inl, inr,
}
use lantern_client.Tunnel.Tcp.{
  Call, requesting, dialing, answering, stored, copying, removed, failed, finished, Tcp, Event,
  handle, take_request, dialed, answered, start_copy, end_copy, close_all, max_concurrent_dials,
  begin, take_at, dialed_at, answered_at, start_at, end_at, close_at, step, run, new_handler,
}

-- 1 where a goroutine of `handleDial` works for the call.
abbrev pub busy : Call → ℕ
busy dialing = 1
busy (answering u) = 1
busy _ = 0

-- 1 where `Handle` waits for an upstream.
abbrev pub waiting : Call → ℕ
waiting requesting = 1
waiting dialing = 1
waiting (answering u) = 1
waiting _ = 0

-- 1 where the copying has begun and not ended.
abbrev in_copy : Call → ℕ
in_copy (copying u) = 1
in_copy removed = 1
in_copy _ = 0

-- The events that the dial still takes.
abbrev pub to_come : Call → ℕ
to_come requesting = 3
to_come dialing = 2
to_come (answering u) = 1
to_come _ = 0

abbrev held : Option Call → Option ℕ
held (some (stored u)) = some u
held (some (copying u)) = some u
held _ = none

pub record IsExact (s : Tcp) : Type 0 where
  pub dials : s.idle + total busy s.calls ≡ max_concurrent_dials
  pub counted : s.dialing_conns ≡ total waiting s.calls
  pub copied : s.copying_conns ≡ total in_copy s.calls
  pub mapped : (c : ℕ) → s.upstreams c ≡ held (get_elem? s.calls c)

held-snoc :
    (xs : List Call) (j : ℕ) → held (get_elem? (xs ++ requesting ∷ []) j) ≡ held (get_elem? xs j)
unfolding get_elem?
held-snoc [] zero = refl
held-snoc [] (suc j) = refl
held-snoc (x ∷ xs) zero = refl
held-snoc (x ∷ xs) (suc j) = held-snoc xs j

-- A call moves on from `old` to `new`: the counters change by what the two weigh.
module _ (s s' : Tcp) (c : ℕ) (old new : Call) (at : get_elem? s.calls c ≡ some old) (h : IsExact s)
    (same : s'.calls ≡ set s.calls c new) where
  moved :
      s'.idle + busy new ≡ s.idle + busy old
      → s'.dialing_conns + waiting old ≡ s.dialing_conns + waiting new
      → s'.copying_conns + in_copy old ≡ s.copying_conns + in_copy new
      → ((j : ℕ) → s'.upstreams j ≡ (if eqb c j then held (some new) else s.upstreams j))
      → IsExact s'
  moved d w k m = record {
    dials = rw same (omega (arith, total-set busy s.calls c old new at, h.dials));
    counted = rw same (omega (arith, total-set waiting s.calls c old new at, h.counted));
    copied = rw same (omega (arith, total-set in_copy s.calls c old new at, h.copied));
    mapped = λ j. rw (m j, same) (ground (arith, get_elem?-set s.calls c j old new at, h.mapped j));
  }

-- Where the upstream of the call stays what it was, the map does.
kept :
    (s : Tcp) (c : ℕ) (old new : Call)
    → get_elem? s.calls c ≡ some old
    → IsExact s
    → held (some new) ≡ held (some old)
    → (j : ℕ) → s.upstreams j ≡ (if eqb c j then held (some new) else s.upstreams j)
kept s c old new at h e j = elim (Bool-cases (eqb c j)) [
  | inl same_call ↦ rw (same_call, e) (rw (← eqb→eq c j same_call) (h.mapped c ∙ ap held at))
  | inr other ↦ rw other
]

-- What the call weighs counts.
pub counted_one :
    (w : Call → ℕ) (xs : List Call) (c : ℕ) (x : Call) → get_elem? xs c ≡ some x → w x ≤ total w xs
unfolding get_elem? total
counted_one w [] c x h = cc
counted_one w (y ∷ xs) zero x h = ground arith
counted_one w (y ∷ xs) (suc c) x h = omega (arith, counted_one w xs c x h)

abbrev KeepsSound : ℕ → (Call → Tcp → Option Tcp) → Type 0
KeepsSound c f =
    (x : Call) (s : Tcp) → get_elem? s.calls c ≡ some x → IsExact s → IfSome IsExact (f x s)

take-IsExact :
    (c idle : ℕ) (x : Call) (s : Tcp)
    → s.idle ≡ idle
    → get_elem? s.calls c ≡ some x
    → IsExact s
    → IfSome IsExact (take_at c idle x s)
unfolding take_at
take-IsExact c (suc idle) requesting s i at h =
    moved s _ c requesting dialing at h refl (omega arith) refl refl
      (kept s c requesting dialing at h refl)
take-IsExact c zero x s i at h = tt
take-IsExact c (suc idle) x s i at h = tt

dialed-IsExact : (c : ℕ) (upstream : Option ℕ) → KeepsSound c (dialed_at c upstream)
unfolding dialed_at
dialed-IsExact c u dialing s at h =
    moved s _ c dialing (answering u) at h refl refl refl refl
      (kept s c dialing (answering u) at h refl)
dialed-IsExact c u x s at h = tt

answered-IsExact : (c : ℕ) → KeepsSound c (answered_at c)
unfolding answered_at
answered-IsExact c (answering none) s at h =
    moved s _ c (answering none) failed at h refl (omega arith)
      (omega (arith, h.counted, counted_one waiting s.calls c _ at)) refl
      (kept s c (answering none) failed at h refl)
answered-IsExact c (answering (some u)) s at h =
    moved s _ c (answering (some u)) (stored u) at h refl (omega arith)
      (omega (arith, h.counted, counted_one waiting s.calls c _ at)) refl (λ j. refl)
answered-IsExact c x s at h = tt

start-IsExact : (c : ℕ) → KeepsSound c (start_at c)
unfolding start_at
start-IsExact c (stored u) s at h =
    moved s _ c (stored u) (copying u) at h refl refl refl (omega arith)
      (kept s c (stored u) (copying u) at h refl)
start-IsExact c x s at h = tt

end-IsExact : (c : ℕ) → KeepsSound c (end_at c)
unfolding end_at
end-IsExact c (copying u) s at h =
    moved s _ c (copying u) removed at h refl refl refl refl (λ j. refl)
end-IsExact c x s at h = tt

close-IsExact : (c : ℕ) → KeepsSound c (close_at c)
unfolding close_at
close-IsExact c removed s at h =
    moved s _ c removed finished at h refl refl refl
      (omega (arith, h.copied, counted_one in_copy s.calls c _ at))
      (kept s c removed finished at h refl)
close-IsExact c x s at h = tt

begin-IsExact : (known : Bool) (s : Tcp) → IsExact s → IsExact (begin known s)
unfolding begin
begin-IsExact false s h = h
begin-IsExact true s h = record {
  dials = omega (arith, total-snoc busy s.calls requesting, h.dials);
  counted = omega (arith, total-snoc waiting s.calls requesting, h.counted);
  copied = omega (arith, total-snoc in_copy s.calls requesting, h.copied);
  mapped = λ j. h.mapped j ∙ sym (held-snoc s.calls j);
}

-- A step on the call `c`, if there is one.
at_call :
    (c : ℕ) (f : Call → Tcp → Option Tcp)
    → KeepsSound c f
    → (s : Tcp) → IsExact s
    → IfSome IsExact (get_elem? s.calls c >>= λ x. f x s)
at_call c f keeps s h = elim (Option-cases (get_elem? s.calls c)) [
  | inl e ↦ rw e tt
  | inr (x, e) ↦ rw e (keeps x s e h)
]

step-IsExact : (e : Event) (s : Tcp) → IsExact s → IfSome IsExact (step e s)
unfolding step
step-IsExact (handle known) s h = begin-IsExact known s h
step-IsExact (take_request c) s h = elim (Option-cases (get_elem? s.calls c)) [
  | inl e ↦ rw e tt
  | inr (x, e) ↦ rw e (take-IsExact c s.idle x s refl e h)
]
step-IsExact (dialed c u) s h = at_call c (dialed_at c u) (dialed-IsExact c u) s h
step-IsExact (answered c) s h = at_call c (answered_at c) (answered-IsExact c) s h
step-IsExact (start_copy c) s h = at_call c (start_at c) (start-IsExact c) s h
step-IsExact (end_copy c) s h = at_call c (end_at c) (end-IsExact c) s h
step-IsExact (close_all c) s h = at_call c (close_at c) (close-IsExact c) s h

pub new_handler-IsExact : IsExact new_handler
unfolding new_handler total get_elem?
new_handler-IsExact = record { dials = refl; counted = refl; copied = refl; mapped = λ c. refl }

-- In every order of calls, dials, answers and ends of copies: the goroutines that wait and the calls
-- that are dialed for are together two, so never more than two dials run at once; the two
-- counters are the numbers of calls that wait for an upstream and of calls that copy; and the map
-- holds exactly the upstreams that are stored and not yet given up, each under its own downstream.
pub run-IsExact : (es : List Event) (s : Tcp) → IsExact s → IfSome IsExact (run es s)
unfolding run
run-IsExact [] s h = h
run-IsExact (e ∷ es) s h =
    IfSome-bind IsExact IsExact (step e s) (run es) (step-IsExact e s h) (run-IsExact es)

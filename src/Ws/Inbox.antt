-- ===== src/Ws/Inbox.antt =====
-- What a service of the UI channel receives (desktop/ws/service.go) depends on its own type alone.
use lantern_client.Prelude.{
  ◌⊎◌, ◌≢◌, ◌≡◌, refl, ap, ◌∙◌, sym, ◌≤◌, String, Option, none, some, List, [], ◌∷◌, ◌++◌, lookup,
  insert, length, length-append, ltb, ltb→lt, lookup-insert, lookup-erase, eq_refl, eq_iff,
  Bool-cases, Option-cases, inl, inr, if◌then◌else◌, ◌==◌, ◌>>=◌, some_eq, arith,
}
use lantern_client.Ws.Services.{
  Service, UiChannel, new_service, in_capacity, register, unregister, Read, queued, dropped,
  waiting, put, deliver_to, read_typed, read_one, new_ui_channel,
}

-- What happens to a channel: its operations, a message of the UI, and the owner of a service taking a
-- message from it.
pub data Event : Type 0 where
  registering : String → List String → Option String → Event
  unregistering message taking : String → Event

-- The initial message of a service and the queue behind `In`.
abbrev pub Inbox : Type 0
Inbox = Option (Option String × List String)

abbrev inbox_of : Option Service → Inbox
inbox_of none = none
inbox_of (some s) = some (s.initial, s.received)

abbrev pub inbox : String → UiChannel → Inbox
inbox t c = inbox_of (lookup t c.services)

-- A service stands under its type, and its queue is within its capacity.
pub record IsRegistry (c : UiChannel) : Type 0 where
  pub at_type :
      (t : String) (s : Service)
      → lookup t c.services ≡ some s
      → (s.type ≡ t) × (length s.received ≤ in_capacity)

take_first : List String → Service → UiChannel → Option UiChannel
take_first [] s c = none
take_first (m ∷ ms) s c =
    some (record c { services = insert s.type (record s { received = ms }) c.services })

take_from : Option Service → UiChannel → Option UiChannel
unfolding take_first
take_from none c = none
take_from (some s) c = take_first s.received s c

after : Read → UiChannel → Option UiChannel
after (queued c') c = some c'
after dropped c = some c
after waiting c = none

module _ (encode : String → String → Option String) (decode_type : String → Option String)
    (decode : Option String → String → Option String) where
  -- `none` is a panic, or says that the event cannot happen now.
  pub step : Event → UiChannel → Option UiChannel
  unfolding after take_from
  step (registering t hello initial) c = register encode t hello initial c
  step (unregistering t) c = some (unregister t c)
  step (message b) c = after (read_one decode_type decode b c) c
  step (taking t) c = take_from (lookup t c.services) c

  pub run : List Event → UiChannel → Option UiChannel
  run [] c = some c
  run (e ∷ es) c = step e c >>= run es

  appended : Option String → List String → List String
  appended none ms = ms
  appended (some m) ms = ms ++ m ∷ []

  put_in : String → Inbox → Inbox
  put_in b none = none
  put_in b (some (initial, ms)) = some (initial, appended (decode initial b) ms)

  addressed : String → Option String → String → Inbox → Inbox
  addressed t none b i = i
  addressed t (some type) b i = if type == t then put_in b i else i

  taken : Inbox → Inbox
  taken none = none
  taken (some (initial, [])) = some (initial, [])
  taken (some (initial, m ∷ ms)) = some (initial, ms)

  -- What an event does to the inbox of the type `t`, given that inbox alone.
  seen : String → Event → Inbox → Inbox
  unfolding addressed taken
  seen t (registering type hello initial) i = if type == t then some (initial, []) else i
  seen t (unregistering type) i = if type == t then none else i
  seen t (message b) i = addressed t (decode_type b) b i
  seen t (taking type) i = if type == t then taken i else i

  pub seen_after : String → List Event → Inbox → Inbox
  unfolding seen
  seen_after t [] i = i
  seen_after t (e ∷ es) i = seen_after t es (seen t e i)

  -- The channel is a registry still, and each inbox is what the event makes of it.
  Follows : Event → UiChannel → UiChannel → Type 0
  Follows e c c' = IsRegistry c' × ((t : String) → inbox t c' ≡ seen t e (inbox t c))

  -- When an event panics or cannot happen: a type that has a service is registered, the queue of the
  -- message's service is full, or a message is taken where there is none.
  pub IsStuck : Event → UiChannel → Type 0
  IsStuck (registering t hello initial) c = inbox t c ≢ none
  IsStuck (unregistering t) c = ⊥
  IsStuck (message b) c =
      (t : String) × (initial : Option String) × (ms : List String) × (m : String) × (decode_type b
        ≡ some t)
      × (inbox t c ≡ some (initial, ms))
      × (decode initial b ≡ some m)
      × (in_capacity ≤ length ms)
  IsStuck (taking t) c =
      (inbox t c ≡ none) ⊎ ((initial : Option String) × (inbox t c ≡ some (initial, [])))

  Result : Event → UiChannel → Option UiChannel → Type 0
  Result e c none = IsStuck e c
  Result e c (some c') = Follows e c c'

  -- What stands under `k` is replaced.
  module _ (c c' : UiChannel) (h : IsRegistry c) (k : String) (o : Option Service)
      (found : (j : String) → lookup j c'.services ≡ (if k == j then o else lookup j c.services))
      (typed : (s : Service) → o ≡ some s → (s.type ≡ k) × (length s.received ≤ in_capacity)) where
    replaced-IsRegistry : IsRegistry c'
    replaced-IsRegistry = record {
      at_type = λ j s e. elim (Bool-cases (k == j)) [
        | inl same ↦
            let here : o ≡ some s = rw (found j, same) at e in
            let (is_k, fits) = typed s here in (is_k ∙ (eq_iff k j).0 same, fits)
        | inr other ↦
            let there : lookup j c.services ≡ some s = rw (found j, other) at e in
            h.at_type j s there
      ];
    }

    inbox-replaced : (t : String) → inbox t c' ≡ (if k == t then inbox_of o else inbox t c)
    inbox-replaced t = elim (Bool-cases (k == t)) [
      | inl same ↦ rw (found t, same) refl
      | inr other ↦ rw (found t, other) refl
    ]

    -- What the event makes of the inbox of `k`, it makes of no other.
    replaced-Follows :
        (e : Event)
        → ((t : String) → seen t e (inbox t c) ≡ (if k == t then inbox_of o else inbox t c))
        → Follows e c c'
    unfolding Follows
    replaced-Follows e spec = (replaced-IsRegistry, λ t. inbox-replaced t ∙ sym (spec t))

  registered-Result :
      (t : String) (hello : List String) (initial : Option String) (c : UiChannel)
      → IsRegistry c
      → Result (registering t hello initial) c (step (registering t hello initial) c)
  unfolding step register seen IsStuck Result
  registered-Result t hello initial c h = elim (Option-cases (lookup t c.services)) [
    | inr (s, e) ↦ rw e (λ f. let wrong : inbox_of (some s) ≡ none = rw e at f in absurd (cc))
    | inl e ↦ rw e (
        replaced-Follows c _ h t (some (new_service t hello initial))
          (λ j. lookup-insert t j (new_service t hello initial) c.services)
          (λ s same. rw (← some_eq same) (refl, omega arith)) _ (λ j. refl))
  ]

  unregistered-Follows :
      (t : String) (c : UiChannel) → IsRegistry c → Follows (unregistering t) c (unregister t c)
  unfolding unregister seen
  unregistered-Follows t c h = elim (Option-cases (lookup t c.services)) [
    | inl e ↦ rw e (
        replaced-Follows c c h t none (λ j. ground (arith, e, eq_iff t j)) (λ s same. cc) _
          (λ j. refl))
    | inr (s, e) ↦ rw e (
        replaced-Follows c _ h t none (λ j. lookup-erase t j c.services) (λ s same. cc) _
          (λ j. refl))
  ]

  -- The queue of a service becomes `ms`.
  requeued-Follows :
      (e : Event) (t : String) (s : Service) (ms : List String) (c : UiChannel)
      → IsRegistry c
      → lookup t c.services ≡ some s
      → length ms ≤ in_capacity
      → ((j : String) → seen j e (inbox j c) ≡ (if t == j then some (s.initial, ms) else inbox j c))
      → Follows e c (record c { services = insert s.type (record s { received = ms }) c.services })
  requeued-Follows e t s ms c h found fits spec =
      let at : s.type ≡ t = (h.at_type t s found).0 in
      replaced-Follows c _ h t (some (record s { received = ms }))
        (λ j. rw (← at) (lookup-insert s.type j (record s { received = ms }) c.services))
        (λ s' same. rw (← some_eq same) (at, fits)) e spec

  same-Follows :
      (e : Event) (c : UiChannel)
      → IsRegistry c
      → ((t : String) → inbox t c ≡ seen t e (inbox t c))
      → Follows e c c
  unfolding Follows
  same-Follows e c h spec = (h, spec)

  put-Result :
      (b t : String) (s : Service) (o : Option String) (c : UiChannel)
      → IsRegistry c
      → decode_type b ≡ some t
      → lookup t c.services ≡ some s
      → decode s.initial b ≡ o
      → Result (message b) c (after (put decode_type decode s o c) c)
  unfolding put after seen addressed put_in appended IsStuck Result
  put-Result b t s none c h typed found decoded = same-Follows (message b) c h λ j.
      elim (Bool-cases (t == j)) [
        | inl e ↦ rw (← (eq_iff t j).0 e, typed, found, decoded, eq_refl t) refl
        | inr e ↦ rw (typed, e) refl
      ]
  put-Result b t s (some m) c h typed found decoded =
      elim (Bool-cases (ltb (length s.received) in_capacity)) [
        | inr full ↦
            rw full
              (t, s.initial, s.received, m, typed, rw found refl, decoded, ground (arith, full))
        | inl room ↦ rw room (
            requeued-Follows (message b) t s (s.received ++ m ∷ []) c h found
              (omega (arith, ltb→lt _ _ room, length-append s.received (m ∷ [])))
              λ j. elim (Bool-cases (t == j)) [
                | inl e ↦ rw (← (eq_iff t j).0 e, typed, found, decoded, eq_refl t) refl
                | inr e ↦ rw (typed, e) refl
              ])
      ]

  message-Result :
      (b : String) (c : UiChannel) → IsRegistry c → Result (message b) c (step (message b) c)
  unfolding step read_one read_typed deliver_to after seen addressed put_in IsStuck Result
  message-Result b c h = elim (Option-cases (decode_type b)) [
    | inl e ↦ rw e (same-Follows (message b) c h (λ j. rw e refl))
    | inr (t, typed) ↦ elim (Option-cases (lookup t c.services)) [
      | inl e ↦
          rw (typed, e)
            (same-Follows (message b) c h (λ j. elim (Bool-cases (t == j)) [
              | inl here ↦ rw (← (eq_iff t j).0 here, typed, e, eq_refl t) refl
              | inr other ↦ rw (typed, other) refl
            ]))
      | inr (s, found) ↦
          rw (typed, found) (put-Result b t s (decode s.initial b) c h typed found refl)
    ]
  ]

  first-Result :
      (t : String) (s : Service) (ms : List String) (c : UiChannel)
      → IsRegistry c
      → lookup t c.services ≡ some s
      → s.received ≡ ms
      → Result (taking t) c (take_first ms s c)
  unfolding take_first seen taken IsStuck Result
  first-Result t s [] c h found e = inr (s.initial, rw (found, e) refl)
  first-Result t s (m ∷ ms) c h found e =
      requeued-Follows (taking t) t s ms c h found
        (omega (arith, (h.at_type t s found).1, ap length e))
        λ j. elim (Bool-cases (t == j)) [
          | inl same ↦ rw (← (eq_iff t j).0 same, found, e, eq_refl t) refl
          | inr other ↦ rw other refl
        ]

  taking-Result :
      (t : String) (c : UiChannel) → IsRegistry c → Result (taking t) c (step (taking t) c)
  unfolding step take_from IsStuck Result
  taking-Result t c h = elim (Option-cases (lookup t c.services)) [
    | inl e ↦ rw e (inl (rw e refl))
    | inr (s, found) ↦ rw found (first-Result t s s.received c h found refl)
  ]

  step-Result : (e : Event) (c : UiChannel) → IsRegistry c → Result e c (step e c)
  unfolding step Result
  step-Result (registering t hello initial) c h = registered-Result t hello initial c h
  step-Result (unregistering t) c h = unregistered-Follows t c h
  step-Result (message b) c h = message-Result b c h
  step-Result (taking t) c h = taking-Result t c h

  -- A run that ends early has come to an event that was stuck.
  abbrev pub RunResult : List Event → UiChannel → Option UiChannel → Type 0
  RunResult es c none =
      (before : List Event) × (e : Event) × (later : List Event) × (c' : UiChannel) × (es
        ≡ before ++ e ∷ later)
      × (run before c ≡ some c')
      × IsStuck e c'
  RunResult es c (some c') =
      IsRegistry c' × ((t : String) → inbox t c' ≡ seen_after t es (inbox t c))

  cons-RunResult :
      (e : Event) (es : List Event) (c c' : UiChannel) (o : Option UiChannel)
      → step e c ≡ some c'
      → Follows e c c'
      → RunResult es c' o
      → RunResult (e ∷ es) c o
  unfolding Follows run seen_after
  cons-RunResult e es c c' none same first (before, e', later, d, split, ran, stuck) =
      (e ∷ before, e', later, d, ap (◌∷◌ e) split, rw same ran, stuck)
  cons-RunResult e es c c' (some d) same first h =
      (h.0, λ t. h.1 t ∙ ap (seen_after t es) (first.1 t))

  -- In every order of registrations, messages of the UI, and messages that are taken: the channel stays a
  -- registry, and the inbox of a type is what one gets from that inbox alone, by the events of that
  -- type alone. So a message that is of the type and that the service decodes goes to the end of
  -- its queue once, whatever the other services do, and no other message comes in. A run ends early
  -- only at the registration of a type that has a service, at a message for a service whose queue
  -- is full, or where a message is to be taken and there is none.
  pub run-seen_after : (es : List Event) (c : UiChannel) → IsRegistry c → RunResult es c (run es c)
  unfolding run seen_after Follows Result
  run-seen_after [] c h = (h, λ t. refl)
  run-seen_after (e ∷ es) c h =
      let followed : Result e c (step e c) = step-Result e c h in
      elim (Option-cases (step e c)) [
        | inl stops ↦ rw stops ([], e, es, c, refl, refl, rw stops at followed)
        | inr (c', same) ↦
            let first : Follows e c c' = rw same at followed in
            rw same (cons-RunResult e es c c' (run es c') same first (run-seen_after es c' first.0))
      ]

pub new_ui_channel-IsRegistry : IsRegistry new_ui_channel
unfolding new_ui_channel lookup
new_ui_channel-IsRegistry = record { at_type = λ t s e. cc }

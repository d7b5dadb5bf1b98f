-- ===== src/Ws/Registry.antt =====
-- The registration of services (desktop/ws/service.go).
use lantern_client.Prelude.{
  ◌≡◌, refl, ◌∙◌, String, Option, none, some, List, lookup, insert, lookup-insert, lookup-erase,
  eq_refl, Option-cases, inl, inr, if◌then◌else◌, ◌==◌, Ensures,
}
use lantern_client.Ws.Services.{Service, UiChannel, new_service, write_hello, register, unregister}

module _ (encode : String → String → Option String) (t : String) (hello : List String)
    (initial : Option String) where
  -- The channel after a registration.
  abbrev added : UiChannel → UiChannel
  added c = record c {
    services = insert t (new_service t hello initial) c.services;
    sent = write_hello encode t hello c.sent;
  }

  register-added :
      (c : UiChannel)
      → lookup t c.services ≡ none
      → register encode t hello initial c ≡ some (added c)
  unfolding register
  register-added c e = rw e

  lookup-unregister_self : (c : UiChannel) → lookup t (unregister t c).services ≡ none
  unfolding unregister
  lookup-unregister_self c = elim (Option-cases (lookup t c.services)) [
    | inl e ↦ rw e e
    | inr (s, e) ↦ rw e (lookup-erase t t c.services ∙ (rw eq_refl))
  ]

  -- What a registration makes of a channel, by the service that the type has.
  abbrev pub Registered : Option Service → UiChannel → Option UiChannel → Type 0
  Registered (some s) c r = r ≡ none
  Registered none c r =
      Ensures
        (λ c'.
          (j : String)
          → lookup j c'.services
            ≡ (if t == j then some (new_service t hello initial) else lookup j c.services))
        r

  Registered-at :
      (o : Option Service) (c : UiChannel)
      → lookup t c.services ≡ o
      → Registered o c (register encode t hello initial c)
  Registered-at (some s) c e = unfold register in rw e
  Registered-at none c e =
      rw (register-added c e) (λ j. lookup-insert t j (new_service t hello initial) c.services)

  -- A registration of a type that has a service panics. Any other adds the service under its type and
  -- leaves the other services as they are; and after `Unregister` a type can always be registered.
  register_lem :
      (c : UiChannel)
      → Registered (lookup t c.services) c (register encode t hello initial c)
        × Ensures
            (λ c'. lookup t c'.services ≡ some (new_service t hello initial))
            (register encode t hello initial (unregister t c))
  register_lem c = (
    Registered-at (lookup t c.services) c refl,
    rw (register-added (unregister t c) (lookup-unregister_self c))
        (lookup-insert t t (new_service t hello initial) _ ∙ (rw eq_refl)),
  )

-- ===== src/Headers/Preflight.antt =====
-- Which cross-origin requests are answered by the client itself (internalsdk/common/headers.go).
use lantern_client.Prelude.{
  not, ◌≡◌, ◌↔◌, inl, inr, refl, String, true, false, ◌==◌, arith, Bool-cases,
}
use lantern_client.Headers.Header.{Header, get}
use lantern_client.Headers.Cors.{is_origin_allowed, Request, process_cors, cors_middleware}

-- The request itself names an origin on this machine.
abbrev pub IsCors : (String → String) → Request → Type 0
IsCors canon r =
    ((get canon "origin" r.header == "") ≡ false)
    × (is_origin_allowed (get canon "origin" r.header) ≡ true)

-- The client itself answers (with status 200) exactly an OPTIONS request that names an origin on this
-- machine, and the next handler is called exactly for the other requests.
cors_middleware_lem :
    (canon : String → String) (r : Request) (h : Header)
    → (((cors_middleware canon r h).ok_written ≡ true)
        ↔ (IsCors canon r × ((r.method == "OPTIONS") ≡ true)))
      × ((cors_middleware canon r h).served ≡ not (cors_middleware canon r h).ok_written)
unfolding cors_middleware process_cors
cors_middleware_lem canon r h = elim (Bool-cases (get canon "origin" r.header == "")) [
  | inl e ↦ rw e ((λ y. ground arith, λ y. ground arith), refl)
  | inr e ↦ elim (Bool-cases (is_origin_allowed (get canon "origin" r.header))) [
    | inl a ↦ rw e rw a elim (Bool-cases (r.method == "OPTIONS")) [
      | inl m ↦ rw m ((λ y. ((refl, refl), refl), λ y. refl), refl)
      | inr m ↦ rw m ((λ y. ground arith, λ y. ground arith), refl)
    ]
    | inr a ↦ rw e rw a ((λ y. ground arith, λ y. ground arith), refl)
  ]
]

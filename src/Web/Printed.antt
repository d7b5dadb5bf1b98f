-- ===== src/Web/Printed.antt =====
-- Which answers of a server come through `sanitizeResponseBody` as they were sent.
use lantern_client.Prelude.{
  ◌≡◌, refl, ℕ, ◌≤◌, ◌<◌, String, Bool, true, false, Option, some, List, [], ◌∷◌, All, arith,
  length, Bool-cases, inl, inr, ◌↔◌, if◌then◌else◌, ltb, leb, ap, some_eq, ◌⊎◌, ◌||◌, Dict, lookup,
}
use lantern_client.Web.Client.{
  Response, content_type, is_protobuf, sanitize_response_body, read_response,
}

module _ (is_print : ℕ → Bool) where
  abbrev pub AllPrinted : List ℕ → Type 0
  AllPrinted = All (λ b. is_print b ≡ true)

  length-sanitize : (bs : List ℕ) → length (sanitize_response_body is_print bs) ≤ length bs
  unfolding sanitize_response_body
  length-sanitize [] = omega arith
  length-sanitize (b ∷ bs) = ground (arith, length-sanitize bs)

  printed_same : (bs : List ℕ) → AllPrinted bs → sanitize_response_body is_print bs ≡ bs
  unfolding sanitize_response_body
  printed_same [] h = refl
  printed_same (b ∷ bs) h = rw (h.0, printed_same bs h.1) refl

  same_printed : (bs : List ℕ) → sanitize_response_body is_print bs ≡ bs → AllPrinted bs
  unfolding sanitize_response_body
  same_printed [] h = tt
  same_printed (b ∷ bs) h = elim (Bool-cases (is_print b)) [
    | inl printed ↦ (printed, same_printed bs (cc (rw printed at h)))
    | inr dropped ↦ absurd (omega (arith, ap length (rw dropped at h), length-sanitize bs))
  ]

  whole :
      (protobuf : Bool) (bs : List ℕ)
      → (◌≡◌ {A = Option (List ℕ)}
          (some (if protobuf then bs else sanitize_response_body is_print bs))
          (some bs))
        ↔ ((protobuf ≡ true) ⊎ AllPrinted bs)
  whole true bs = ((λ h. inl refl), (λ h. refl))
  whole false bs = (
    (λ h. inr (same_printed bs (some_eq h))),
    (λ h. elim h [ inl e ↦ absurd (cc) | inr all ↦ ap some (printed_same bs all) ]),
  )

  -- An answer is returned as it was sent if and only if its status is one of 200 to 299, and it was asked for as
  -- protobuf or each of its bytes is the number of a rune that can be printed: text in UTF-8 that is
  -- not ASCII mostly has other bytes, and loses them.
  pub read_response_iff :
      (headers : Dict String) (r : Response)
      → (read_response is_print headers r ≡ some r.body) ↔ (
          (200 ≤ r.status)
          × (r.status < 300)
          × ((is_protobuf (lookup content_type headers) ≡ true) ⊎ AllPrinted r.body))
  unfolding read_response
  read_response_iff headers r = elim (Bool-cases (ltb r.status 200 || leb 300 r.status)) [
    | inl bad ↦ rw bad ((λ h. absurd (cc)), (λ h. absurd (ground (arith, h.0, h.1))))
    | inr good ↦
        let w = whole (is_protobuf (lookup content_type headers)) r.body in
        rw good ((λ h. (ground arith, ground arith, w.0 h)), (λ h. w.1 h.2))
  ]

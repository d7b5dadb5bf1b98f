-- ===== src/Pro/Logos.antt =====
-- Adding the logos to the payment methods does not panic where every logo is a list of texts
-- (internalsdk/pro/plans.go).
use lantern_client.Prelude.{
  String, Option, none, some, List, [], ◌∷◌, Dict, lookup, Bool-cases, inl, inr, ◌==◌, Ensures,
  Ensures-bind, All,
}
use lantern_client.Settings.Value.{Value, Items, nil, string, array, done, item}
use lantern_client.Pro.Plans.{
  Provider, PaymentMethod, PaymentMethodsResponse, logo_texts, logos_of, add_logos, add_logos_all,
  with_logos, desktop,
}

abbrev AreTexts : Items → Type 0
AreTexts done = Unit
AreTexts (item (string url) ls) = AreTexts ls
AreTexts (item v ls) = ⊥

abbrev IsLogo : Value → Type 0
IsLogo nil = Unit
IsLogo (array ls) = AreTexts ls
IsLogo v = ⊥

-- Every entry is null or a list of texts.
abbrev pub AreLogos : Dict Value → Type 0
AreLogos [] = Unit
AreLogos ((k, v) ∷ m) = IsLogo v × AreLogos m

-- The call returns.
abbrev pub Returns : {A : Type 0} → Option A → Type 0
Returns {A} o = Ensures (λ (_ : A). Unit {0}) o

logo_texts-Returns : (ls : Items) → AreTexts ls → Returns (logo_texts ls)
unfolding logo_texts
logo_texts-Returns done h = tt
logo_texts-Returns (item (string url) ls) h =
    Ensures-bind (λ _. Unit {0}) (λ _. Unit {0}) (logo_texts ls) _ (logo_texts-Returns ls h)
      λ urls _. tt
logo_texts-Returns (item v ls) h = absurd h

logo-Returns : (v : Value) → IsLogo v → Returns (logos_of (some v))
unfolding logos_of
logo-Returns nil h = tt
logo-Returns (array ls) h = logo_texts-Returns ls h
logo-Returns _ h = absurd h

logos_of-Returns :
    (name : String) (logo : Dict Value) → AreLogos logo → Returns (logos_of (lookup name logo))
unfolding lookup
logos_of-Returns name [] h = unfold logos_of in tt
logos_of-Returns name ((k, v) ∷ m) h = elim (Bool-cases (k == name)) [
  | inl e ↦ rw e (logo-Returns v h.0)
  | inr e ↦ rw e (logos_of-Returns name m h.1)
]

abbrev pub IsPresent {ℓ} : {A : Type ℓ} → Option A → Type 0
IsPresent none = ⊥
IsPresent (some a) = Unit

-- A method that is there, with all its providers.
abbrev pub IsComplete : Option PaymentMethod → Type 0
IsComplete none = ⊥
IsComplete (some m) = All IsPresent m.providers

module _ (logo : Dict Value) (h : AreLogos logo) where
  add_logos-Returns : (p : Provider) → Returns (add_logos logo p)
  unfolding add_logos
  add_logos-Returns p =
      Ensures-bind (λ _. Unit {0}) (λ _. Unit {0}) (logos_of (lookup p.name logo)) _
        (logos_of-Returns p.name logo h) λ urls _. tt

  add_logos_all-Returns :
      (ps : List (Option Provider)) → All IsPresent ps → Returns (add_logos_all logo ps)
  unfolding add_logos_all
  add_logos_all-Returns [] q = tt
  add_logos_all-Returns (none ∷ ps) q = absurd (q.0)
  add_logos_all-Returns (some p ∷ ps) q =
      Ensures-bind (λ _. Unit {0}) (λ _. Unit {0}) (add_logos logo p) _ (add_logos-Returns p)
        λ p' _.
          Ensures-bind (λ _. Unit {0}) (λ _. Unit {0}) (add_logos_all logo ps) _
            (add_logos_all-Returns ps q.1) λ ps' _. tt

  pub with_logos-Returns :
      (ms : List (Option PaymentMethod)) → All IsComplete ms → Returns (with_logos logo ms)
  unfolding with_logos
  with_logos-Returns [] q = tt
  with_logos-Returns (none ∷ ms) q = absurd (q.0)
  with_logos-Returns (some m ∷ ms) q =
      Ensures-bind (λ _. Unit {0}) (λ _. Unit {0}) (add_logos_all logo m.providers) _
        (add_logos_all-Returns m.providers q.0)
        λ ps _.
          Ensures-bind (λ _. Unit {0}) (λ _. Unit {0}) (with_logos logo ms) _
            (with_logos-Returns ms q.1) λ ms' _. tt

abbrev pub AreComplete : Option (List (Option PaymentMethod)) → Type 0
AreComplete none = Unit
AreComplete (some ms) = All IsComplete ms

-- In the response, if there is one, the logos are lists of texts, and no method of the desktop and no
-- provider of one is null.
abbrev pub HasLogos : Option PaymentMethodsResponse → Type 0
HasLogos none = Unit
HasLogos (some resp) = AreLogos resp.logo × AreComplete (lookup desktop resp.providers)

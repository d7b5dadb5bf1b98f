-- ===== src/Loconf/Keys.antt =====
-- What the normalised keys give: desktop/loconf/loconf.go looks up a locale or a country without
-- regard to case.
use lantern_client.Prelude.{
  ◌≡◌, refl, String, Option, none, some, [], ◌∷◌, Dict, lookup, insert, lookup-insert, eq_iff, ◌↔◌,
  ◌≢◌, Bool-cases, Option-cases, inl, inr, ◌==◌, ◌⊎◌,
}
use lantern_client.Loconf.Conf.{LoConf, lower_keys, normalize, or_else, pointer, get_by}

module _ (lower : String → String) (lower_idem : (s : String) → lower (lower s) ≡ lower s) where
  -- A key that the loop leaves in the map is in lower case.
  lower_keys-IsLower :
      {V : Type 0} (m out : Dict V) (k : String) (v : V)
      → ((j : String) (w : V) → lookup j out ≡ some w → lower j ≡ j)
      → lookup k (lower_keys lower m out) ≡ some v
      → lower k ≡ k
  unfolding lower_keys
  lower_keys-IsLower [] out k v h e = h k v e
  lower_keys-IsLower ((i, w) ∷ m) out k v h e =
      lower_keys-IsLower m (insert (lower i) w out) k v
        (λ j u f. elim (Bool-cases (lower i == j)) [
          | inl same ↦ rw (← (eq_iff (lower i) j).0 same) (lower_idem i)
          | inr other ↦ h j u (rw (lookup-insert, other) at f)
        ])
        e

  -- Where putting a text in lower case twice is the same as once, every key of each of the four
  -- maps of a parsed configuration is in lower case: a text that is not in lower case is no key.
  normalize-IsLower :
      {F : Type 0} (lc : LoConf F) (k : String)
      → (lower k ≡ k → ⊥)
      → (lookup k (normalize lower lc).surveys ≡ none)
        × (lookup k (normalize lower lc).announcements ≡ none)
        × (lookup k (normalize lower lc).uninstall_surveys_pro ≡ none)
        × (lookup k (normalize lower lc).uninstall_surveys_free ≡ none)
  unfolding normalize
  normalize-IsLower lc k upper = (
    absent lc.surveys,
    absent lc.announcements,
    absent lc.uninstall_surveys_pro,
    absent lc.uninstall_surveys_free,
  )
    where
      absent : {V : Type 0} (m : Dict V) → lookup k (lower_keys lower m []) ≡ none
      absent m = elim (Option-cases (lookup k (lower_keys lower m []))) [
        | inl e ↦ e
        | inr (v, e) ↦ absurd (upper (lower_keys-IsLower m [] k v (λ j w f. unfold lookup in cc) e))
      ]

Found : {A : Type 0} → Option (Option A) → Option (Option A) → A → Type 0
Found {A} c l a = (c ≡ some (some a)) ⊎ (((b : A) → c ≢ some (some b)) × (l ≡ some (some a)))

Found-iff :
    {A : Type 0} (c l : Option (Option A)) (a : A)
    → (or_else (pointer c) (pointer l) ≡ some a) ↔ Found c l a
unfolding Found or_else pointer
Found-iff none none a = (λ h. cc, λ h. elim h [ inl e ↦ cc | inr e ↦ let f = e.1 in cc ])
Found-iff none (some l) a =
    (λ h. inr (λ b e. cc, cc), λ h. elim h [ inl e ↦ cc | inr e ↦ let f = e.1 in cc ])
Found-iff (some none) none a = (λ h. cc, λ h. elim h [ inl e ↦ cc | inr e ↦ let f = e.1 in cc ])
Found-iff (some none) (some l) a =
    (λ h. inr (λ b e. cc, cc), λ h. elim h [ inl e ↦ cc | inr e ↦ let f = e.1 in cc ])
Found-iff (some (some c)) l a =
    (λ h. inl (cc), λ h. elim h [ inl e ↦ cc | inr e ↦ absurd (e.0 c refl) ])

-- The survey found is the country's; or where the country has none, or a null, the locale's. No survey
-- is found otherwise.
get_by_lem :
    (lower : String → String) {A : Type 0} (m : Dict (Option A)) (locale country : String) (a : A)
    → (get_by lower m locale country ≡ some a) ↔ (
        (lookup (lower country) m ≡ some (some a))
        ⊎ (((b : A) → lookup (lower country) m ≢ some (some b))
            × (lookup (lower locale) m ≡ some (some a))))
unfolding get_by Found
get_by_lem lower m locale country a =
    Found-iff (lookup (lower country) m) (lookup (lower locale) m) a

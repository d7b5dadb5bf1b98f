-- ===== src/Loconf/Due.antt =====
-- Which announcement desktop/loconf/loconf.go gives: exactly the one of the section that the locale or
-- the default selects, if it is current and meant for this kind of user.
use mathlib.Core.Path.{subst}
use lantern_client.Prelude.{
  ℕ, ◌≤◌, ◌≡◌, ◌↔◌, refl, String, Bool, true, false, Option, none, some, [], ◌∷◌, Dict, lookup, ltb,
  eq_iff, arith, ap, ◌∙◌, Bool-cases, inl, inr, ◌==◌, ◌⊎◌,
}
use lantern_client.Loconf.Conf.{LoConf, Announcement}
use lantern_client.Loconf.Announce.{
  ok, err, no_available, bad_default, no_announcement, bad_section, or_fail, >>=-eq-ok,
  or_fail-eq-ok, fall_back, own_or, check_time, choose_section, check_expiry, check_audience,
  get_announcement,
}

module _ (lower : String → String) (decode_text : String → Option String)
    (decode : String → Option Announcement) (parse_time : String → Option ℕ) (now : ℕ) where
  -- The section of the locale, or where it has none that of the default locale.
  pub data Selects (m : Dict String) (locale section : String) : Type 0 where
    own : lookup (lower locale) m ≡ some section → Selects m locale section
    default :
        {field default_locale : String}
        → lookup (lower locale) m ≡ none
        → lookup "default" m ≡ some field
        → decode_text field ≡ some default_locale
        → (default_locale == "") ≡ false
        → lookup (lower default_locale) m ≡ some section
        → Selects m locale section

  -- It has no expiry, or one that lies ahead.
  abbrev pub IsCurrent : Announcement → Type 0
  IsCurrent a = (a.expiry ≡ "") ⊎ ((t : ℕ) × (parse_time a.expiry ≡ some t) × (now ≤ t))

  abbrev pub IsFor : Bool → Announcement → Type 0
  IsFor true a = a.pro ≡ true
  IsFor false a = a.free ≡ true

  pub record IsDue {F : Type 0} (lc : LoConf F) (locale : String) (is_pro : Bool) (a : Announcement)
      : Type 0 where
    pub section : String
    pub selected : Selects lc.announcements locale section
    pub decoded : decode section ≡ some a
    pub current : IsCurrent a
    pub audience : IsFor is_pro a

  fall_back-Selects :
      (m : Dict String) (locale section : String)
      → lookup (lower locale) m ≡ none
      → fall_back lower decode_text m ≡ ok section
      → Selects m locale section
  unfolding fall_back
  fall_back-Selects m locale section missing h =
      let (field, has_default, h₁) = >>=-eq-ok (or_fail (lookup "default" m) no_available) _ h in
      let (default_locale, decoded, h₂) =
        >>=-eq-ok (or_fail (decode_text field) bad_default) _ h₁ in
      elim (Bool-cases (default_locale == "")) [
        | inl empty ↦ let e : err no_available ≡ ok section = (rw empty at h₂) in cc
        | inr named ↦
            default missing (or_fail-eq-ok _ _ has_default) (or_fail-eq-ok _ _ decoded) named
              (or_fail-eq-ok _ no_announcement (rw named at h₂))
      ]

  own_or-Selects :
      (m : Dict String) (locale section : String) (o : Option String)
      → lookup (lower locale) m ≡ o
      → own_or lower decode_text o m ≡ ok section
      → Selects m locale section
  unfolding own_or
  own_or-Selects m locale section none found h = fall_back-Selects m locale section found h
  own_or-Selects m locale section (some s) found h = own (cc)

  choose_section-Selects :
      (m : Dict String) (locale section : String)
      → choose_section lower decode_text m locale ≡ ok section
      → Selects m locale section
  unfolding choose_section
  choose_section-Selects [] locale section h = absurd (cc)
  choose_section-Selects (e ∷ m) locale section h =
      own_or-Selects (e ∷ m) locale section (lookup (lower locale) (e ∷ m)) refl h

  Selects-fall_back :
      (m : Dict String) (section field default_locale : String)
      → lookup "default" m ≡ some field
      → decode_text field ≡ some default_locale
      → (default_locale == "") ≡ false
      → lookup (lower default_locale) m ≡ some section
      → fall_back lower decode_text m ≡ ok section
  unfolding fall_back
  Selects-fall_back m section field default_locale d t n f = rw (d, t, n, f)

  Selects-choose_section :
      (m : Dict String) (locale section : String)
      → Selects m locale section
      → choose_section lower decode_text m locale ≡ ok section
  unfolding choose_section
  Selects-choose_section [] locale section (own f) = absurd (unfold lookup in cc)
  Selects-choose_section [] locale section (default m d t n f) = absurd (unfold lookup in cc)
  Selects-choose_section (e ∷ m) locale section (own f) = rw f
  Selects-choose_section (e ∷ m) locale section (default {field} {default_locale} no_own d t n f) =
      rw no_own (Selects-fall_back (e ∷ m) section field default_locale d t n f)

  check_time-ok :
      (o : Option ℕ) (a b : Announcement)
      → check_time o now a ≡ ok b
      → (a ≡ b) × ((t : ℕ) × (o ≡ some t) × (now ≤ t))
  unfolding check_time
  check_time-ok none a b h = absurd (cc)
  check_time-ok (some t) a b h = elim (Bool-cases (ltb t now)) [
    | inl past ↦ let e : err no_available ≡ ok b = (rw past at h) in absurd (cc)
    | inr ahead ↦ let e : ok a ≡ ok b = (rw ahead at h) in (cc, (t, refl, ground arith))
  ]

  check_expiry-ok :
      (a b : Announcement) → check_expiry parse_time now a ≡ ok b → (a ≡ b) × IsCurrent a
  unfolding check_expiry
  check_expiry-ok a b h = elim (Bool-cases (a.expiry == "")) [
    | inl never ↦ let e : ok a ≡ ok b = (rw never at h) in (cc, inl ((eq_iff a.expiry "").0 never))
    | inr some_time ↦
        let (same, ahead) = check_time-ok (parse_time a.expiry) a b (rw some_time at h) in
        (same, inr ahead)
  ]

  IsCurrent-check_expiry : (a : Announcement) → IsCurrent a → check_expiry parse_time now a ≡ ok a
  unfolding check_expiry check_time
  IsCurrent-check_expiry a (inl never) = rw ((eq_iff a.expiry "").1 never)
  IsCurrent-check_expiry a (inr (t, parsed, ahead)) = rw parsed (ground arith)

  check_audience-ok :
      (is_pro : Bool) (a b : Announcement)
      → check_audience is_pro a ≡ ok b
      → (a ≡ b) × IsFor is_pro a
  unfolding check_audience
  check_audience-ok true a b h = ground arith
  check_audience-ok false a b h = ground arith

  IsFor-check_audience :
      (is_pro : Bool) (a : Announcement) → IsFor is_pro a → check_audience is_pro a ≡ ok a
  unfolding check_audience
  IsFor-check_audience true a h = ground arith
  IsFor-check_audience false a h = ground arith

  given-IsDue :
      {F : Type 0} (lc : LoConf F) (locale : String) (is_pro : Bool) (a : Announcement)
      → get_announcement lower decode_text decode parse_time now lc locale is_pro ≡ ok a
      → IsDue lc locale is_pro a
  unfolding get_announcement
  given-IsDue lc locale is_pro a h =
      let (section, chosen, h₁) =
        >>=-eq-ok (choose_section lower decode_text lc.announcements locale) _ h in
      let (b, decoded, h₂) = >>=-eq-ok (or_fail (decode section) bad_section) _ h₁ in
      let (c, current, h₃) = >>=-eq-ok (check_expiry parse_time now b) _ h₂ in
      let (same, ahead) = check_expiry-ok b c current in
      let (same', audience) = check_audience-ok is_pro c a h₃ in
      record {
        section = section;
        selected = choose_section-Selects lc.announcements locale section chosen;
        decoded = or_fail-eq-ok _ bad_section decoded ∙ ap some (same ∙ same');
        current = subst IsCurrent (same ∙ same') ahead;
        audience = subst (IsFor is_pro) same' audience;
      }

  IsDue-given :
      {F : Type 0} (lc : LoConf F) (locale : String) (is_pro : Bool) (a : Announcement)
      → IsDue lc locale is_pro a
      → get_announcement lower decode_text decode parse_time now lc locale is_pro ≡ ok a
  unfolding get_announcement
  IsDue-given lc locale is_pro a due =
      rw
        (
          Selects-choose_section lc.announcements locale due.section due.selected,
          due.decoded,
          IsCurrent-check_expiry a due.current,
        )
        (IsFor-check_audience is_pro a due.audience)

  -- An announcement is given if and only if it is the decoded section that the locale selects (or
  -- the default locale, where the locale has no section), it has not expired, and it is meant for
  -- users of this kind.
  pub get_announcement_iff :
      {F : Type 0} (lc : LoConf F) (locale : String) (is_pro : Bool) (a : Announcement)
      → (get_announcement lower decode_text decode parse_time now lc locale is_pro ≡ ok a)
        ↔ IsDue lc locale is_pro a
  get_announcement_iff lc locale is_pro a =
      (given-IsDue lc locale is_pro a, IsDue-given lc locale is_pro a)

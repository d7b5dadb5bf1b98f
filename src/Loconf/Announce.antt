-- ===== src/Loconf/Announce.antt =====
-- `GetAnnouncement` of desktop/loconf/loconf.go. `decode_text` and `decode` stand for
-- `json.Unmarshal` into a text and into an announcement, `parse_time` for `time.Parse` with RFC 3339,
-- and `now` for the clock; times are seconds.
use lantern_client.Prelude.{
  ℕ, String, Bool, not, ◌&&◌, ◌||◌, Option, none, some, [], ◌∷◌, Dict, lookup, ltb, if◌then◌else◌,
  ◌==◌, ◌≡◌, refl,
}
use lantern_client.Loconf.Conf.{LoConf, Announcement}

pub data Failure : Type 0 where
  no_available bad_default no_announcement bad_section bad_expiry : Failure

pub data Result (A : Type 0) : Type 0 where
  err : Failure → Result A
  ok : A → Result A

-- The early returns of Go: what follows an error is not run.
infixl 5 ◌>>=◌
abbrev pub ◌>>=◌ : {A B : Type 0} → Result A → (A → Result B) → Result B
err reason >>= next = err reason
ok value >>= next = next value

abbrev pub or_fail : {A : Type 0} → Option A → Failure → Result A
or_fail none e = err e
or_fail (some a) e = ok a

module _ (lower : String → String) (decode_text : String → Option String) where
  unfoldable pub fall_back : Dict String → Result String
  fall_back m = do
    field ← or_fail (lookup "default" m) no_available
    default_locale ← or_fail (decode_text field) bad_default
    if default_locale == ""
        then err no_available
        else or_fail (lookup (lower default_locale) m) no_announcement

  unfoldable pub own_or : Option String → Dict String → Result String
  own_or none m = fall_back m
  own_or (some section) m = ok section

  -- The section of the locale, or of the default locale if the locale has none.
  unfoldable pub choose_section : Dict String → String → Result String
  unfolding own_or fall_back
  choose_section [] locale = err no_available
  choose_section (e ∷ m) locale = own_or (lookup (lower locale) (e ∷ m)) (e ∷ m)

unfoldable pub check_time : Option ℕ → ℕ → Announcement → Result Announcement
check_time none now a = err bad_expiry
check_time (some t) now a = if ltb t now then err no_available else ok a

unfoldable pub check_expiry : (String → Option ℕ) → ℕ → Announcement → Result Announcement
unfolding check_time
check_expiry parse_time now a =
    if a.expiry == "" then ok a else check_time (parse_time a.expiry) now a

unfoldable pub check_audience : Bool → Announcement → Result Announcement
check_audience is_pro a =
    if (is_pro && a.pro) || (not is_pro && a.free) then ok a else err no_available

module _ (lower : String → String) (decode_text : String → Option String)
    (decode : String → Option Announcement) (parse_time : String → Option ℕ) (now : ℕ) where
  unfoldable pub get_announcement : {F : Type 0} → LoConf F → String → Bool → Result Announcement
  get_announcement lc locale is_pro = do
    section ← choose_section lower decode_text lc.announcements locale
    a ← or_fail (decode section) bad_section
    current ← check_expiry parse_time now a
    check_audience is_pro current

pub >>=-eq-ok :
    {A B : Type 0} (first : Result A) (next : A → Result B) {last : B}
    → (first >>= next) ≡ ok last
    → (value : A) × (first ≡ ok value) × (next value ≡ ok last)
>>=-eq-ok (err reason) next returned = cc
>>=-eq-ok (ok value) next returned = (value, refl, returned)

pub or_fail-eq-ok :
    {A : Type 0} (o : Option A) (reason : Failure) {value : A}
    → or_fail o reason ≡ ok value
    → o ≡ some value
or_fail-eq-ok none reason returned = cc
or_fail-eq-ok (some _) reason returned = cc

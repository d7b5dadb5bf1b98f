-- ===== src/Settings/Migration.antt =====
-- What a load makes of an old file, and what it always sets (`toCamelCase` and `LoadSettingsFrom` of
-- desktop/app/settings.go).
use mathlib.Core.Path.{ap₂}
use lantern_client.Prelude.{
  ◌≡◌, ◌≢◌, refl, ◌∙◌, String, Bool, true, false, not, ◌&&◌, Option, none, some, List, [], ◌∷◌,
  Dict, lookup, lookup-insert, lookup-erase, to_lower, contains, eq_iff, eq_refl, arith, Bool-cases,
  Option-cases, inl, inr, ◌==◌, ℤ,
}
use lantern_client.Settings.Value.{Value, int, int64}
use lantern_client.Settings.Names.{
  sn_device_id, sn_user_id, sn_version, sn_build_date, sn_revision_date,
}
use lantern_client.Settings.Store.{Settings, get_string}
use lantern_client.Settings.Load.{
  widen, move_value, migrate, to_camel_case, widen_user_id, load_settings_from,
}

-- No migration of one of the two names touches the other.
abbrev pub apart : String → String → Bool
apart k j =
    not (k == j) && not (to_lower k == j) && not (to_lower j == k) && not (to_lower k == to_lower j)

abbrev all_apart_from : String → List String → Bool
all_apart_from k [] = true
all_apart_from k (j ∷ js) = apart k j && all_apart_from k js

-- The names are pairwise apart.
abbrev pub all_apart : List String → Bool
all_apart [] = true
all_apart (k ∷ ks) = all_apart_from k ks && all_apart ks

abbrev pub first_of : Option Value → Option Value → Option Value
first_of none o = o
first_of (some v) o = some v

lookup-move_value :
    (j k lower : String) (o : Option Value) (m : Dict Value)
    → (k == j) ≡ false
    → (lower == j) ≡ false
    → lookup j (move_value k lower o m) ≡ lookup j m
unfolding move_value
lookup-move_value j k lower none m ne ne_lower = refl
lookup-move_value j k lower (some v) m ne ne_lower = rw (lookup-insert, ne, lookup-erase, ne_lower)

lookup-migrate_ne :
    (j k : String) (m : Dict Value)
    → (k == j) ≡ false
    → (to_lower k == j) ≡ false
    → lookup j (migrate k m) ≡ lookup j m
unfolding migrate
lookup-migrate_ne j k m ne ne_lower = lookup-move_value j k (to_lower k) _ m ne ne_lower

lookup-migrate_self :
    (k : String) (m : Dict Value)
    → lookup k (migrate k m) ≡ first_of (lookup (to_lower k) m) (lookup k m)
unfolding migrate move_value
lookup-migrate_self k m = elim (Option-cases (lookup (to_lower k) m)) [
  | inl e ↦ rw e
  | inr (v, e) ↦ rw (e, lookup-insert, eq_refl)
]

and_left : (a b : Bool) → (a && b) ≡ true → a ≡ true
and_left a b h = ground arith

and_right : (a b : Bool) → (a && b) ≡ true → b ≡ true
and_right a b h = ground arith

-- The tests of `apart`, each in the direction in which a migration makes it.
record Apart (a b : String) : Type 0 where
  ab : (a == b) ≡ false
  ba : (b == a) ≡ false
  lower_ab : (to_lower a == b) ≡ false
  lower_ba : (to_lower b == a) ≡ false
  a_lower : (a == to_lower b) ≡ false
  lowers : (to_lower a == to_lower b) ≡ false

==-flip : (a b : String) → (a == b) ≡ false → (b == a) ≡ false
==-flip a b h = ground (arith, eq_iff a b, eq_iff b a)

apart-Apart : (a b : String) → apart a b ≡ true → Apart a b
apart-Apart a b h =
    let ne : (a == b) ≡ false = ground arith in
    let flip : (to_lower b == a) ≡ false = ground arith in
    record {
      ab = ne;
      ba = ==-flip a b ne;
      lower_ab = ground arith;
      lower_ba = flip;
      a_lower = ==-flip (to_lower b) a flip;
      lowers = ground arith;
    }

all_apart_from-contains :
    (j k : String) (names : List String)
    → contains k names ≡ true
    → all_apart_from j names ≡ true
    → apart j k ≡ true
all_apart_from-contains j k [] h from = cc
all_apart_from-contains j k (i ∷ names) h from = elim (Bool-cases (k == i)) [
  | inl e ↦ rw ((eq_iff k i).0 e) (and_left _ _ from)
  | inr e ↦ all_apart_from-contains j k names (rw (e, contains) at h) (and_right _ _ from)
]

lookup-to_camel_case_ne :
    (k : String) (names : List String) (m : Dict Value)
    → all_apart_from k names ≡ true
    → lookup k (to_camel_case names m) ≡ lookup k m
unfolding to_camel_case
lookup-to_camel_case_ne k [] m h = refl
lookup-to_camel_case_ne k (j ∷ names) m h =
    let p = apart-Apart k j (and_left _ _ h) in
    lookup-to_camel_case_ne k names (migrate j m) (and_right _ _ h)
    ∙ lookup-migrate_ne k j m p.ba p.lower_ba

-- Where no name of the list is another or the lower-case form of another, each name of the list
-- gets the value that the file has under the name in lower case, and keeps its own where the
-- file has none.
lookup-to_camel_case :
    (k : String) (names : List String) (m : Dict Value)
    → contains k names ≡ true
    → all_apart names ≡ true
    → lookup k (to_camel_case names m) ≡ first_of (lookup (to_lower k) m) (lookup k m)
unfolding to_camel_case
lookup-to_camel_case k [] m h pairwise = cc
lookup-to_camel_case k (j ∷ names) m h pairwise = elim (Bool-cases (k == j)) [
  | inl e ↦ rw ((eq_iff k j).0 e) (
      lookup-to_camel_case_ne j names (migrate j m) (and_left _ _ pairwise)
      ∙ lookup-migrate_self j m)
  | inr e ↦
      let within : contains k names ≡ true = rw (e, contains) at h in
      let p = apart-Apart j k (all_apart_from-contains j k names within (and_left _ _ pairwise)) in
      lookup-to_camel_case k names (migrate j m) within (and_right _ _ pairwise)
      ∙ ap₂ first_of (lookup-migrate_ne (to_lower k) j m p.a_lower p.lowers)
          (lookup-migrate_ne k j m p.ab p.lower_ab)
]

-- What holds of a load, whatever the file says.
pub record Loaded (id version revision_date build_date : String) (s : Settings) : Type 0 where
  pub device : get_string sn_device_id s ≡ id
  pub version_read : get_string sn_version s ≡ version
  pub revision_read : get_string sn_revision_date s ≡ revision_date
  pub build_read : get_string sn_build_date s ≡ build_date
  pub no_int : (z : ℤ) → lookup sn_user_id s.m ≢ some (int z)

widen-no_int :
    (o : Option Value) (m : Dict Value) (z : ℤ)
    → lookup sn_user_id m ≡ o
    → lookup sn_user_id (widen o m) ≢ some (int z)
unfolding widen
widen-no_int (some (int y)) m z e h = cc (h, lookup-insert sn_user_id sn_user_id (int64 y) m)
widen-no_int (some (int64 y)) m z e h = cc (h, lookup-insert sn_user_id sn_user_id (int64 y) m)
widen-no_int _ m z e h = cc

widen_ne :
    (j : String) (o : Option Value) (m : Dict Value)
    → (sn_user_id == j) ≡ false
    → lookup j (widen o m) ≡ lookup j m
unfolding widen
widen_ne j (some (int y)) m ne = rw (lookup-insert, ne)
widen_ne j (some (int64 y)) m ne = rw (lookup-insert, ne)
widen_ne j _ m ne = refl

widened : (m : Dict Value) (z : ℤ) → lookup sn_user_id (widen_user_id m) ≢ some (int z)
unfolding widen_user_id
widened m z = widen-no_int (lookup sn_user_id m) m z refl

widened_ne :
    (j : String) (m : Dict Value)
    → (sn_user_id == j) ≡ false
    → lookup j (widen_user_id m) ≡ lookup j m
unfolding widen_user_id
widened_ne j m ne = widen_ne j (lookup sn_user_id m) m ne

-- Whatever the settings file holds, in whatever order the names are migrated, a load gives the device
-- id of this device, the version, revision date and build date of this build, and no user id of
-- type `int`.
load_settings_from-Loaded :
    (unmarshal : Dict Value → Dict Value) (names : List String)
    (id version revision_date build_date : String)
    → Loaded id version revision_date build_date
        (load_settings_from unmarshal names id version revision_date build_date)
unfolding load_settings_from get_string
load_settings_from-Loaded unmarshal names id version revision_date build_date = record {
  device = rw (lookup-insert, lookup-insert, lookup-insert, widened_ne, lookup-insert);
  version_read = rw (lookup-insert, lookup-insert, lookup-insert);
  revision_read = rw lookup-insert;
  build_read = rw (lookup-insert, lookup-insert);
  no_int = λ z. rw (lookup-insert, lookup-insert, lookup-insert) (widened _ z);
}

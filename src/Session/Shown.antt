-- ===== src/Session/Shown.antt =====
-- Which advertisements are shown after the methods of internalsdk/session_model.go that decide on them.
use lantern_client.Prelude.{
  ◌≡◌, refl, ap, ◌∙◌, String, Bool, true, false, not, ◌||◌, Option, some, [], Dict, lookup, insert,
  insert_all, lookup-insert, if◌then◌else◌, ◌==◌, arith,
}
use lantern_client.Session.Db.{
  Db, DbValue, bool, text, mutate, get_bool, get_text, as_bool, as_text,
}
use lantern_client.Session.Values.{is_pro_user}
use lantern_client.Session.Ads.{
  show_ads, check_ads_enabled, set_show_interstitial_ads, set_show_app_open_ads,
  has_all_network_permission,
}

abbrev pub no_faults : Dict DbValue → Db
no_faults m = record { m = m; faults = [] }

-- What is to be shown: nothing to a Pro user or without the permission, and else the first kind that is
-- enabled; `old` where none is.
unfoldable pub ad_kind : Bool → Bool → Bool → Bool → String → String
ad_kind pro permission interstitial app_open old =
    if pro || not permission
    then ""
    else if interstitial
    then "interstitial"
    else if app_open
    then "appOpen"
    else old

shown_after :
    (kind : String) (m : Dict DbValue) → get_text "showAds" (show_ads kind (no_faults m)).1 ≡ kind
unfolding mutate insert_all get_text
shown_after kind m = ap as_text (lookup-insert "showAds" "showAds" (text kind) m)

check_lem :
    (m : Dict DbValue)
    → get_text "showAds" (check_ads_enabled (no_faults m)).1
      ≡ ad_kind
          (get_bool "prouser" (no_faults m))
          (get_bool "/hasAllNetworkPermssion" (no_faults m))
          (get_bool "shouldShowGoogleAds" (no_faults m))
          (get_bool "shouldShowAppOpenAds" (no_faults m))
          (get_text "showAds" (no_faults m))
unfolding check_ads_enabled ad_kind is_pro_user
check_lem m =
    ground (arith, shown_after "" m, shown_after "interstitial" m, shown_after "appOpen" m)

-- The kind that is shown where these are the flags of the database.
abbrev pub shown_for : Bool → Bool → Bool → Dict DbValue → String
shown_for permission interstitial app_open m =
    ad_kind (is_pro_user (no_faults m)) permission interstitial app_open
      (get_text "showAds" (no_faults m))

flag_in :
    (c b : Bool) (o : Option DbValue)
    → as_bool (if c then some (bool b) else o) ≡ (if c then b else as_bool o)
unfolding as_bool
flag_in true b o = refl
flag_in false b o = refl

read_flag :
    (path other : String) (b : Bool) (m : Dict DbValue)
    → get_bool other (no_faults (insert path (bool b) m))
      ≡ (if path == other then b else get_bool other (no_faults m))
unfolding get_bool
read_flag path other b m =
    ap as_bool (lookup-insert path other (bool b) m) ∙ flag_in (path == other) b (lookup other m)

read_text :
    (path other : String) (b : Bool) (m : Dict DbValue)
    → (path == other) ≡ false
    → get_text other (no_faults (insert path (bool b) m)) ≡ get_text other (no_faults m)
unfolding get_text
read_text path other b m different =
    ap as_text {y = lookup other m} (lookup-insert path other (bool b) m ∙ rw (different) refl)

-- The flags after one of them was set.
kind_after :
    (path : String) (b : Bool) (m : Dict DbValue)
    → (path == "showAds") ≡ false
    → (path == "prouser") ≡ false
    → shown_for
        (get_bool "/hasAllNetworkPermssion" (no_faults (insert path (bool b) m)))
        (get_bool "shouldShowGoogleAds" (no_faults (insert path (bool b) m)))
        (get_bool "shouldShowAppOpenAds" (no_faults (insert path (bool b) m)))
        (insert path (bool b) m)
      ≡ shown_for
          (if path == "/hasAllNetworkPermssion"
            then b
            else get_bool "/hasAllNetworkPermssion" (no_faults m))
          (if path == "shouldShowGoogleAds"
            then b
            else get_bool "shouldShowGoogleAds" (no_faults m))
          (if path == "shouldShowAppOpenAds"
            then b
            else get_bool "shouldShowAppOpenAds" (no_faults m))
          m
unfolding is_pro_user
kind_after path b m not_shown not_pro =
    rw
      (
        read_flag path "/hasAllNetworkPermssion" b m,
        read_flag path "shouldShowGoogleAds" b m,
        read_flag path "shouldShowAppOpenAds" b m,
        read_flag path "prouser" b m,
        not_pro,
        read_text path "showAds" b m not_shown,
      )
      refl

-- On Android, where no transaction fails: after a call that sets a flag or gives the permission, what is
-- shown is nothing for a Pro user and without the permission, else interstitials where they are enabled, else
-- those at the start where they are, and else what was shown before; the flag set is the one that
-- counts. On other platforms the setters leave what is shown.
ads_lem :
    (enable : Bool) (m : Dict DbValue)
    → let permission = get_bool "/hasAllNetworkPermssion" (no_faults m) in
      let interstitial = get_bool "shouldShowGoogleAds" (no_faults m) in
      let app_open = get_bool "shouldShowAppOpenAds" (no_faults m) in
      (get_text "showAds" (set_show_interstitial_ads true enable (no_faults m)).1
        ≡ shown_for permission enable app_open m)
      × (get_text "showAds" (set_show_app_open_ads true enable (no_faults m)).1
          ≡ shown_for permission interstitial enable m)
      × (get_text "showAds" (has_all_network_permission (no_faults m)).1
          ≡ shown_for true interstitial app_open m)
      × (get_text "showAds" (set_show_interstitial_ads false enable (no_faults m)).1
          ≡ get_text "showAds" (no_faults m))
      × (get_text "showAds" (set_show_app_open_ads false enable (no_faults m)).1
          ≡ get_text "showAds" (no_faults m))
unfolding set_show_interstitial_ads set_show_app_open_ads has_all_network_permission mutate
    insert_all is_pro_user
ads_lem enable m = (
  check_lem (insert "shouldShowGoogleAds" (bool enable) m)
      ∙ kind_after "shouldShowGoogleAds" enable m refl refl,
  check_lem (insert "shouldShowAppOpenAds" (bool enable) m)
      ∙ kind_after "shouldShowAppOpenAds" enable m refl refl,
  check_lem (insert "/hasAllNetworkPermssion" (bool true) m)
      ∙ kind_after "/hasAllNetworkPermssion" true m refl refl,
  read_text "shouldShowGoogleAds" "showAds" enable m refl,
  read_text "shouldShowAppOpenAds" "showAds" enable m refl,
)

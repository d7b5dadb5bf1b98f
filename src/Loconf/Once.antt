-- ===== src/Loconf/Once.antt =====
-- Over any number of rounds of desktop/app/loconfscanner.go no campaign is shown twice.
use lantern_client.Prelude.{
  ℕ, ◌≡◌, refl, sym, ◌∙◌, String, Bool, true, false, ◌||◌, Option, none, some, List, [], ◌∷◌, ◌++◌,
  contains, All, All-append, All-map, lookup, eq_iff, eq_refl, arith, Bool-cases, inl, inr, ◌==◌,
  Ensures, contains-snoc, IsDistinct, IsDistinct-snoc, Ensures-bind,
}
use lantern_client.Settings.Value.{Value}
use lantern_client.Settings.Names.{sn_past_announcements, setting_meta}
use lantern_client.Settings.Store.{Settings, get_string_array}
use lantern_client.Settings.Types.{Fits, IsTyped}
use lantern_client.Settings.Writes.{set_strings_lem}
use lantern_client.Loconf.Conf.{LoConf, Announcement}
use lantern_client.Loconf.Announce.{Result, ok, err}
use lantern_client.Loconf.Scanner.{
  Scan, Check, remember, show_new, show_result, make_announcements, check_known, checker, scan,
}

or_true : (b : Bool) → (b || true) ≡ true
or_true b = ground arith

abbrev Within : List String → List String → Type 0
Within past shown = All (λ c. contains c past ≡ true) shown

not_shown :
    (c : String) (past shown : List String)
    → Within past shown
    → contains c past ≡ false
    → contains c shown ≡ false
not_shown c past [] w h = refl
not_shown c past (x ∷ xs) w h = elim (Bool-cases (c == x)) [
  | inl same ↦
      let e : contains c past ≡ true = rw ((eq_iff c x).0 same) w.0 in
      let f : false ≡ true = sym h ∙ e in absurd (cc)
  | inr other ↦ rw (other, contains) (not_shown c past xs w.1 h)
]

Within-snoc :
    (c : String) (past shown : List String)
    → Within past shown
    → Within (past ++ c ∷ []) (shown ++ c ∷ [])
Within-snoc c past shown w =
    All-append _ shown (c ∷ [])
      (All-map {Q = λ x. contains x (past ++ c ∷ []) ≡ true}
        (λ x h. let seen : contains x past ≡ true = h in ground (arith, contains-snoc x c past))
        shown w)
      (rw (contains-snoc c c past, eq_refl) (or_true (contains c past)), tt)

module _ (sprint : Value → String) where
  abbrev pub past_of : Settings → List String
  past_of s = get_string_array sprint sn_past_announcements s

  -- No campaign was shown twice, and what was shown is stored.
  pub record IsOnce (s : Scan) : Type 0 where
    pub typed : IsTyped s.settings
    pub distinct : IsDistinct s.shown
    pub stored : Within (past_of s.settings) s.shown

  remember-IsOnce :
      (c : String) (s : Scan)
      → IsOnce s
      → contains c (past_of s.settings) ≡ false
      → Ensures IsOnce (remember sprint c (past_of s.settings) s)
  unfolding remember
  remember-IsOnce c s h unseen =
      Ensures-bind (λ s'. IsTyped s' × (past_of s' ≡ past_of s.settings ++ c ∷ [])) IsOnce _ _
        (set_strings_lem sprint sn_past_announcements (past_of s.settings ++ c ∷ []) s.settings
          (unfold Fits lookup setting_meta in tt) h.typed)
        λ s' (typed, read). record {
          typed = typed;
          distinct =
              IsDistinct-snoc c s.shown h.distinct
                (not_shown c (past_of s.settings) s.shown h.stored unseen);
          stored = rw read (Within-snoc c (past_of s.settings) s.shown h.stored);
        }

  show_new-IsOnce :
      (shows : Announcement → Bool) (a : Announcement) (s : Scan)
      → IsOnce s
      → Ensures IsOnce (show_new sprint shows a s)
  unfolding show_new
  show_new-IsOnce shows a s h = elim (Bool-cases (contains a.campaign (past_of s.settings))) [
    | inl seen ↦ rw seen h
    | inr unseen ↦ elim (Bool-cases (shows a)) [
      | inl appears ↦ rw (unseen, appears) (remember-IsOnce a.campaign s h unseen)
      | inr refused ↦ rw (unseen, refused) h
    ]
  ]

  show_result-IsOnce :
      (shows : Announcement → Bool) (r : Result Announcement) (s : Scan)
      → IsOnce s
      → Ensures IsOnce (show_result sprint shows r s)
  unfolding show_result
  show_result-IsOnce shows (err e) s h = h
  show_result-IsOnce shows (ok a) s h = show_new-IsOnce shows a s h

module _ (sprint : Value → String) (lower : String → String) (decode_text : String → Option String)
    (decode : String → Option Announcement) (parse_time : String → Option ℕ) where
  checker-IsOnce :
      {F : Type 0} (c : Check F) (s : Scan)
      → IsOnce sprint s
      → Ensures (IsOnce sprint) (checker sprint lower decode_text decode parse_time c s)
  unfolding checker
  checker-IsOnce {F} c s h = go c.fetched c.is_pro
    where
      go :
          (f : Option (LoConf F)) (p : Option Bool)
          → Ensures (IsOnce sprint) (check_known sprint lower decode_text decode parse_time c f p s)
      go none p = h
      go (some lc) none = h
      go (some lc) (some is_pro) =
          unfold make_announcements in show_result-IsOnce sprint c.shows _ s h

  -- From a state whose settings have the types of the table and in which the campaigns shown are
  -- all different and stored among the past announcements (at the start none is shown), any
  -- number of rounds ends without a panic and in such a state: no campaign is shown twice, and
  -- each one shown is stored.
  pub scan-IsOnce :
      {F : Type 0} (cs : List (Check F)) (s : Scan)
      → IsOnce sprint s
      → Ensures (IsOnce sprint) (scan sprint lower decode_text decode parse_time cs s)
  unfolding scan
  scan-IsOnce [] s h = h
  scan-IsOnce (c ∷ cs) s h =
      Ensures-bind (IsOnce sprint) (IsOnce sprint)
        (checker sprint lower decode_text decode parse_time c s) _ (checker-IsOnce c s h)
        (scan-IsOnce cs)

-- ===== src/DataCap/Levels.antt =====
-- At each level desktop/datacap/datacap.go notifies at most once, and only a user known to be free.
use mathlib.Core.List.{append-nil}
use Prim.Native.String.{◌++◌ as append}
use lantern_client.Prelude.{
  ℕ, ◌≡◌, ◌⊎◌, refl, ap, ◌∙◌, String, Bool, true, false, Option, none, some, List, [], ◌∷◌, ◌++◌,
  map, contains, contains-snoc, IsDistinct, IsDistinct-snoc, Bool-cases, inl, inr, ◌==◌,
}
use lantern_client.DataCap.Notify.{
  Quota, Effect, out, heard, shown, Cap, Desktop, is_full, emit, notify_free_user, notify_percent,
  notify_cap_hit, do_full, do_eighty, do_fifty, notify_level, process_quota, process_all, start,
}

-- The campaigns of the notifications shown.
unfoldable pub campaigns : List Effect → List String
campaigns [] = []
campaigns (out q ∷ es) = campaigns es
campaigns (heard l b ∷ es) = campaigns es
campaigns (shown n c ∷ es) = c ∷ campaigns es

campaigns-append : (xs ys : List Effect) → campaigns (xs ++ ys) ≡ campaigns xs ++ campaigns ys
unfolding campaigns
campaigns-append [] ys = refl
campaigns-append (out q ∷ es) ys = campaigns-append es ys
campaigns-append (heard l b ∷ es) ys = campaigns-append es ys
campaigns-append (shown n c ∷ es) ys = ap (λ r. c ∷ r) (campaigns-append es ys)

campaigns-heard : (b : Bool) (ls : List ℕ) → campaigns (map (λ l. heard l b) ls) ≡ []
unfolding campaigns
campaigns-heard b [] = refl
campaigns-heard b (l ∷ ls) = campaigns-heard b ls

-- No campaign was notified twice, and a level whose `sync.Once` has not run was not notified.
pub record IsFresh (s : Cap) : Type 0 where
  pub distinct : IsDistinct (campaigns s.effects)
  pub fifty : s.one_fifty ≡ false → contains "data-cap-50" (campaigns s.effects) ≡ false
  pub eighty : s.one_eighty ≡ false → contains "data-cap-80" (campaigns s.effects) ≡ false
  pub full : s.one_full ≡ false → contains "data-cap-100" (campaigns s.effects) ≡ false

-- A notification, or none, of a campaign that was not shown.
record Adds (c : String) (es : List Effect) : Type 0 where
  none_or_one : (campaigns es ≡ []) ⊎ (campaigns es ≡ c ∷ [])

notify_free_user-Adds :
    (d : Desktop) (title msg c : String) (is_pro : Option Bool)
    → Adds c (notify_free_user d title msg c is_pro)
unfolding notify_free_user campaigns
notify_free_user-Adds d title msg c none = record { none_or_one = inl refl }
notify_free_user-Adds d title msg c (some true) = record { none_or_one = inl refl }
notify_free_user-Adds d title msg c (some false) = record { none_or_one = inr refl }

IsDistinct-after :
    (c : String) (old new : List Effect)
    → Adds c new
    → IsDistinct (campaigns old)
    → contains c (campaigns old) ≡ false
    → IsDistinct (campaigns (old ++ new))
IsDistinct-after c old new h d unseen = elim h.none_or_one [
  | inl e ↦ rw (campaigns-append, e, append-nil) d
  | inr e ↦ rw (campaigns-append, e) (IsDistinct-snoc c (campaigns old) d unseen)
]

unseen_after :
    (c j : String) (old new : List Effect)
    → Adds c new
    → (j == c) ≡ false
    → contains j (campaigns old) ≡ false
    → contains j (campaigns (old ++ new)) ≡ false
unseen_after c j old new h ne unseen = elim h.none_or_one [
  | inl e ↦ rw (campaigns-append, e, append-nil) unseen
  | inr e ↦ rw (campaigns-append, e, contains-snoc, unseen) ne
]

-- What is assumed of `strconv.Itoa`: the texts of the two numbers that are printed.
module _ (d : Desktop) (eighty_text : d.itoa 80 ≡ "80") (fifty_text : d.itoa 50 ≡ "50") where
  notify_eighty-Adds : (is_pro : Option Bool) → Adds "data-cap-80" (notify_percent d 80 is_pro)
  unfolding notify_percent
  notify_eighty-Adds is_pro =
      rw (← ap (append "data-cap-") eighty_text) (notify_free_user-Adds d _ _ _ is_pro)

  notify_fifty-Adds : (is_pro : Option Bool) → Adds "data-cap-50" (notify_percent d 50 is_pro)
  unfolding notify_percent
  notify_fifty-Adds is_pro =
      rw (← ap (append "data-cap-") fifty_text) (notify_free_user-Adds d _ _ _ is_pro)

  notify_cap_hit-Adds : (is_pro : Option Bool) → Adds "data-cap-100" (notify_cap_hit d is_pro)
  unfolding notify_cap_hit
  notify_cap_hit-Adds is_pro = notify_free_user-Adds d _ _ _ is_pro

  do_full-IsFresh :
      (is_pro : Option Bool) (b : Bool) (s : Cap)
      → s.one_full ≡ b
      → IsFresh s
      → IsFresh (do_full d is_pro b s)
  unfolding do_full
  do_full-IsFresh is_pro true s e h = h
  do_full-IsFresh is_pro false s e h =
      let adds = notify_cap_hit-Adds is_pro in
      record {
        distinct = IsDistinct-after "data-cap-100" s.effects _ adds h.distinct (h.full e);
        fifty = λ f. unseen_after "data-cap-100" "data-cap-50" s.effects _ adds refl (h.fifty f);
        eighty = λ f. unseen_after "data-cap-100" "data-cap-80" s.effects _ adds refl (h.eighty f);
        full = λ f. cc;
      }

  do_eighty-IsFresh :
      (is_pro : Option Bool) (b : Bool) (s : Cap)
      → s.one_eighty ≡ b
      → IsFresh s
      → IsFresh (do_eighty d is_pro b s)
  unfolding do_eighty
  do_eighty-IsFresh is_pro true s e h = h
  do_eighty-IsFresh is_pro false s e h =
      let adds = notify_eighty-Adds is_pro in
      record {
        distinct = IsDistinct-after "data-cap-80" s.effects _ adds h.distinct (h.eighty e);
        fifty = λ f. unseen_after "data-cap-80" "data-cap-50" s.effects _ adds refl (h.fifty f);
        eighty = λ f. cc;
        full = λ f. unseen_after "data-cap-80" "data-cap-100" s.effects _ adds refl (h.full f);
      }

  do_fifty-IsFresh :
      (is_pro : Option Bool) (b : Bool) (s : Cap)
      → s.one_fifty ≡ b
      → IsFresh s
      → IsFresh (do_fifty d is_pro b s)
  unfolding do_fifty
  do_fifty-IsFresh is_pro true s e h = h
  do_fifty-IsFresh is_pro false s e h =
      let adds = notify_fifty-Adds is_pro in
      record {
        distinct = IsDistinct-after "data-cap-50" s.effects _ adds h.distinct (h.fifty e);
        fifty = λ f. cc;
        eighty = λ f. unseen_after "data-cap-50" "data-cap-80" s.effects _ adds refl (h.eighty f);
        full = λ f. unseen_after "data-cap-50" "data-cap-100" s.effects _ adds refl (h.full f);
      }

  module _ (ratio_above : ℕ → ℕ → ℕ → Bool) where
    notify_level-IsFresh :
        (q : Quota) (is_pro : Option Bool) (s : Cap)
        → IsFresh s
        → IsFresh (notify_level d ratio_above q is_pro s)
    unfolding notify_level
    notify_level-IsFresh q is_pro s h = elim (Bool-cases (is_full q)) [
      | inl full ↦ rw full (do_full-IsFresh is_pro s.one_full s refl h)
      | inr open_full ↦ elim (Bool-cases (ratio_above q.mib_used q.mib_allowed 80)) [
        | inl eighty ↦ rw (open_full, eighty) (do_eighty-IsFresh is_pro s.one_eighty s refl h)
        | inr below ↦ elim (Bool-cases (ratio_above q.mib_used q.mib_allowed 50)) [
          | inl fifty ↦ rw (open_full, below, fifty) (do_fifty-IsFresh is_pro s.one_fifty s refl h)
          | inr low ↦ rw (open_full, below, low) h
        ]
      ]
    ]

    announced-IsFresh :
        (q : Quota) (s : Cap)
        → IsFresh s
        → IsFresh (emit (out q ∷ map (λ l. heard l (is_full q)) s.listeners) s)
    announced-IsFresh q s h =
        rewritten
          (campaigns-append s.effects _ ∙ ap (λ r. campaigns s.effects ++ r) quiet ∙ append-nil _)
      where
        quiet : campaigns (out q ∷ map (λ l. heard l (is_full q)) s.listeners) ≡ []
        quiet = unfold campaigns in campaigns-heard (is_full q) s.listeners

        rewritten :
            campaigns (s.effects ++ out q ∷ map (λ l. heard l (is_full q)) s.listeners)
              ≡ campaigns s.effects
            → IsFresh (emit (out q ∷ map (λ l. heard l (is_full q)) s.listeners) s)
        rewritten e = record {
          distinct = rw e h.distinct;
          fifty = rw e h.fifty;
          eighty = rw e h.eighty;
          full = rw e h.full;
        }

    process_all-IsFresh :
        (qs : List (Quota × Option Bool)) (s : Cap)
        → IsFresh s
        → IsFresh (process_all d ratio_above qs s)
    unfolding process_all process_quota
    process_all-IsFresh [] s h = h
    process_all-IsFresh ((q, is_pro) ∷ qs) s h =
        process_all-IsFresh qs _ (notify_level-IsFresh q is_pro _ (announced-IsFresh q s h))

    -- From the start, over any updates of the quota, no campaign is notified twice, where the
    -- numbers 80 and 50 are printed as their digits.
    pub campaigns-process_all :
        (listeners : List ℕ) (qs : List (Quota × Option Bool))
        → IsDistinct (campaigns (process_all d ratio_above qs (start listeners)).effects)
    unfolding start
    campaigns-process_all listeners qs =
        (process_all-IsFresh qs (start listeners) (
          unfold campaigns in
          record {
            distinct = tt;
            fifty = λ _. refl;
            eighty = λ _. refl;
            full = λ _. refl;
          })).distinct

-- ===== src/Pro/Exclusion.antt =====
-- One poller at a time, and how the polling ends (`PollUserData` of internalsdk/pro/user.go).
use mathlib.Core.Path.{subst}
use lantern_client.Prelude.{
  some_eq, ℕ, zero, suc, ◌≤◌, ◌≡◌, ◌↔◌, refl, Bool, true, false, Option, none, some, List, [], ◌∷◌,
  ◌>>=◌, arith, Bool-cases, inl, inr, >>=-eq-some,
}
use lantern_client.Pro.User.{User}
use lantern_client.Pro.Poll.{
  user_is_pro, Turn, done, fired, became_pro, poll, Runner, Section, enter, leave, enter_at,
  leave_from, run_section,
}

unfoldable pub run_sections : List Section → Runner → Option Runner
run_sections [] r = some r
run_sections (s ∷ ss) r = run_section s r >>= λ r'. run_sections ss r'

abbrev pub idle : Runner
idle = record { is_running = false; pollers = 0 }

record IsExclusive (r : Runner) : Type 0 where
  at_most_one : r.pollers ≤ 1
  flag : (r.is_running ≡ true) ↔ (r.pollers ≡ 1)

enter_at-IsExclusive :
    (b : Bool) (r : Runner) → r.is_running ≡ b → IsExclusive r → IsExclusive (enter_at b r)
unfolding enter_at
enter_at-IsExclusive true r e h = h
enter_at-IsExclusive false r e h =
    let none_polls : r.pollers ≡ 0 = ground (arith, h.at_most_one, h.flag) in
    record { at_most_one = omega arith; flag = (λ f. omega arith, λ f. refl) }

leave_from-IsExclusive :
    (n : ℕ) (r r' : Runner)
    → r.pollers ≡ n
    → IsExclusive r
    → leave_from n r ≡ some r'
    → IsExclusive r'
unfolding leave_from
leave_from-IsExclusive zero r r' e h f = absurd (cc)
leave_from-IsExclusive (suc n) r r' e h f =
    let last : n ≡ 0 = omega (arith, h.at_most_one) in
    subst IsExclusive (some_eq f)
      (record { at_most_one = omega arith; flag = (λ g. absurd (cc), λ g. absurd (omega arith)) })

run_section-IsExclusive :
    (s : Section) (r r' : Runner) → IsExclusive r → run_section s r ≡ some r' → IsExclusive r'
unfolding run_section
run_section-IsExclusive enter r r' h e =
    subst IsExclusive (some_eq e) (enter_at-IsExclusive r.is_running r refl h)
run_section-IsExclusive leave r r' h e = leave_from-IsExclusive r.pollers r r' refl h e

run_sections-IsExclusive :
    (ss : List Section) (r r' : Runner)
    → IsExclusive r
    → run_sections ss r ≡ some r'
    → IsExclusive r'
unfolding run_sections
run_sections-IsExclusive [] r r' h e = subst IsExclusive (some_eq e) h
run_sections-IsExclusive (s ∷ ss) r r' h e =
    let (r₁, first, rest) = >>=-eq-some (run_section s r) _ e in
    run_sections-IsExclusive ss r₁ r' (run_section-IsExclusive s r r₁ h first) rest

-- In every order of calls and ends of `PollUserData`, at most one call polls, and the flag is up
-- exactly while one does.
pub pollers-run_sections :
    (ss : List Section) (r : Runner)
    → run_sections ss idle ≡ some r
    → (r.pollers ≤ 1) × ((r.is_running ≡ true) ↔ (r.pollers ≡ 1))
pollers-run_sections ss r e =
    let h =
      run_sections-IsExclusive ss idle r
        (record { at_most_one = omega arith; flag = (λ f. absurd (cc), λ f. absurd (omega arith)) })
        e in
    (h.at_most_one, h.flag)

-- A turn fetches a user who is Pro, and no turn before it ends the polling.
pub data ReachesPro : List Turn → Type 0 where
  now :
      {fetched : Option User} {expired : Bool} {wait : Option ℕ} {ts : List Turn}
      → user_is_pro fetched ≡ true
      → ReachesPro (fired fetched expired wait ∷ ts)
  later :
      {fetched : Option User} {expired : Bool} {w : ℕ} {ts : List Turn}
      → user_is_pro fetched ≡ false
      → (fetched ≡ none → expired ≡ false)
      → ReachesPro ts
      → ReachesPro (fired fetched expired (some w) ∷ ts)

poll-ReachesPro : (ts : List Turn) → poll ts ≡ became_pro → ReachesPro ts
unfolding poll
poll-ReachesPro [] h = absurd (cc)
poll-ReachesPro (done ∷ ts) h = absurd (cc)
poll-ReachesPro (fired none true wait ∷ ts) h = absurd (cc)
poll-ReachesPro (fired none false none ∷ ts) h = absurd (cc)
poll-ReachesPro (fired none false (some w) ∷ ts) h =
    later (unfold user_is_pro in refl) (λ e. refl) (poll-ReachesPro ts h)
poll-ReachesPro (fired (some u) expired none ∷ ts) h = now (ground arith)
poll-ReachesPro (fired (some u) expired (some w) ∷ ts) h =
    elim (Bool-cases (user_is_pro (some u))) [
      | inl e ↦ now e
      | inr e ↦ later e (λ f. absurd (cc)) (poll-ReachesPro ts (rw e at h))
    ]

ReachesPro-poll : (ts : List Turn) → ReachesPro ts → poll ts ≡ became_pro
unfolding poll
ReachesPro-poll [] r = elim r [ ]
ReachesPro-poll (done ∷ ts) r = elim r [ ]
ReachesPro-poll (fired none expired wait ∷ ts) (now e) = absurd (unfold user_is_pro in cc)
ReachesPro-poll (fired (some u) expired wait ∷ ts) (now e) = rw e
ReachesPro-poll (fired none expired (some w) ∷ ts) (later e live r) =
    rw (live refl) (ReachesPro-poll ts r)
ReachesPro-poll (fired (some u) expired (some w) ∷ ts) (later e live r) =
    rw e (ReachesPro-poll ts r)

-- The polling ends because the user became Pro if and only if some turn fetches a Pro user before the
-- context or the intervals end.
pub poll-became_pro_iff : (ts : List Turn) → (poll ts ≡ became_pro) ↔ ReachesPro ts
poll-became_pro_iff ts = (poll-ReachesPro ts, ReachesPro-poll ts)

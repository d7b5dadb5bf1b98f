-- ===== src/DataCap/Updates.antt =====
-- What desktop/datacap/datacap.go sends to the UI (`ServeDataCap`). `percent_of u a` stands for
-- `int(100 * (float64(u) / float64(a)))`.
use lantern_client.Prelude.{
  ℕ, ◌-◌, ◌^◌, ◌≤◌, ◌<◌, ◌≡◌, ◌↔◌, refl, false, Option, none, some, ltb, leb, if◌then◌else◌, ℤ, pos,
  negsuc, arith, ◌⊎◌, inl, inr, Bool-cases,
}
use lantern_client.DataCap.Notify.{Quota, is_full}

pub record Update : Type 0 where
  pub percent : ℕ
  pub mib_used : ℤ
  pub mib_allowed : ℤ

-- `int(x)` of an uint64.
unfoldable pub to_int : ℕ → ℤ
to_int n = if ltb n (2 ^ 63) then pos n else negsuc (2 ^ 64 - 1 - n)

-- The message for a value of `bandwidth.Updates`; nil is `none`.
unfoldable pub update_of : (ℕ → ℕ → ℕ) → Option Quota → Update
update_of percent_of none = record { percent = 0; mib_used = pos 0; mib_allowed = pos 0 }
update_of percent_of (some q) = record {
  percent = if leb q.mib_allowed q.mib_used then 100 else percent_of q.mib_used q.mib_allowed;
  mib_used = to_int q.mib_used;
  mib_allowed = to_int q.mib_allowed;
}

-- The hello message: only a client that connects where there is no quota gets one.
unfoldable pub hello : Option Quota → Option Update
hello none = some (record { percent = 0; mib_used = pos 0; mib_allowed = pos 0 })
hello (some q) = none

-- Where the percentage of a quota that is not used up is at most 100, the percentage sent is at
-- most 100, and a quota that is full is sent as 100.
percent_bound :
    (percent_of : ℕ → ℕ → ℕ) (quota : Quota)
    → ((u a : ℕ) → u < a → percent_of u a ≤ 100)
    → ((update_of percent_of (some quota)).percent ≤ 100)
      × (((update_of percent_of (some quota)).percent ≡ 100) ⊎ (is_full quota ≡ false))
unfolding update_of is_full
percent_bound percent_of q h = elim (Bool-cases (leb q.mib_allowed q.mib_used)) [
  | inl e ↦ rw e (omega arith, inl refl)
  | inr e ↦ rw e (ground (arith, h q.mib_used q.mib_allowed), inr (ground arith))
]

-- Of the quotas sent as 100 percent just those are not full that allow nothing and of which nothing is
-- used, where the percentage of a quota that is not used up is below 100.
full_of_percent :
    (percent_of : ℕ → ℕ → ℕ) (quota : Quota)
    → (quota.mib_used < quota.mib_allowed → percent_of quota.mib_used quota.mib_allowed < 100)
    → ((update_of percent_of (some quota)).percent ≡ 100 × (is_full quota ≡ false))
      ↔ ((quota.mib_used ≡ 0) × (quota.mib_allowed ≡ 0))
unfolding update_of is_full
full_of_percent percent_of q h = (λ e. ground (arith, h), λ e. ground (arith, h))

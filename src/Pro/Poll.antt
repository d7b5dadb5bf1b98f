-- ===== src/Pro/Poll.antt =====
-- `PollUserData` of internalsdk/pro/user.go: the guard by which one poller runs at a time, and the loop.
use lantern_client.Prelude.{
  ℕ, zero, suc, Bool, true, false, ◌||◌, Option, none, some, List, [], ◌∷◌, if◌then◌else◌, ◌==◌,
}
use lantern_client.Pro.User.{User}

-- `userIsPro`, at a user that may be nil.
unfoldable pub user_is_pro : Option User → Bool
user_is_pro none = false
user_is_pro (some u) = u.user_level == "pro" || u.user_status == "active"

-- What the `select` sees in one turn: the context is done, or the timer fires. Then `fetched` is what
-- `UpdateUserData` returns (`none` is an error), `expired` whether the context has an error by then,
-- and `wait` the next interval (`none` is `backoff.Stop`).
pub data Turn : Type 0 where
  done : Turn
  fired : (fetched : Option User) (expired : Bool) (wait : Option ℕ) → Turn

pub data Outcome : Type 0 where
  cancelled terminated became_pro exhausted polling : Outcome

wait_or_stop : Option ℕ → Outcome → Outcome
wait_or_stop none rest = exhausted
wait_or_stop (some w) rest = rest

after_fetch : Option User → Bool → Option ℕ → Outcome → Outcome
after_fetch none true wait rest = terminated
after_fetch none false wait rest = wait_or_stop wait rest
after_fetch (some u) expired wait rest =
    if user_is_pro (some u) then became_pro else wait_or_stop wait rest

-- The loop; `polling` is a loop that waits for its next turn.
unfoldable pub poll : List Turn → Outcome
unfolding after_fetch wait_or_stop user_is_pro
poll [] = polling
poll (done ∷ ts) = cancelled
poll (fired fetched expired wait ∷ ts) = after_fetch fetched expired wait (poll ts)

-- The runner that the pollers share, with how many of them are past the guard.
pub record Runner : Type 0 where
  pub is_running : Bool
  pub pollers : ℕ

-- The two critical sections: a call of `PollUserData` that finds a poller returns at once; the deferred
-- function of one that polls ends it.
pub data Section : Type 0 where
  enter leave : Section

unfoldable pub leave_from : ℕ → Runner → Option Runner
leave_from zero r = none
leave_from (suc n) r = some (record r { is_running = false; pollers = n })

unfoldable pub enter_at : Bool → Runner → Runner
enter_at true r = r
enter_at false r = record r { is_running = true; pollers = suc r.pollers }

unfoldable pub run_section : Section → Runner → Option Runner
run_section enter r = some (enter_at r.is_running r)
run_section leave r = leave_from r.pollers r

-- ===== src/Session/Ladders.antt =====
-- The two ladders that decide whether a user is Pro (internalsdk/session_model.go and
-- internalsdk/pro/user.go).
use lantern_client.Prelude.{◌≡◌, Bool, ◌&&◌, ◌||◌, arith, ◌==◌}
use lantern_client.Pro.User.{User, pro_status}
use lantern_client.Session.Account.{cached_status}

-- `cacheUserDetail` makes a user Pro exactly at level pro, whatever the device and the visit are;
-- `UpdateUserData` makes the same user Pro only on a first visit or on a device of the account.
cached_status_lem :
    (u : User) (first_time found : Bool)
    → (cached_status u first_time found ≡ (u.user_level == "pro"))
      × (pro_status u first_time found
          ≡ (cached_status u first_time found && (first_time || found)))
unfolding cached_status pro_status
cached_status_lem u first_time found = (ground arith, ground arith)

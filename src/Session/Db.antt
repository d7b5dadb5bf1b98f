-- ===== src/Session/Db.antt =====
-- The path database under the session of internalsdk/session_model.go, and the session's setters. A
-- transaction (`pathdb.Mutate`) writes all its values or, where the next of `faults` is true, fails and
-- writes none. A read of a path that is missing gives the zero value, which is also what the code
-- goes on with where a read fails.
use lantern_client.Prelude.{
  String, Bool, true, false, Option, some, List, [], ◌∷◌, ℕ, zero, ℤ, pos, Dict, lookup, insert_all,
}
use lantern_client.Pro.Plans.{PaymentMethod}
use lantern_client.Pro.User.{Device}

pub record Bandwidth : Type 0 where
  pub percent : ℤ
  pub mib_used : ℤ
  pub mib_allowed : ℤ
  pub ttl_seconds : ℤ

pub record ServerInfo : Type 0 where
  pub city : String
  pub country : String
  pub country_code : String

pub record AppData : Type 0 where
  pub package_name : String
  pub name : String
  pub icon : List ℕ
  pub allowed_access : Bool

-- The values that are stored; `int` is Go's int, which is not read as an int64, and a plan is named by its
-- id.
pub data DbValue : Type 0 where
  nil : DbValue
  bool : Bool → DbValue
  int int64 : ℤ → DbValue
  text : String → DbValue
  bytes : List ℕ → DbValue
  devices : List Device → DbValue
  bandwidth : Bandwidth → DbValue
  server_info : ServerInfo → DbValue
  app : AppData → DbValue
  plan : String → DbValue
  payment_method : PaymentMethod → DbValue

pub record Db : Type 0 where
  pub m : Dict DbValue
  pub faults : List Bool

-- Writes may fail, reads do not: the errors that callers return where a read fails are left out. A read of
-- a path that is missing gives the zero value.
--
-- A call on the database; the flag says that it returned no error.
abbrev pub Call : Type 0
Call = Db → Bool × Db

abbrev pub write_at : List Bool → Dict DbValue → Db → Bool × Db
write_at [] values db = (true, record db { m = insert_all values db.m })
write_at (false ∷ fs) values db = (true, record { m = insert_all values db.m; faults = fs })
write_at (true ∷ fs) values db = (false, record db { faults = fs })

unfoldable pub mutate : Dict DbValue → Call
mutate values db = write_at db.faults values db

abbrev pub succeed : Call
succeed db = (true, db)

abbrev pub fail : Call
fail db = (false, db)

abbrev pub continue : Bool × Db → Call → Bool × Db
continue (true, db) q = q db
continue (false, db) q = (false, db)

-- `if err := p(); err != nil { return err }; q()`
infixl 3 ◌then_◌
abbrev pub ◌then_◌ : Call → Call → Call
(p then_ q) db = continue (p db) q

-- The error is dropped or only logged.
abbrev pub ignore : Call → Call
ignore p db = (true, (p db).1)

unfoldable pub as_bool : Option DbValue → Bool
as_bool (some (bool b)) = b
as_bool _ = false

unfoldable pub get_bool : String → Db → Bool
unfolding as_bool
get_bool path db = as_bool (lookup path db.m)

unfoldable pub as_text : Option DbValue → String
as_text (some (text t)) = t
as_text _ = ""

unfoldable pub get_text : String → Db → String
unfolding as_text
get_text path db = as_text (lookup path db.m)

unfoldable pub as_int64 : Option DbValue → ℤ
as_int64 (some (int64 i)) = i
as_int64 _ = pos 0

unfoldable pub get_int64 : String → Db → ℤ
unfolding as_int64
get_int64 path db = as_int64 (lookup path db.m)

unfoldable pub as_bytes : Option DbValue → List ℕ
as_bytes (some (bytes bs)) = bs
as_bytes _ = []

unfoldable pub get_bytes : String → Db → List ℕ
unfolding as_bytes
get_bytes path db = as_bytes (lookup path db.m)

unfoldable pub set_email : String → Call
set_email email = mutate (("emailAddress", text email) ∷ [])

unfoldable pub set_referral_code : String → Call
set_referral_code code = mutate (("referral", text code) ∷ [])

unfoldable pub set_user_level : String → Call
set_user_level level = mutate (("userLevel", text level) ∷ [])

-- `format` stands for the date of a number of seconds since 1970.
unfoldable pub set_expiration : (ℤ → String) → ℤ → Call
set_expiration format (pos zero) = succeed
set_expiration format expiration =
    mutate (("expirydatestr", text (format expiration)) ∷ ("expirydate", int64 expiration) ∷ [])

unfoldable pub set_pro_user : Bool → Call
set_pro_user is_pro = mutate (("prouser", bool is_pro) ∷ [])

unfoldable pub set_devices : List Device → Call
set_devices [] = succeed
set_devices (d ∷ ds) = ignore (mutate (("devices", devices (d ∷ ds)) ∷ []))

unfoldable pub set_user_id_and_token : ℤ → String → Call
set_user_id_and_token id token = mutate (("userid", int64 id) ∷ ("token", text token) ∷ [])

unfoldable pub save_user_salt : List ℕ → Call
save_user_salt salt = mutate (("user_salt", bytes salt) ∷ [])

unfoldable pub set_logged_in : Bool → Call
set_logged_in b = mutate (("IsUserLoggedIn", bool b) ∷ [])

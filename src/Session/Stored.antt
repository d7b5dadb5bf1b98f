-- ===== src/Session/Stored.antt =====
-- What the setters of internalsdk/session_model.go store is what its readers read.
use lantern_client.Prelude.{
  ◌≡◌, refl, ◌∙◌, String, Bool, true, false, Option, some, List, [], ◌∷◌, lookup, insert,
  insert_all, lookup-insert, eq_refl, if◌then◌else◌, ◌==◌,
}
use lantern_client.Session.Db.{
  Db, Call, DbValue, bool, text, mutate, get_bool, get_text, set_email, set_pro_user,
  set_user_level, write_at, as_text, as_bool,
}
use lantern_client.Session.Values.{
  set_split_tunneling, split_tunneling_enabled, set_ip, ip_address, set_language, locale,
  set_force_country, get_forced_country_code, set_dns_server, get_dns_server, set_provider,
  provider, set_device_id, get_device_id, set_session_referral_code, code, set_replica_addr,
  get_replica_addr, set_chat_enabled, chat_enable, set_store_version, is_store_version, email,
  is_pro_user, user_level,
}

unfoldable pub first_fails : List Bool → Bool
first_fails [] = false
first_fails (b ∷ bs) = b

-- Whether the next transaction fails.
unfoldable pub will_fail : Db → Bool
unfolding first_fails
will_fail db = first_fails db.faults

map_after :
    (faults : List Bool) (path : String) (v : DbValue) (db : Db) (j : String)
    → lookup j (write_at faults ((path, v) ∷ []) db).1.m
      ≡ (if first_fails faults then lookup j db.m else if path == j then some v else lookup j db.m)
unfolding insert_all insert first_fails
map_after [] path v db j = lookup-insert path j v db.m
map_after (false ∷ bs) path v db j = lookup-insert path j v db.m
map_after (true ∷ bs) path v db j = refl

pub mutate-map :
    (path : String) (v : DbValue) (db : Db) (j : String)
    → lookup j (mutate ((path, v) ∷ []) db).1.m
      ≡ (if will_fail db then lookup j db.m else if path == j then some v else lookup j db.m)
unfolding mutate will_fail
mutate-map path v db j = map_after db.faults path v db j

-- A reader gives what its setter stored, unless the transaction failed, in which case it gives what it
-- gave before; every other path keeps its value.
unfoldable pub IsReadBack : {A : Type 0} → (A → Call) → (Db → A) → String → Type 0
IsReadBack {A} set get path =
    (a : A) (db : Db)
    → (get (set a db).1 ≡ (if will_fail db then get db else a))
      × ((j : String) → (path == j) ≡ false → lookup j (set a db).1.m ≡ lookup j db.m)

same_if : {A : Type 0} (b : Bool) (x : A) → (if b then x else x) ≡ x
same_if true x = refl
same_if false x = refl

pub others :
    (path : String) (v : DbValue) (db : Db) (j : String)
    → (path == j) ≡ false
    → lookup j (mutate ((path, v) ∷ []) db).1.m ≡ lookup j db.m
others path v db j other =
    mutate-map path v db j ∙ rw (other) (same_if (will_fail db) (lookup j db.m))

if_in :
    {A B : Type 0} (f : A → B) (b : Bool) (x y : A)
    → f (if b then x else y) ≡ (if b then f x else f y)
if_in f true x y = refl
if_in f false x y = refl

stored :
    {A : Type 0} (read : Option DbValue → A) (path : String) (v : DbValue) (db : Db)
    → read (lookup path (mutate ((path, v) ∷ []) db).1.m)
      ≡ (if will_fail db then read (lookup path db.m) else read (some v))
stored read path v db =
    rw (mutate-map path v db path, eq_refl path)
      (if_in read (will_fail db) (lookup path db.m) (some v))

pub text_stored :
    (path : String) → IsReadBack (λ t. mutate ((path, text t) ∷ [])) (get_text path) path
unfolding IsReadBack get_text
text_stored path t db = (stored as_text path (text t) db, others path (text t) db)

bool_stored : (path : String) → IsReadBack (λ b. mutate ((path, bool b) ∷ [])) (get_bool path) path
unfolding IsReadBack get_bool
bool_stored path b db = (stored as_bool path (bool b) db, others path (bool b) db)

-- Each setter of one value stores it where its reader finds it, and touches nothing else; where the
-- transaction fails the reader gives what it gave before.
pub values_lem :
    IsReadBack set_split_tunneling split_tunneling_enabled "/splitTunneling"
    × IsReadBack set_ip ip_address "ip_address"
    × IsReadBack set_language locale "lang"
    × IsReadBack set_force_country get_forced_country_code "forceCountry"
    × IsReadBack set_dns_server get_dns_server "dns_detector"
    × IsReadBack set_provider provider "provider"
    × IsReadBack set_device_id get_device_id "deviceid"
    × IsReadBack set_session_referral_code code "referral"
    × IsReadBack set_replica_addr get_replica_addr "replicaAddr"
    × IsReadBack set_chat_enabled chat_enable "chatEnabled"
    × IsReadBack set_store_version is_store_version "storeVersion"
    × IsReadBack set_email email "emailAddress"
    × IsReadBack set_pro_user is_pro_user "prouser"
    × IsReadBack set_user_level user_level "userLevel"
unfolding set_split_tunneling split_tunneling_enabled set_ip ip_address set_language locale
    set_force_country get_forced_country_code set_dns_server get_dns_server set_provider provider
    set_device_id get_device_id set_session_referral_code code set_replica_addr get_replica_addr
    set_chat_enabled chat_enable set_store_version is_store_version set_email email set_pro_user
    is_pro_user set_user_level user_level IsReadBack
values_lem = (
  bool_stored "/splitTunneling",
  text_stored "ip_address",
  text_stored "lang",
  text_stored "forceCountry",
  text_stored "dns_detector",
  text_stored "provider",
  text_stored "deviceid",
  text_stored "referral",
  text_stored "replicaAddr",
  bool_stored "chatEnabled",
  bool_stored "storeVersion",
  text_stored "emailAddress",
  bool_stored "prouser",
  text_stored "userLevel",
)

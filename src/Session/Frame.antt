-- ===== src/Session/Frame.antt =====
-- Which operations of internalsdk/session_model.go leave the identity (user id and token) alone.
use Prim.Native.String.{◌++◌ as append}
use Prim.Native.String.append
use Prim.Native.Char.{Char, code}
use lantern_client.Prelude.{
  ◌≡◌, refl, sym, ap, eqb, ◌∙◌, ℕ, String, Bool, true, false, Option, [], ◌∷◌, Dict, lookup,
  last_write, Bool-cases, inl, inr, if◌then◌else◌, ◌==◌, eq_iff,
}
use lantern_client.Session.Db.{Db, Call, DbValue, mutate, ◌then_◌}
use lantern_client.Session.Identity.{mutate-Leaves, then-Leaves}

abbrev pub Same : Db → Bool × Db → Type 0
Same db o =
    (lookup "userid" o.1.m ≡ lookup "userid" db.m) × (lookup "token" o.1.m ≡ lookup "token" db.m)

-- The call leaves the identity alone.
abbrev pub Keeps : Call → Type 0
Keeps p = (db : Db) → Same db (p db)

pub mutate-Keeps :
    (values : Dict DbValue)
    → ((o : Option DbValue) → last_write "userid" values o ≡ o)
    → ((o : Option DbValue) → last_write "token" values o ≡ o)
    → Keeps (mutate values)
mutate-Keeps values id token db =
    (mutate-Leaves "userid" values id db, mutate-Leaves "token" values token db)

-- A value at a path that is none of the two.
pub put-Keeps :
    (path : String) (v : DbValue)
    → (path == "userid") ≡ false
    → (path == "token") ≡ false
    → Keeps (mutate ((path, v) ∷ []))
unfolding last_write
put-Keeps path v id token = mutate-Keeps ((path, v) ∷ []) (λ o. rw (id) refl) (λ o. rw (token) refl)

pub then-Keeps : (p q : Call) → Keeps p → Keeps q → Keeps (p then_ q)
then-Keeps p q kp kq db = (
  then-Leaves "userid" p q (λ d. (kp d).0) (λ d. (kq d).0) db,
  then-Leaves "token" p q (λ d. (kp d).1) (λ d. (kq d).1) db,
)

pub if-Same :
    (b : Bool) (db : Db) (x y : Bool × Db) → Same db x → Same db y → Same db (if b then x else y)
if-Same true db x y sx sy = sx
if-Same false db x y sx sy = sy

head_code : String → ℕ
head_code String.[] = 0
head_code (String.◌∷◌ c s) = code c

-- A path with a slash in front is not a name that begins with another character.
slash-ne :
    (c : Char) (p s name : String)
    → code c ≡ 47
    → eqb (head_code name) 47 ≡ false
    → (append (String.◌∷◌ c p) s == name) ≡ false
unfolding head_code
slash-ne c p s name slash other = elim (Bool-cases (append (String.◌∷◌ c p) s == name)) [
  | inr e ↦ e
  | inl e ↦
      let same : append (String.◌∷◌ c p) s ≡ name = (eq_iff (append (String.◌∷◌ c p) s) name).0 e in
      let head : head_code name ≡ 47 = ap head_code (sym same ∙ append.cons c p s) ∙ slash in
      let wrong : true ≡ false = rw (head) at other in absurd (cc)
]

pub apps_path-ne :
    (s : String)
    → ((append "/appsData/" s == "userid") ≡ false) × ((append "/appsData/" s == "token") ≡ false)
unfolding head_code
apps_path-ne s =
    (slash-ne "/" "appsData/" s "userid" refl refl, slash-ne "/" "appsData/" s "token" refl refl)

pub plans_path-ne :
    (s : String)
    → ((append "/plans/" s == "userid") ≡ false) × ((append "/plans/" s == "token") ≡ false)
unfolding head_code
plans_path-ne s =
    (slash-ne "/" "plans/" s "userid" refl refl, slash-ne "/" "plans/" s "token" refl refl)

pub methods_path-ne :
    (s : String)
    → ((append "/paymentMethods/" s == "userid") ≡ false)
      × ((append "/paymentMethods/" s == "token") ≡ false)
unfolding head_code
methods_path-ne s = (
  slash-ne "/" "paymentMethods/" s "userid" refl refl,
  slash-ne "/" "paymentMethods/" s "token" refl refl,
)

pub if-Keeps : (b : Bool) (p q : Call) → Keeps p → Keeps q → Keeps (if b then p else q)
if-Keeps true p q kp kq = kp
if-Keeps false p q kp kq = kq

-- ===== src/Settings/Value.antt =====
-- The dynamic values (`interface{}`) that desktop/app/settings.go stores, and `json.Number`.
use lantern_client.Prelude.{
  ℕ, suc, zero, ◌+◌, ◌-◌, ◌*◌, ◌^◌, String, Bool, ◌&&◌, Option, none, some, List, [], ◌∷◌, Dict, ℤ,
  pos, negsuc, codes, leb, ltb, eqb, if◌then◌else◌, ◌>>=◌, ◌≡◌, refl,
}

mutual
  -- Go's `interface{}`; `other` is a value of any type that the settings never test for.
  pub data Value : Type 0 where
    nil : Value
    bool : Bool → Value
    int : ℤ → Value
    int64 : ℤ → Value
    number : String → Value
    string : String → Value
    bytes : List ℕ → Value
    strings : List String → Value
    array : Items → Value
    object : Fields → Value
    other : String → Value

  pub data Items : Type 0 where
    done : Items
    item : Value → Items → Items

  pub data Fields : Type 0 where
    end : Fields
    field : String → Value → Fields → Fields

-- The entries of a `map[string]interface{}`, in the order in which `range` visits them.
unfoldable pub entries : Fields → Dict Value
entries end = []
entries (field k v fs) = (k, v) ∷ entries fs

-- `fmt.Sprintf("%v", x)` of each item, in order.
unfoldable pub sprint_all : (Value → String) → Items → List String
sprint_all sprint done = []
sprint_all sprint (item v vs) = sprint v ∷ sprint_all sprint vs

digits : ℕ → List ℕ → Option ℕ
digits n [] = some n
digits n (c ∷ cs) = if leb 48 c && leb c 57 then digits (n * 10 + (c - 48)) cs else none

parse_uint : List ℕ → Option ℕ
parse_uint [] = none
parse_uint (c ∷ cs) = digits 0 (c ∷ cs)

negate : ℕ → ℤ
negate zero = pos zero
negate (suc n) = negsuc n

parse_negative : List ℕ → Option ℤ
parse_negative cs = parse_uint cs >>= λ n. if ltb (2 ^ 63) n then none else some (negate n)

parse_positive : List ℕ → Option ℤ
parse_positive cs = parse_uint cs >>= λ n. if leb (2 ^ 63) n then none else some (pos n)

parse_signed : List ℕ → Option ℤ
parse_signed [] = none
parse_signed (c ∷ cs) =
    if eqb c b'-'
    then parse_negative cs
    else if eqb c b'+'
    then parse_positive cs
    else parse_positive (c ∷ cs)

-- `json.Number.Int64`, which is `strconv.ParseInt(s, 10, 64)`.
unfoldable pub parse_int64 : String → Option ℤ
unfolding parse_signed parse_negative parse_positive parse_uint digits negate
parse_int64 s = parse_signed (codes s)

parse_int64_test : parse_int64 "-120" ≡ some (negsuc 119)
unfolding parse_int64
parse_int64_test = refl

parse_int64_overflow_test : parse_int64 "9223372036854775808" ≡ none
unfolding parse_int64
parse_int64_overflow_test = refl

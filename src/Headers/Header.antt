-- ===== src/Headers/Header.antt =====
-- `http.Header`. `canon` stands for `textproto.CanonicalMIMEHeaderKey`.
use lantern_client.Prelude.{
  ◌≡◌, String, true, false, Option, none, some, List, [], ◌∷◌, ◌++◌, Dict, lookup, insert,
  lookup-insert, ◌==◌,
}

abbrev pub Header : Type 0
Header = Dict (List String)

abbrev pub or_empty : Option (List String) → List String
or_empty none = []
or_empty (some vs) = vs

abbrev first : List String → String
first [] = ""
first (v ∷ vs) = v

module _ (canon : String → String) where
  unfoldable pub set : String → String → Header → Header
  set k v h = insert (canon k) (v ∷ []) h

  unfoldable pub add : String → String → Header → Header
  add k v h = insert (canon k) (or_empty (lookup (canon k) h) ++ v ∷ []) h

  -- The first value, or the empty text.
  unfoldable pub get : String → Header → String
  get k h = first (or_empty (lookup (canon k) h))

  pub get-set_self :
      (k v : String) (h : Header) → (canon k == canon k) ≡ true → get k (set k v h) ≡ v
  unfolding get set
  get-set_self k v h e = rw (lookup-insert, e)

  pub get-set_ne :
      (k j v : String) (h : Header) → (canon k == canon j) ≡ false → get j (set k v h) ≡ get j h
  unfolding get set
  get-set_ne k j v h e = rw (lookup-insert, e)

  pub get-add_ne :
      (k j v : String) (h : Header) → (canon k == canon j) ≡ false → get j (add k v h) ≡ get j h
  unfolding get add
  get-add_ne k j v h e = rw (lookup-insert, e)

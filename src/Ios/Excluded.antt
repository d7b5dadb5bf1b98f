-- ===== src/Ios/Excluded.antt =====
-- The addresses that internalsdk/ios/config.go excludes from the VPN are the comma-separated list of the
-- hosts of the proxies and of the masquerades.
use text.Mathlib.TextLemmas.{append_assoc as text_assoc}
use Prim.Native.String.{◌++◌ as append}
use Prim.Native.String.append
use Prim.Native.Char.{Char}
use mathlib.Core.List.{reverse, reverse-cons, append-nil, append_assoc}
use lantern_client.Prelude.{
  ◌≡◌, refl, sym, ap, ◌∙◌, String, false, List, [], ◌∷◌, ◌++◌, Dict, Bool-cases, inl, inr,
  if◌then◌else◌, ◌==◌, eq_iff,
}
use lantern_client.Ios.Config.{Proxy, Global}
use lantern_client.Ios.Configure.{
  comma, add_masquerades, add_providers, add_host, add_proxies, excluded_ips,
}

-- The texts with commas between them.
unfoldable pub join : List String → String
join [] = ""
join (x ∷ []) = x
join (x ∷ y ∷ ys) = comma x (join (y ∷ ys))

abbrev pub masquerades : List (List String) → List String
masquerades [] = []
masquerades (ms ∷ ps) = ms ++ masquerades ps

abbrev pub host_list : (String → String) → String → List String
host_list host_of addr = if addr == "" then [] else host_of addr ∷ []

-- What the text lists of the masquerades: those from the first that is not empty on, and an empty
-- text where there is none.
abbrev pub listed : List String → List String
listed [] = "" ∷ []
listed (m ∷ ms) = if m == "" then listed ms else m ∷ ms

-- The hosts of the proxies in the order of the loop.
abbrev pub hosts : (String → String) → Dict Proxy → List String
hosts host_of [] = []
hosts host_of ((name, p) ∷ ps) =
    (host_list host_of p.addr ++ host_list host_of p.multiplexed_addr) ++ hosts host_of ps

cons_empty : (c : Char) (s : String) → String.◌∷◌ c s ≡ "" → ⊥
cons_empty c s e = cc

append-ne : (s u : String) → (s == "") ≡ false → (append s u == "") ≡ false
append-ne String.[] u h = absurd (cc)
append-ne (String.◌∷◌ c s) u h = elim (Bool-cases (append (String.◌∷◌ c s) u == "")) [
  | inl e ↦ absurd (
      cons_empty c (append s u)
        (sym (append.cons c s u) ∙ (eq_iff (append (String.◌∷◌ c s) u) "").0 e))
  | inr f ↦ f
]

join-snoc :
    (x : String) (l : List String) (y : String) → join ((x ∷ l) ++ y ∷ []) ≡ comma (join (x ∷ l)) y
unfolding join
join-snoc x [] y = refl
join-snoc x (z ∷ l) y = rw (join-snoc z l y) simp (text_assoc)

join-ne : (x : String) (l : List String) → (x == "") ≡ false → (join (x ∷ l) == "") ≡ false
unfolding join
join-ne x [] h = h
join-ne x (y ∷ l) h = append-ne x (append "," (join (y ∷ l))) h

masquerades_listed :
    (x : String) (l ips : List String)
    → (x == "") ≡ false
    → add_masquerades (join (x ∷ l)) ips ≡ join ((x ∷ l) ++ ips)
unfolding add_masquerades
masquerades_listed x l [] h = rw (append-nil l) refl
masquerades_listed x l (ip ∷ ips) h =
    rw
      (
        join-ne x l h,
        ← join-snoc x l ip,
        masquerades_listed x (l ++ ip ∷ []) ips h,
        append_assoc l (ip ∷ []) ips,
      )
      refl

providers_listed :
    (x : String) (l : List String) (ps : List (List String))
    → (x == "") ≡ false
    → add_providers (join (x ∷ l)) ps ≡ join ((x ∷ l) ++ masquerades ps)
unfolding add_providers
providers_listed x l [] h = rw (append-nil l) refl
providers_listed x l (ms ∷ ps) h =
    rw
      (
        masquerades_listed x l ms h,
        providers_listed x (l ++ ms) ps h,
        append_assoc l ms (masquerades ps),
      )
      refl

masquerades_then :
    (ms : List String) (ps : List (List String))
    → add_providers "" ps ≡ join (listed (masquerades ps))
    → add_providers (add_masquerades "" ms) ps ≡ join (listed (ms ++ masquerades ps))
unfolding add_masquerades add_providers join
masquerades_then [] ps rest = rest
masquerades_then (m ∷ ms) ps rest = elim (Bool-cases (m == "")) [
  | inl e ↦ rw ((eq_iff m "").0 e) (masquerades_then ms ps rest)
  | inr e ↦ rw (e, masquerades_listed m [] ms e) (providers_listed m ms ps e)
]

-- The loops begin with an empty text.
providers_listed_from_empty :
    (ps : List (List String)) → add_providers "" ps ≡ join (listed (masquerades ps))
unfolding add_providers join
providers_listed_from_empty [] = refl
providers_listed_from_empty (ms ∷ ps) = masquerades_then ms ps (providers_listed_from_empty ps)

add_hosts : String → List String → String
add_hosts s [] = s
add_hosts s (h ∷ hs) = add_hosts (comma h s) hs

add_hosts-append :
    (s : String) (as' bs : List String) → add_hosts s (as' ++ bs) ≡ add_hosts (add_hosts s as') bs
unfolding add_hosts
add_hosts-append s [] bs = refl
add_hosts-append s (a ∷ as') bs = add_hosts-append (comma a s) as' bs

add_hosts-join :
    (x : String) (l hs : List String) → add_hosts (join (x ∷ l)) hs ≡ join (reverse hs ++ x ∷ l)
unfolding add_hosts join
add_hosts-join x l [] = refl
add_hosts-join x l (h ∷ hs) =
    add_hosts-join h (x ∷ l) hs
    ∙ ap join (
        sym (append_assoc (reverse hs) (h ∷ []) (x ∷ l))
        ∙ ap (λ r. r ++ x ∷ l) (sym (reverse-cons h hs)))

add_host_lem :
    (host_of : String → String) (s addr : String)
    → add_host host_of s addr ≡ add_hosts s (host_list host_of addr)
unfolding add_hosts
add_host_lem host_of s addr = elim (Bool-cases (addr == "")) [
  | inl e ↦ rw (e) refl
  | inr e ↦ rw (e) refl
]

add_proxies_lem :
    (host_of : String → String) (s : String) (ps : Dict Proxy)
    → add_proxies host_of s ps ≡ add_hosts s (hosts host_of ps)
unfolding add_proxies add_hosts
add_proxies_lem host_of s [] = refl
add_proxies_lem host_of s ((name, p) ∷ ps) =
    let first = host_list host_of p.addr in
    let second = host_list host_of p.multiplexed_addr in
    add_proxies_lem host_of (add_host host_of (add_host host_of s p.addr) p.multiplexed_addr) ps
    ∙ ap (λ t. add_hosts t (hosts host_of ps))
        (add_host_lem host_of (add_host host_of s p.addr) p.multiplexed_addr
          ∙ ap (λ t. add_hosts t second) (add_host_lem host_of s p.addr)
          ∙ sym (add_hosts-append s first second))
    ∙ sym (add_hosts-append s (first ++ second) (hosts host_of ps))

listed_cons : (ms : List String) → (x : String) × (l : List String) × (listed ms ≡ x ∷ l)
listed_cons [] = ("", [], refl)
listed_cons (m ∷ ms) = elim (Bool-cases (m == "")) [
  | inl e ↦ let (x, l, same) = listed_cons ms in (x, l, rw e same)
  | inr e ↦ (m, ms, rw e refl)
]

-- The text of the excluded addresses is the list of the hosts of the proxies that have an address, the
-- last first, and then of all masquerades from the first that is not empty on, in their order, with a
-- comma between two. Where no masquerade has an address an empty text stands in their place, so
-- that the text ends with a comma if there is a host.
pub excluded_ips_lem :
    (host_of : String → String) (global : Global) (proxies : Dict Proxy)
    → excluded_ips host_of global proxies
      ≡ join (reverse (hosts host_of proxies) ++ listed (masquerades global.providers))
unfolding excluded_ips
excluded_ips_lem host_of global proxies =
    let (x, l, e) = listed_cons (masquerades global.providers) in
    rw
      (
        providers_listed_from_empty global.providers,
        e,
        add_proxies_lem host_of (join (x ∷ l)) proxies,
        add_hosts-join x l (hosts host_of proxies),
      )
      refl

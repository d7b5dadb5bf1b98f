-- ===== src/Tunnel/Steps.antt =====
-- How a step of the UDP handler is taken apart in proofs.
use lantern_client.Prelude.{
  ◌≡◌, refl, ℕ, ◌+◌, String, Bool, true, false, ◌&&◌, Option, none, some, [], ◌∷◌, ◌++◌, ◌==◌,
  if◌then◌else◌, get_elem?, ◌>>=◌, Option-cases, IfSome, inl, inr,
}
use lantern_client.Tunnel.Udp.{Flow, Udp, Target, new_flow, begin}

-- What `f` does with the flow that an event is about.
pub at_flow :
    (P : Udp → Type 0) (n : ℕ) (f : Flow → Udp → Option Udp) (s : Udp)
    → ((x : Flow) → get_elem? s.flows n ≡ some x → IfSome P (f x s))
    → IfSome P (get_elem? s.flows n >>= λ x. f x s)
at_flow P n f s each = elim (Option-cases (get_elem? s.flows n)) [
  | inl e ↦ rw e tt
  | inr (x, e) ↦ rw e (each x e)
]

-- A branch that is taken or cannot be.
pub guarded :
    (P : Udp → Type 0) (b : Bool) (s : Udp)
    → (b ≡ true → P s)
    → IfSome P (if b then some s else none)
guarded P true s h = h refl
guarded P false s h = tt

pub unguarded :
    (P : Udp → Type 0) (b : Bool) (s : Udp)
    → (b ≡ false → P s)
    → IfSome P (if b then none else some s)
unguarded P true s h = tt
unguarded P false s h = h refl

chosen : (P : Udp → Type 0) (b : Bool) (s t : Udp) → P s → P t → P (if b then s else t)
chosen P true s t h k = h
chosen P false s t h k = k

-- `begin` changes nothing, or adds a flow that is dialed.
pub begin_lem :
    (P : Udp → Type 0) (host : String) (d : ℕ) (t : Target) (s : Udp)
    → P s
    → P (record s { dialing_conns = s.dialing_conns + 1; flows = s.flows ++ new_flow d ∷ [] })
    → P (begin host d t s)
unfolding begin
begin_lem P host d t s same more =
    chosen P (t.ip == host && t.is_dns_port) s _ same
      (chosen P (t.known && t.resolved) _ s more same)

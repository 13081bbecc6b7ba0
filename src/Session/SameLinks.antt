-- ===== src/Session/SameLinks.antt =====
-- gdiroh/src/session.rs: what changes membership and not the links, and what `lost` starts from.
use gdiroh.Prelude.{ℕ, ◌≡◌, refl, List, [], ◌∷◌, arith, nat_eq, remove, Assoc}
use gdiroh.Wire.{Control, peer_joined, peer_left}
use gdiroh.Session.{ready, Link, State, emit, announce, forget, host_id}
use gdiroh.Session.Members.{announce_all, apply}
use gdiroh.Session.Run.{close_all}

-- Announcing touches neither the links nor the shared map.
abbrev pub SameLinks : State → State → Type 0
SameLinks s t = (t.links ≡ s.links) × (t.connections ≡ s.connections)

pub SameLinks-announce : (p : ℕ) (s : State) → SameLinks s (announce p s)
unfolding announce
SameLinks-announce p s = ground arith

pub SameLinks-forget : (p : ℕ) (s : State) → SameLinks s (forget p s)
unfolding forget
SameLinks-forget p s = ground arith

pub SameLinks-announce_all : (ps : List ℕ) (s : State) → SameLinks s (announce_all ps s)
unfolding announce_all
SameLinks-announce_all [] s = (refl, refl)
SameLinks-announce_all (p ∷ ps) s =
    let (l, c) = SameLinks-announce p s in
    let (l', c') = SameLinks-announce_all ps (announce p s) in (cc (l, l'), cc (c, c'))

pub SameLinks-apply : (c : Control) (s : State) → SameLinks s (apply c s)
unfolding apply emit
SameLinks-apply (Control.welcome id ps) s =
    let (l, c) = SameLinks-announce host_id (emit (ready id) s) in
    let (l', c') = SameLinks-announce_all ps (announce host_id (emit (ready id) s)) in
    (cc (l, l'), cc (c, c'))
SameLinks-apply (peer_joined id) s = SameLinks-announce id s
SameLinks-apply (peer_left id) s = SameLinks-forget id s

pub links-close_all : (ls : Assoc ℕ Link) (s : State) → (close_all ls s).links ≡ s.links
unfolding close_all
links-close_all [] s = refl
links-close_all ((p, l) ∷ ls) s = links-close_all ls _

-- The state that `lost` goes on with.
abbrev pub without : ℕ → State → State
without p s = record s { links = remove p s.links; connections = remove p s.connections }

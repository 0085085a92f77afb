-- ===== src/Netlink/Dump.antt =====
-- The dump of the peers over several messages.
use ovpn_dco.Base.{
  ℕ, zero, suc, ◌+◌, ◌≤◌, ◌≡◌, refl, sym, ap, ◌∙◌, ◌⊎◌, inl, inr, arith, List, [], ◌∷◌, ◌++◌,
  length, drop, length-append,
}
use ovpn_dco.Peer.{Ovpn}
use ovpn_dco.Netlink.Peers.{dump_loop, dump_peers, all_peers}

-- the messages of a dump from an index on, one after the other, each with room for so many peers
unfoldable pub dump_run : Ovpn → ℕ → List ℕ → List ℕ
unfolding dump_peers
dump_run o last_idx [] = []
dump_run o last_idx (room ∷ rooms) =
    let (dumped, last_idx') = dump_peers o last_idx room in dumped ++ dump_run o last_idx' rooms

-- every message has room for one peer at least
abbrev pub HaveRoom : List ℕ → Type 0
HaveRoom [] = Unit {0}
HaveRoom (room ∷ rooms) = (1 ≤ room) × HaveRoom rooms

drop_empty : (n : ℕ) → drop {A = ℕ} n [] ≡ []
drop_empty zero = refl
drop_empty (suc n) = refl

pub dump_loop-drop :
    (idx room : ℕ) (ps : List ℕ)
    → dump_loop idx room ps ++ drop (idx + length (dump_loop idx room ps)) ps ≡ drop idx ps
unfolding dump_loop
dump_loop-drop zero room [] = refl
dump_loop-drop (suc idx) room [] = drop_empty (suc idx + 0)
dump_loop-drop (suc idx) room (p ∷ ps) =
    let n = length (dump_loop idx room ps) in
    let next : suc idx + n ≡ suc (idx + n) = omega arith in rw next (dump_loop-drop idx room ps)
dump_loop-drop zero zero (p ∷ ps) = refl
dump_loop-drop zero (suc room) (p ∷ ps) =
    let next : 0 + suc (length (dump_loop 0 room ps)) ≡ suc (0 + length (dump_loop 0 room ps)) =
      omega arith in
    rw next (ap (λ xs. p ∷ xs) (dump_loop-drop zero room ps))

-- a message with room shows a peer, unless none is left
pub dump_loop_advances :
    (idx room : ℕ) (ps : List ℕ)
    → 1 ≤ room
    → (length (drop idx ps) ≡ 0) ⊎ (1 ≤ length (dump_loop idx room ps))
unfolding dump_loop
dump_loop_advances zero room [] h = inl refl
dump_loop_advances (suc idx) room [] h = inl refl
dump_loop_advances (suc idx) room (p ∷ ps) h = dump_loop_advances idx room ps h
dump_loop_advances zero zero (p ∷ ps) h = absurd (omega arith)
dump_loop_advances zero (suc room) (p ∷ ps) h = inr (omega arith)

pub length_zero : (ps : List ℕ) → length ps ≤ 0 → ps ≡ []
length_zero [] h = refl
length_zero (p ∷ ps) h = absurd (omega arith)

-- The remaining messages of a dump, each with room for a peer and as many as peers are left, hold
-- exactly the peers that are left.
dump_run-drop :
    (o : Ovpn) (idx : ℕ) (rooms : List ℕ)
    → HaveRoom rooms
    → length (drop idx (all_peers o)) ≤ length rooms
    → dump_run o idx rooms ≡ drop idx (all_peers o)
unfolding dump_run dump_peers
dump_run-drop o idx [] h short = sym (length_zero (drop idx (all_peers o)) short)
dump_run-drop o idx (room ∷ rooms) h short =
    let ps = all_peers o in
    let out = dump_loop idx room ps in
    let whole = dump_loop-drop idx room ps in
    let counts : length out + length (drop (idx + length out) ps) ≡ length (drop idx ps) =
      sym (length-append out (drop (idx + length out) ps)) ∙ ap length whole in
    let fewer : length (drop (idx + length out) ps) ≤ length rooms =
      elim (dump_loop_advances idx room ps h.0) [
        | inl e ↦ omega (arith, counts, e)
        | inr e ↦ omega (arith, counts, e, short)
      ] in
    ap (λ xs. out ++ xs) (dump_run-drop o (idx + length out) rooms h.1 fewer) ∙ whole

dump_loop_past : (room : ℕ) (ps : List ℕ) → dump_loop (length ps) room ps ≡ []
unfolding dump_loop
dump_loop_past room [] = refl
dump_loop_past room (p ∷ ps) = dump_loop_past room ps

-- As long as the table does not change, a dump over messages that each have room for a peer shows
-- every peer of the table exactly as often as the table holds it, in order, once there have been as
-- many messages as there are peers; and the message after that is empty, which ends the dump.
pub dump_complete :
    (o : Ovpn) (rooms : List ℕ) (room : ℕ)
    → HaveRoom rooms
    → length (all_peers o) ≤ length rooms
    → (dump_run o 0 rooms ≡ all_peers o) × ((dump_peers o (length (all_peers o)) room).0 ≡ [])
unfolding dump_peers
dump_complete o rooms room h short =
    (dump_run-drop o 0 rooms h short, dump_loop_past room (all_peers o))

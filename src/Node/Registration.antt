-- ===== src/Node/Registration.antt =====
-- registerConnection of src/node.cpp.
use ensicoin_cpp.Node.{
  Node, PeerType, nodepeer, relaypeer, walletpeer, peer, is_peer, has_name, insert_name, erase_name,
  connect, register_connection,
}
use ensicoin_cpp.Prelude.{
  ℕ, ◌≡◌, refl, sym, ap, ◌∙◌, Bool, true, false, ◌&&◌, ◌||◌, not, List, [], ◌∷◌, list_eq,
  list_eq_iff, arith,
}

has_name-erase_name :
    (name other : List ℕ) (names : List (List ℕ))
    → has_name other (erase_name name names) ≡ (not (list_eq name other) && has_name other names)
unfolding has_name erase_name
has_name-erase_name name other [] = ground arith
has_name-erase_name name other (n ∷ ns) = ground (
  arith,
  list_eq_iff name other,
  list_eq_iff n name,
  list_eq_iff n other,
  has_name-erase_name name other ns,
)

has_name-same :
    (name other : List ℕ) (names : List (List ℕ))
    → has_name name names ≡ true
    → list_eq name other ≡ true
    → has_name other names ≡ true
has_name-same name other names h e =
    ap (λ (n : List ℕ). has_name n names) (sym ((list_eq_iff name other).0 e)) ∙ h

pub has_name-insert_name :
    (name other : List ℕ) (names : List (List ℕ))
    → has_name other (insert_name name names) ≡ (list_eq name other || has_name other names)
unfolding has_name insert_name
has_name-insert_name name other names = ground (arith, has_name-same name other names)

-- Whether a connection of a type is kept among the nodes, or among the relays.
abbrev pub is_nodepeer : PeerType → Bool
is_nodepeer nodepeer = true
is_nodepeer t = false

abbrev pub is_relaypeer : PeerType → Bool
is_relaypeer relaypeer = true
is_relaypeer t = false

-- A connection whose peer's type is known and that is not registered yet is registered: its name, and
-- no other, leaves the unregistered ones, and comes to the nodes if the peer is a node, to the relays
-- if it is a relay, and to neither otherwise.
pub register_connection-has_name :
    (t : PeerType) (remote other : List ℕ) (node : Node)
    → is_peer t ≡ false
    → has_name remote node.unregistred ≡ true
    → (has_name other (register_connection t remote node).unregistred
        ≡ (not (list_eq remote other) && has_name other node.unregistred))
      × (has_name other (register_connection t remote node).connected_nodes
          ≡ ((is_nodepeer t && list_eq remote other) || has_name other node.connected_nodes))
      × (has_name other (register_connection t remote node).connected_relays
          ≡ ((is_relaypeer t && list_eq remote other) || has_name other node.connected_relays))
unfolding register_connection connect
register_connection-has_name nodepeer remote other node known there = (
  rw there (has_name-erase_name remote other node.unregistred),
  rw there (has_name-insert_name remote other node.connected_nodes),
  rw there refl,
)
register_connection-has_name relaypeer remote other node known there = (
  rw there (has_name-erase_name remote other node.unregistred),
  rw there refl,
  rw there (has_name-insert_name remote other node.connected_relays),
)
register_connection-has_name walletpeer remote other node known there =
    (rw there (has_name-erase_name remote other node.unregistred), rw there refl, rw there refl)
register_connection-has_name peer remote other node known there = absurd (ground arith)

-- ===== src/Node.antt =====
-- include/node.hpp and src/node.cpp: what a node knows of its peers. `Node`'s maps from the name of
-- a remote to its Connection are the lists of the names.
pub mod Registration
pub mod Accept
pub mod Trial
use ensicoin_cpp.LinkedTransaction.{Env}
use ensicoin_cpp.Mempool.{Mempool, exists, orphan_exists}
use ensicoin_cpp.Prelude.{
  ℕ, if◌then◌else◌, Bool, true, false, ◌&&◌, ◌||◌, not, List, [], ◌∷◌, list_eq,
}

-- Connection::type.
pub data PeerType : Type 0 where
  nodepeer relaypeer walletpeer peer : PeerType

abbrev pub is_peer : PeerType → Bool
is_peer peer = true
is_peer t = false

pub record Node : Type 0 where
  pub connected_nodes : List (List ℕ)
  pub connected_relays : List (List ℕ)
  pub unregistred : List (List ℕ)

unfoldable pub has_name : List ℕ → List (List ℕ) → Bool
has_name name [] = false
has_name name (n ∷ ns) = list_eq n name || has_name name ns

-- `map.insert` and `map.erase`.
unfoldable pub insert_name : List ℕ → List (List ℕ) → List (List ℕ)
insert_name name names = if has_name name names then names else name ∷ names

unfoldable pub erase_name : List ℕ → List (List ℕ) → List (List ℕ)
erase_name name [] = []
erase_name name (n ∷ ns) =
    let rest = erase_name name ns in if list_eq n name then rest else n ∷ rest

connect : PeerType → List ℕ → Node → Node
connect nodepeer remote node = record node {
  connected_nodes = insert_name remote node.connected_nodes;
}
connect relaypeer remote node = record node {
  connected_relays = insert_name remote node.connected_relays;
}
connect walletpeer remote node = node
connect peer remote node = node

unfoldable pub register_connection : PeerType → List ℕ → Node → Node
unfolding connect
register_connection t remote node =
    if not (is_peer t) && has_name remote node.unregistred
    then (let connected = connect t remote node in
        record connected { unregistred = erase_name remote connected.unregistred })
    else node

unfoldable pub transaction_exists : (env : Env) → Mempool env → List ℕ → Bool
transaction_exists env m tx_hash = exists env m tx_hash || orphan_exists env m tx_hash

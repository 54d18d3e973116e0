-- ===== src/MessageHandler.antt =====
-- include/messagehandler.hpp and src/messagehandler.cpp: what is done with a message received, and
-- handleMessage of src/connection.cpp, which calls it.
pub mod Handshake
pub mod Reads
pub mod Conserved
pub mod Versions
pub mod Receive
pub mod Announcements
use ensicoin_cpp.Connection.{Connection, Local, send_message, update_status, wait_message}
use ensicoin_cpp.Message.{
  Message, MessageType, whoami, whoamiack, inv, WhoAmI, who_am_i_from_buffer, inv_array_from_buffer,
  get_data_message,
}
use ensicoin_cpp.NetworkBuffer.{NetworkBuffer, buffer_of}
use ensicoin_cpp.Networkable.{HexDecoder, InvVect, RessourceType, tx_res, block_res, invalid_res}
use ensicoin_cpp.Node.{Node, PeerType, nodepeer, relaypeer, walletpeer, peer, has_name}
use ensicoin_cpp.Prelude.{ℕ, if◌then◌else◌, Bool, true, false, not, List, [], ◌∷◌, codes}
use ensicoin_cpp.Prelude.Int.{ℤ, pos, to_int}

-- `tx_exists` and `block_exists` are transactionExists and blockExists of the node.
module _ (tx_exists block_exists : List ℕ → Bool) where
  unfoldable pub is_unknown : InvVect → Bool
  is_unknown v = elim v.type [
    | tx_res ↦ not (tx_exists v.hash)
    | block_res ↦ not (block_exists v.hash)
    | invalid_res ↦ false
  ]

  unfoldable pub unknown_of : List InvVect → List InvVect
  unknown_of [] = []
  unknown_of (v ∷ vs) = let rest = unknown_of vs in if is_unknown v then v ∷ rest else rest

  unfoldable pub on_inv : HexDecoder → NetworkBuffer → Connection → Connection
  on_inv hex buffer c =
      send_message (get_data_message hex (unknown_of (inv_array_from_buffer buffer).0)) c

-- The last of the three tests that holds decides.
unfoldable pub peer_type_of : List (List ℕ) → PeerType
peer_type_of services =
    if has_name (codes "node") services
    then nodepeer
    else if has_name (codes "relay") services
    then relaypeer
    else if has_name (codes "wallet") services
    then walletpeer
    else peer

module _ (hex : HexDecoder) (here : Local) where
  unfoldable pub on_who_am_i : NetworkBuffer → Connection → Node → Connection × Node
  on_who_am_i buffer c node =
      let w = (who_am_i_from_buffer buffer).0 in
      update_status hex here (to_int w.version) (peer_type_of w.services) c node

  unfoldable pub on_who_am_i_ack : Connection → Node → Connection × Node
  on_who_am_i_ack c node = update_status hex here (pos 0) peer c node

  module _ (tx_exists block_exists : List ℕ → Bool) where
    -- The constructor of MessageHandler.
    unfoldable pub handle : MessageType → NetworkBuffer → Connection → Node → Connection × Node
    handle whoami buffer c node = on_who_am_i buffer c node
    handle whoamiack buffer c node = on_who_am_i_ack c node
    handle inv buffer c node = (on_inv tx_exists block_exists hex buffer c, node)
    handle t buffer c node = (c, node)

    -- A message of type t with the given payload has been read.
    unfoldable pub handle_message :
        MessageType → (ℕ → List ℕ) → List ℕ → Connection → Node → Connection × Node
    handle_message t fresh payload c node =
        let (c', node') = handle t (buffer_of fresh payload) c node in (wait_message c', node')

-- ===== src/Connection.antt =====
-- include/connection.hpp and src/connection.cpp: a connection to a peer, its handshake and the
-- messages that wait for it.
pub mod Buffer
pub mod Quiet
pub mod Reads
pub mod Held
pub mod Versions
use ensicoin_cpp.Message.{
  Message, MessageType, whoami, whoamiack, who_am_i, who_am_i_ack, who_am_i_message,
}
use ensicoin_cpp.Networkable.{HexDecoder, Address}
use ensicoin_cpp.Constants.{protocol_version, ip_bytes}
use ensicoin_cpp.Node.{Node, PeerType, peer, is_peer, register_connection}
use ensicoin_cpp.Prelude.{
  ℕ, zero, suc, ◌+◌, if◌then◌else◌, Bool, true, false, ◌||◌, List, [], ◌∷◌, ◌++◌, replicate,
}
use ensicoin_cpp.Prelude.Int.{ℤ, pos, ltb_ℤ}

pub data Status : Type 0 where
  initiated waiting idle waiting_ack ack : Status

abbrev pub is_ack : Status → Bool
is_ack ack = true
is_ack status = false

-- The head of `buffered_messages` is the back of the vector. `sent` holds the messages handed to
-- async_write, the first one first, and `reads` counts the calls of async_read in `idle`.
pub record Connection : Type 0 where
  pub remote : List ℕ
  pub version_used : ℤ
  pub current_status : Status
  pub peer_type : PeerType
  pub buffered_messages : List Message
  pub sent : List Message
  pub reads : ℕ

-- The constructor.
unfoldable pub create : List ℕ → Connection
create remote = record {
  remote = remote;
  version_used = pos protocol_version;
  current_status = idle;
  peer_type = peer;
  buffered_messages = [];
  sent = [];
  reads = 0;
}

abbrev pub is_handshake : MessageType → Bool
is_handshake whoami = true
is_handshake whoamiack = true
is_handshake t = false

unfoldable pub send_message : Message → Connection → Connection
send_message m c =
    if is_handshake m.type || is_ack c.current_status
    then record c { sent = c.sent ++ m ∷ [] }
    else record c { buffered_messages = m ∷ c.buffered_messages }

-- The loop of `idle` over the messages that are left.
unfoldable pub flush : List Message → Connection → Connection
flush [] c = c
flush (m ∷ ms) c = flush ms (record (send_message m c) { buffered_messages = ms })

-- `idle()` starts a read, which handleHeader ends.
unfoldable pub wait_message : Connection → Connection
wait_message c =
    let reading = record c { reads = c.reads + 1 } in
    if is_ack c.current_status then flush c.buffered_messages reading else reading

unfoldable pub start : Connection → Connection
start c = wait_message c

unfoldable pub handle_write : Connection → Connection
handle_write c = wait_message c

-- What the socket and the clock give: the time, the four bytes of the local address, and the port.
pub record Local : Type 0 where
  pub time : ℕ
  pub v4_bytes : List ℕ
  pub port : ℕ

lower_version : ℤ → Connection → Connection
lower_version version c =
    if ltb_ℤ version c.version_used then record c { version_used = version } else c

module _ (hex : HexDecoder) (here : Local) where
  unfoldable pub introduction : List ℕ → Message
  introduction ip =
      who_am_i_message hex
        (who_am_i (record { timestamp = here.time; address = ip; port = here.port }))

  -- `bind`.
  unfoldable pub bind : Connection → Connection
  unfolding introduction
  bind c = send_message (introduction ip_bytes) (record c { current_status = initiated })

  register : Connection → Node → Node
  register c node = register_connection c.peer_type c.remote node

  -- The switch of updateStatus.
  change_status : ℤ → Status → Connection → Node → Connection × Node
  unfolding introduction lower_version register
  change_status version idle c node =
      let greeting = introduction (replicate 12 255 ++ here.v4_bytes) in
      (
        record (send_message who_am_i_ack (send_message greeting (lower_version version c))) {
          current_status = waiting_ack;
        },
        node,
      )
  change_status version waiting_ack c node =
      let acked = record c { current_status = ack } in
      (lower_version version acked, register acked node)
  change_status version initiated c node = (record c { current_status = waiting }, node)
  change_status version waiting c node = (
    send_message who_am_i_ack (record (lower_version version c) { current_status = ack }),
    register c node,
  )
  change_status version ack c node = (c, node)

  unfoldable pub update_status : ℤ → PeerType → Connection → Node → Connection × Node
  unfolding change_status
  update_status version t c node =
      let typed = if is_peer c.peer_type then record c { peer_type = t } else c in
      change_status version c.current_status typed node

-- ===== src/MessageHandler/Versions.antt =====
-- The version that the handshake of src/connection.cpp and src/messagehandler.cpp settles.
use ensicoin_cpp.Connection.{Connection, Local, create, start, handle_write, bind}
use ensicoin_cpp.Connection.Versions.{
  negotiated, send_message-version, wait_message-version, update_status-version,
}
use ensicoin_cpp.Constants.{protocol_version}
use ensicoin_cpp.Message.{
  MessageType, whoami, whoamiack, getaddr, addr, inv, getdata, notfound, block, tx, getblocks,
  getmempool, unknown, who_am_i_from_buffer,
}
use ensicoin_cpp.MessageHandler.{handle, handle_message, on_inv, on_who_am_i, on_who_am_i_ack}
use ensicoin_cpp.MessageHandler.Handshake.{Reaches, accepts, binds, sends, writes, handles}
use ensicoin_cpp.NetworkBuffer.{NetworkBuffer, buffer_of}
use ensicoin_cpp.Networkable.{HexDecoder}
use ensicoin_cpp.Node.{Node}
use ensicoin_cpp.Prelude.{ℕ, ◌≡◌, refl, ap, ◌∙◌, Bool, List}
use ensicoin_cpp.Prelude.Int.{ℤ, pos, to_int}

-- What a handler makes of the version in use; a whoamiack offers the version 0.
unfoldable pub settled : MessageType → NetworkBuffer → Connection → ℤ → ℤ
settled whoami b c used =
    negotiated c.current_status (to_int (who_am_i_from_buffer b).0.version) used
settled whoamiack b c used = negotiated c.current_status (pos 0) used
settled t b c used = used

module _ (hex : HexDecoder) where
  handle-version :
      (here : Local) (tx_exists block_exists : List ℕ → Bool) (t : MessageType) (b : NetworkBuffer)
      (c : Connection) (node : Node)
      → (handle hex here tx_exists block_exists t b c node).0.version_used
        ≡ settled t b c c.version_used
  unfolding handle on_who_am_i on_who_am_i_ack on_inv settled
  handle-version here tx_exists block_exists whoami b c node =
      update_status-version hex here _ _ c node
  handle-version here tx_exists block_exists whoamiack b c node =
      update_status-version hex here _ _ c node
  handle-version here tx_exists block_exists inv b c node = send_message-version _ c
  handle-version here tx_exists block_exists getaddr b c node = refl
  handle-version here tx_exists block_exists addr b c node = refl
  handle-version here tx_exists block_exists getdata b c node = refl
  handle-version here tx_exists block_exists notfound b c node = refl
  handle-version here tx_exists block_exists block b c node = refl
  handle-version here tx_exists block_exists tx b c node = refl
  handle-version here tx_exists block_exists getblocks b c node = refl
  handle-version here tx_exists block_exists getmempool b c node = refl
  handle-version here tx_exists block_exists unknown b c node = refl

  -- The version that what has happened to a connection settles.
  unfoldable pub version_of : {c : Connection} → Reaches hex c → ℤ
  version_of (accepts remote) = pos protocol_version
  version_of (binds remote here) = pos protocol_version
  version_of (sends m c r) = version_of r
  version_of (writes c r) = version_of r
  version_of (handles here tx_exists block_exists t fresh payload node c r) =
      settled t (buffer_of fresh payload) c (version_of r)

  -- The version that a connection uses is the program's own, lowered to that of each whoami and to 0
  -- by each whoamiack that it has handled, but for those that came in the states Initiated and Ack:
  -- the version of a whoami that answers a connection's own is not looked at.
  pub Reaches-version : {c : Connection} (r : Reaches hex c) → c.version_used ≡ version_of r
  unfolding version_of start create bind handle_write handle_message
  Reaches-version (accepts remote) = wait_message-version (create remote)
  Reaches-version (binds remote here) = send_message-version _ _
  Reaches-version (sends m c r) = send_message-version m c ∙ Reaches-version r
  Reaches-version (writes c r) = wait_message-version c ∙ Reaches-version r
  Reaches-version (handles here tx_exists block_exists t fresh payload node c r) =
      let b = buffer_of fresh payload in
      wait_message-version (handle hex here tx_exists block_exists t b c node).0
      ∙ handle-version here tx_exists block_exists t b c node
      ∙ ap (settled t b c) (Reaches-version r)

-- ===== src/MessageHandler/Reads.antt =====
-- How many reads `idle` of src/connection.cpp has started.
use ensicoin_cpp.Connection.{Connection, Local, create, start, handle_write, bind}
use ensicoin_cpp.Connection.Reads.{
  send_message-reads, wait_message-reads, update_status-reads, bind-reads,
}
use ensicoin_cpp.Message.{
  MessageType, whoami, whoamiack, getaddr, addr, inv, getdata, notfound, block, tx, getblocks,
  getmempool, unknown,
}
use ensicoin_cpp.MessageHandler.{handle, handle_message, on_inv, on_who_am_i, on_who_am_i_ack}
use ensicoin_cpp.MessageHandler.Handshake.{Reaches, accepts, binds, sends, writes, handles}
use ensicoin_cpp.NetworkBuffer.{NetworkBuffer, buffer_of}
use ensicoin_cpp.Networkable.{HexDecoder}
use ensicoin_cpp.Node.{Node}
use ensicoin_cpp.Prelude.{ℕ, ◌+◌, ◌≡◌, refl, ◌∙◌, Bool, List, arith}

module _ (hex : HexDecoder) where
  pub handle-reads :
      (here : Local) (tx_exists block_exists : List ℕ → Bool) (t : MessageType) (b : NetworkBuffer)
      (c : Connection) (node : Node)
      → (handle hex here tx_exists block_exists t b c node).0.reads ≡ c.reads
  unfolding handle on_who_am_i on_who_am_i_ack on_inv
  handle-reads here tx_exists block_exists whoami b c node = update_status-reads hex here _ _ c node
  handle-reads here tx_exists block_exists whoamiack b c node =
      update_status-reads hex here _ _ c node
  handle-reads here tx_exists block_exists inv b c node = send_message-reads _ c
  handle-reads here tx_exists block_exists getaddr b c node = refl
  handle-reads here tx_exists block_exists addr b c node = refl
  handle-reads here tx_exists block_exists getdata b c node = refl
  handle-reads here tx_exists block_exists notfound b c node = refl
  handle-reads here tx_exists block_exists block b c node = refl
  handle-reads here tx_exists block_exists tx b c node = refl
  handle-reads here tx_exists block_exists getblocks b c node = refl
  handle-reads here tx_exists block_exists getmempool b c node = refl
  handle-reads here tx_exists block_exists unknown b c node = refl

  -- Of what has happened to a connection: whether it was accepted, and how many writes have ended and
  -- messages been handled.
  unfoldable pub accepted : {c : Connection} → Reaches hex c → ℕ
  accepted (accepts remote) = 1
  accepted (binds remote here) = 0
  accepted (sends m c r) = accepted r
  accepted (writes c r) = accepted r
  accepted (handles here tx_exists block_exists t fresh payload node c r) = accepted r

  unfoldable pub writes_ended : {c : Connection} → Reaches hex c → ℕ
  writes_ended (accepts remote) = 0
  writes_ended (binds remote here) = 0
  writes_ended (sends m c r) = writes_ended r
  writes_ended (writes c r) = writes_ended r + 1
  writes_ended (handles here tx_exists block_exists t fresh payload node c r) = writes_ended r

  unfoldable pub messages_handled : {c : Connection} → Reaches hex c → ℕ
  messages_handled (accepts remote) = 0
  messages_handled (binds remote here) = 0
  messages_handled (sends m c r) = messages_handled r
  messages_handled (writes c r) = messages_handled r
  messages_handled (handles here tx_exists block_exists t fresh payload node c r) =
      messages_handled r + 1

  -- Whatever has happened to a connection, `idle` has started one read for each message handled, one
  -- for each write that has ended, and one if the connection was accepted: the reads that no message
  -- has ended are as many as the writes that have ended, or one more.
  pub Reaches-reads :
      {c : Connection} (r : Reaches hex c)
      → c.reads ≡ messages_handled r + (writes_ended r + accepted r)
  unfolding accepted writes_ended messages_handled start create bind handle_write handle_message
  Reaches-reads (accepts remote) = wait_message-reads (create remote)
  Reaches-reads (binds remote here) = bind-reads hex here (create remote)
  Reaches-reads (sends m c r) = send_message-reads m c ∙ Reaches-reads r
  Reaches-reads (writes c r) = omega (arith, wait_message-reads c, Reaches-reads r)
  Reaches-reads (handles here tx_exists block_exists t fresh payload node c r) = omega (
    arith,
    wait_message-reads
        (handle hex here tx_exists block_exists t (buffer_of fresh payload) c node).0,
    handle-reads here tx_exists block_exists t (buffer_of fresh payload) c node,
    Reaches-reads r,
  )

-- ===== src/MessageHandler/Handshake.antt =====
-- The handshake: what a connection does under the handlers of src/messagehandler.cpp.
use ensicoin_cpp.Connection.{
  Connection, Local, Status, initiated, waiting, idle, waiting_ack, ack, is_ack, is_handshake,
  create, send_message, start, handle_write, bind,
}
use ensicoin_cpp.Connection.Quiet.{
  IsQuiet, AllHandshake, send_message-IsQuiet, wait_message-IsQuiet, update_status-IsQuiet,
  bind-IsQuiet, next_status, update_status-next, wait_message-status,
}
use ensicoin_cpp.Message.{
  Message, MessageType, whoami, whoamiack, getaddr, addr, inv, getdata, notfound, block, tx,
  getblocks, getmempool, unknown,
}
use ensicoin_cpp.MessageHandler.{handle, handle_message, on_inv, on_who_am_i, on_who_am_i_ack}
use ensicoin_cpp.NetworkBuffer.{NetworkBuffer, buffer_of}
use ensicoin_cpp.Networkable.{HexDecoder}
use ensicoin_cpp.Node.{Node}
use ensicoin_cpp.Prelude.{ℕ, ◌≡◌, refl, ap, ◌∙◌, Bool, true, false, List, arith}

module _ (hex : HexDecoder) where
  -- What can happen to a connection: it is accepted or opened, messages are given to it, a write
  -- ends, and a message of the peer is handled, with any state of the node, the clock and the storage.
  pub data Reaches : Connection → Type 0 where
    accepts : (remote : List ℕ) → Reaches (start (create remote))
    binds : (remote : List ℕ) (here : Local) → Reaches (bind hex here (create remote))
    sends : (m : Message) (c : Connection) → Reaches c → Reaches (send_message m c)
    writes : (c : Connection) → Reaches c → Reaches (handle_write c)
    handles :
        (here : Local) (tx_exists block_exists : List ℕ → Bool) (t : MessageType)
        (fresh : ℕ → List ℕ) (payload : List ℕ) (node : Node) (c : Connection)
        → Reaches c
        → Reaches (handle_message hex here tx_exists block_exists t fresh payload c node).0

  module _ (here : Local) (tx_exists block_exists : List ℕ → Bool) where
    handle-IsQuiet :
        (t : MessageType) (b : NetworkBuffer) (c : Connection) (node : Node)
        → IsQuiet c
        → IsQuiet (handle hex here tx_exists block_exists t b c node).0
    unfolding handle on_who_am_i on_who_am_i_ack on_inv
    handle-IsQuiet whoami b c node q = update_status-IsQuiet hex here _ _ c node q
    handle-IsQuiet whoamiack b c node q = update_status-IsQuiet hex here _ _ c node q
    handle-IsQuiet inv b c node q = send_message-IsQuiet _ c q
    handle-IsQuiet getaddr b c node q = q
    handle-IsQuiet addr b c node q = q
    handle-IsQuiet getdata b c node q = q
    handle-IsQuiet notfound b c node q = q
    handle-IsQuiet block b c node q = q
    handle-IsQuiet tx b c node q = q
    handle-IsQuiet getblocks b c node q = q
    handle-IsQuiet getmempool b c node q = q
    handle-IsQuiet unknown b c node q = q

    handle-next :
        (t : MessageType) (b : NetworkBuffer) (c : Connection) (node : Node)
        → is_handshake t ≡ true
        → (handle hex here tx_exists block_exists t b c node).0.current_status
          ≡ next_status hex here c.current_status
    unfolding handle on_who_am_i on_who_am_i_ack
    handle-next whoami b c node h = update_status-next hex here _ _ c node
    handle-next whoamiack b c node h = update_status-next hex here _ _ c node
    handle-next getaddr b c node h = absurd (ground arith)
    handle-next addr b c node h = absurd (ground arith)
    handle-next inv b c node h = absurd (ground arith)
    handle-next getdata b c node h = absurd (ground arith)
    handle-next notfound b c node h = absurd (ground arith)
    handle-next block b c node h = absurd (ground arith)
    handle-next tx b c node h = absurd (ground arith)
    handle-next getblocks b c node h = absurd (ground arith)
    handle-next getmempool b c node h = absurd (ground arith)
    handle-next unknown b c node h = absurd (ground arith)

    handle_message-next :
        (t : MessageType) (fresh : ℕ → List ℕ) (payload : List ℕ) (c : Connection) (node : Node)
        → is_handshake t ≡ true
        → (handle_message hex here tx_exists block_exists t fresh payload c node).0.current_status
          ≡ next_status hex here c.current_status
    unfolding handle_message
    handle_message-next t fresh payload c node h =
        wait_message-status _ ∙ handle-next t (buffer_of fresh payload) c node h

    -- Any two messages of the handshake, two of one kind too and whatever their payloads, end it: the
    -- connection is then in the state Ack, whatever its state was and the node's between them.
    pub handle_message_twice :
        (t t' : MessageType) (fresh fresh' : ℕ → List ℕ) (payload payload' : List ℕ)
        (c : Connection) (node node' : Node)
        → is_handshake t ≡ true
        → is_handshake t' ≡ true
        → (handle_message hex here tx_exists block_exists t' fresh' payload'
            (handle_message hex here tx_exists block_exists t fresh payload c node).0
            node').0.current_status
          ≡ ack
    handle_message_twice t t' fresh fresh' payload payload' c node node' h h' =
        handle_message-next t' fresh' payload' _ node' h'
        ∙ ap (next_status hex here) (handle_message-next t fresh payload c node h)
        ∙ twice c.current_status
      where
        twice : (s : Status) → next_status hex here (next_status hex here s) ≡ ack
        twice idle = refl
        twice initiated = refl
        twice waiting = refl
        twice waiting_ack = refl
        twice ack = refl

  Reaches-IsQuiet : (c : Connection) → Reaches c → IsQuiet c
  unfolding start create handle_write handle_message
  Reaches-IsQuiet _ (accepts remote) = wait_message-IsQuiet (create remote) (λ n. tt)
  Reaches-IsQuiet _ (binds remote here) = bind-IsQuiet hex here remote
  Reaches-IsQuiet _ (sends m c r) = send_message-IsQuiet m c (Reaches-IsQuiet c r)
  Reaches-IsQuiet _ (writes c r) = wait_message-IsQuiet c (Reaches-IsQuiet c r)
  Reaches-IsQuiet _ (handles here tx_exists block_exists t fresh payload node c r) =
      wait_message-IsQuiet _ (
        handle-IsQuiet here tx_exists block_exists t (buffer_of fresh payload) c node
          (Reaches-IsQuiet c r))

  -- Until its handshake is done, a connection has sent nothing but whoami and whoamiack, whatever
  -- has been given to it and whatever the peer has sent.
  pub Reaches-AllHandshake :
      (c : Connection) → Reaches c → is_ack c.current_status ≡ false → AllHandshake c.sent
  Reaches-AllHandshake = Reaches-IsQuiet

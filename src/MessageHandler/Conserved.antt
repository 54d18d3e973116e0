-- ===== src/MessageHandler/Conserved.antt =====
-- No message given to a connection of src/connection.cpp is lost or sent twice.
use ensicoin_cpp.Connection.{
  Connection, Local, Status, is_ack, is_handshake, create, send_message, wait_message, start,
  handle_write, bind, introduction,
}
use ensicoin_cpp.Connection.Buffer.{wait_message-ack, send_message-now, send_message-later}
use ensicoin_cpp.Connection.Held.{
  held, send_message-held, wait_message-held, update_status-held, greets,
}
use ensicoin_cpp.Connection.Quiet.{wait_message-status}
use ensicoin_cpp.Constants.{ip_bytes}
use ensicoin_cpp.Message.{
  Message, MessageType, whoami, whoamiack, getaddr, addr, inv, getdata, notfound, block, tx,
  getblocks, getmempool, unknown, get_data_message, inv_array_from_buffer,
}
use ensicoin_cpp.MessageHandler.{
  handle, handle_message, on_inv, on_who_am_i, on_who_am_i_ack, unknown_of,
}
use ensicoin_cpp.MessageHandler.Handshake.{Reaches, accepts, binds, sends, writes, handles}
use ensicoin_cpp.NetworkBuffer.{NetworkBuffer, buffer_of}
use ensicoin_cpp.Networkable.{HexDecoder}
use ensicoin_cpp.Node.{Node}
use ensicoin_cpp.Prelude.{
  ◌⊎◌, false, ℕ, ◌≡◌, refl, sym, ap, ◌∙◌, subst, Bool, Bool-cases, inl, inr, true, ◌||◌, List, [],
  ◌∷◌, ◌++◌, append-nil, arith,
}
use mathlib.Core.List.{Perm}
use mathlib.Core.List.Perm

module _ (hex : HexDecoder) where
  -- The messages that the handler of a message gives to the connection, the last first.
  unfoldable pub answers :
      Local
      → (tx_exists block_exists : List ℕ → Bool) → MessageType
      → NetworkBuffer
      → Status
      → List Message
  answers here tx_exists block_exists whoami b s = greets hex here s
  answers here tx_exists block_exists whoamiack b s = greets hex here s
  answers here tx_exists block_exists inv b s =
      get_data_message hex (unknown_of tx_exists block_exists (inv_array_from_buffer b).0) ∷ []
  answers here tx_exists block_exists t b s = []

  -- All that a connection has been given to send, the last first.
  unfoldable pub given : {c : Connection} → Reaches hex c → List Message
  given (accepts remote) = []
  given (binds remote here) = introduction hex here ip_bytes ∷ []
  given (sends m c r) = m ∷ given r
  given (writes c r) = given r
  given (handles here tx_exists block_exists t fresh payload node c r) =
      answers here tx_exists block_exists t (buffer_of fresh payload) c.current_status ++ given r

  handle-held :
      (here : Local) (tx_exists block_exists : List ℕ → Bool) (t : MessageType) (b : NetworkBuffer)
      (c : Connection) (node : Node)
      → Perm
          (held (handle hex here tx_exists block_exists t b c node).0)
          (answers here tx_exists block_exists t b c.current_status ++ held c)
  unfolding handle on_who_am_i on_who_am_i_ack on_inv answers
  handle-held here tx_exists block_exists whoami b c node = update_status-held hex here _ _ c node
  handle-held here tx_exists block_exists whoamiack b c node =
      update_status-held hex here _ _ c node
  handle-held here tx_exists block_exists inv b c node = send_message-held _ c
  handle-held here tx_exists block_exists getaddr b c node = Perm.refl _
  handle-held here tx_exists block_exists addr b c node = Perm.refl _
  handle-held here tx_exists block_exists getdata b c node = Perm.refl _
  handle-held here tx_exists block_exists notfound b c node = Perm.refl _
  handle-held here tx_exists block_exists block b c node = Perm.refl _
  handle-held here tx_exists block_exists tx b c node = Perm.refl _
  handle-held here tx_exists block_exists getblocks b c node = Perm.refl _
  handle-held here tx_exists block_exists getmempool b c node = Perm.refl _
  handle-held here tx_exists block_exists unknown b c node = Perm.refl _

  Reaches-held : {c : Connection} (r : Reaches hex c) → Perm (held c) (given r)
  unfolding given start handle_write handle_message bind create
  Reaches-held (accepts remote) =
      subst (λ ms. Perm ms []) (sym (wait_message-held (create remote))) (Perm.refl _)
  Reaches-held (binds remote here) = send_message-held _ _
  Reaches-held (sends m c r) = Perm.trans (send_message-held m c) (Perm.cons m (Reaches-held r))
  Reaches-held (writes c r) =
      subst (λ ms. Perm ms (given r)) (sym (wait_message-held c)) (Reaches-held r)
  Reaches-held (handles here tx_exists block_exists t fresh payload node c r) =
      let b = buffer_of fresh payload in
      subst (λ ms. Perm ms (answers here tx_exists block_exists t b c.current_status ++ given r))
        (sym (wait_message-held (handle hex here tx_exists block_exists t b c node).0))
        (Perm.trans (handle-held here tx_exists block_exists t b c node)
          (Perm.append (Perm.refl _) (Reaches-held r)))

  abbrev NothingWaits : Connection → Type 0
  NothingWaits c = is_ack c.current_status ≡ true → c.buffered_messages ≡ []

  wait_message-NothingWaits : (c : Connection) → NothingWaits (wait_message c)
  wait_message-NothingWaits c a =
      ap (λ (d : Connection). d.buffered_messages)
        (wait_message-ack c (ap is_ack (sym (wait_message-status c)) ∙ a))

  send_message-NothingWaits :
      (m : Message) (c : Connection) → NothingWaits c → NothingWaits (send_message m c)
  send_message-NothingWaits m c n =
      elim (Bool-cases (is_handshake m.type || is_ack c.current_status)) [
        | inl now ↦ subst NothingWaits (sym (send_message-now m c now)) n
        | inr later ↦
            subst NothingWaits (sym (send_message-later m c later)) (λ a. absurd (ground arith))
      ]

  Reaches-NothingWaits : {c : Connection} (r : Reaches hex c) → NothingWaits c
  unfolding start handle_write handle_message bind create
  Reaches-NothingWaits (accepts remote) = wait_message-NothingWaits _
  Reaches-NothingWaits (binds remote here) = send_message-NothingWaits _ _ (λ a. refl)
  Reaches-NothingWaits (sends m c r) = send_message-NothingWaits m c (Reaches-NothingWaits r)
  Reaches-NothingWaits (writes c r) = wait_message-NothingWaits _
  Reaches-NothingWaits (handles here tx_exists block_exists t fresh payload node c r) =
      wait_message-NothingWaits _

  -- Whatever has happened to a connection, what it has sent and what waits are together the messages
  -- that were given to it, by `sends` or by its handlers, each as often as it was given; and either
  -- its handshake is not done, or nothing waits and they all have been sent.
  pub Reaches-given :
      {c : Connection} (r : Reaches hex c)
      → Perm (c.sent ++ c.buffered_messages) (given r)
        × ((is_ack c.current_status ≡ false) ⊎ ((c.buffered_messages ≡ []) × Perm c.sent (given r)))
  Reaches-given {c} r = (
    Reaches-held r,
    elim (Bool-cases (is_ack c.current_status)) [
      | inr n ↦ inl n
      | inl a ↦ inr (
        Reaches-NothingWaits r a,
        subst (λ ms. Perm ms (given r))
            (ap (λ ms. c.sent ++ ms) (Reaches-NothingWaits r a) ∙ append-nil c.sent)
            (Reaches-held r),
      )
    ],
  )

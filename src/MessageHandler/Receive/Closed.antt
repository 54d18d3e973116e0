-- ===== src/MessageHandler/Receive/Closed.antt =====
-- Reads of src/connection.cpp that end with an error.
use ensicoin_cpp.Connection.{Connection, Local, flush, wait_message, is_ack}
use ensicoin_cpp.Message.{unknown, get_type_from_string}
use ensicoin_cpp.MessageHandler.{handle, handle_message}
use ensicoin_cpp.MessageHandler.Receive.{receive_closed, receive_closed_all}
use ensicoin_cpp.NetworkBuffer.{buffer_of, read, read_str, read_str_loop, read_uint32}
use ensicoin_cpp.Networkable.{
  HexDecoder, fixed_str, fixed_str_from_buffer, message_header_from_buffer,
}
use ensicoin_cpp.Networkable.Strings.{zeroed}
use ensicoin_cpp.Node.{Node}
use ensicoin_cpp.Prelude.{
  ℕ, zero, suc, ◌+◌, ◌≡◌, refl, ap, ◌∙◌, Bool-cases, inl, inr, Bool, List, [], arith,
}
use ensicoin_cpp.Socket.{Socket}

module _ (socket : Socket) (hex : HexDecoder) (here : Local)
    (tx_exists block_exists : List ℕ → Bool) where
  no_type : get_type_from_string (message_header_from_buffer (buffer_of zeroed [])).0.type ≡ unknown
  unfolding message_header_from_buffer get_type_from_string fixed_str_from_buffer fixed_str read_str
      read_str_loop read read_uint32
  no_type = refl

  receive_closed-wait_message :
      (c : Connection) (node : Node)
      → receive_closed socket hex here tx_exists block_exists zeroed [] c node
        ≡ (wait_message c, node)
  unfolding receive_closed handle_message handle
  receive_closed-wait_message c node = rw no_type refl

  -- Whether the handshake is done or not.
  wait_message_idle :
      (c : Connection)
      → c.buffered_messages ≡ []
      → wait_message c ≡ record c { reads = c.reads + 1 }
  unfolding wait_message flush
  wait_message_idle c none_left = elim (Bool-cases (is_ack c.current_status)) [
    | inl done ↦ rw (done, none_left) refl
    | inr before ↦ rw before refl
  ]

  pub receive_closed_all-reads :
      (n : ℕ) (c : Connection) (node : Node)
      → c.buffered_messages ≡ []
      → receive_closed_all socket hex here tx_exists block_exists zeroed n c node
        ≡ (record c { reads = c.reads + n }, node)
  unfolding receive_closed_all
  receive_closed_all-reads zero c node h =
      ap (λ (k : ℕ). (record c { reads = k }, node)) (omega arith)
  receive_closed_all-reads (suc n) c node h =
      rw (receive_closed-wait_message c node, wait_message_idle c h)
        (receive_closed_all-reads n (record c { reads = c.reads + 1 }) node h
          ∙ ap (λ (k : ℕ). (record c { reads = k }, node)) (omega arith))

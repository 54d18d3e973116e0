-- ===== src/MessageHandler/Receive.antt =====
-- handleHeader of src/connection.cpp: the bytes that reach a connection, and the messages that are
-- handled.
pub mod Stream
pub mod Magic
pub mod Closed
use ensicoin_cpp.Connection.{Connection, Local}
use ensicoin_cpp.Message.{Message, get_type_from_string, message_byte_repr}
use ensicoin_cpp.Message.Wire.{
  header_of, header_bytes, header_bytes-read, length-header_bytes, message_byte_repr-header_bytes,
  get_type_from_string-padded,
}
use ensicoin_cpp.MessageHandler.{handle_message}
use ensicoin_cpp.NetworkBuffer.{NetworkBuffer, buffer_of}
use ensicoin_cpp.Networkable.{HexDecoder, MessageHeader, header_size, message_header_from_buffer}
use ensicoin_cpp.Networkable.Strings.{zeroed}
use ensicoin_cpp.Node.{Node}
use ensicoin_cpp.Prelude.Outcome.{Outcome, returns, undefined, ◌>>=◌}
use ensicoin_cpp.Socket.{Socket}
use ensicoin_cpp.Prelude.{
  ℕ, zero, suc, ◌+◌, ◌-◌, ◌^◌, ◌<◌, ◌≤◌, ◌≡◌, refl, sym, ap, ◌∙◌, ltb, if◌then◌else◌, Bool,
  Bool-cases, inl, inr, true, false, Option, none, some, List, [], ◌∷◌, ◌++◌, length, length-append,
  take, drop, take-append, drop-append, append-nil, append_assoc, All, arith,
}

module _ (socket : Socket) (hex : HexDecoder) (here : Local)
    (tx_exists block_exists : List ℕ → Bool) (fresh : ℕ → List ℕ) where
  -- The header has been read; `bytes` are what is there behind it.
  unfoldable pub handle_payload :
      MessageHeader → List ℕ → Connection → Node → Option ((Connection × Node) × List ℕ)
  handle_payload header bytes c node =
      let t = get_type_from_string header.type in
      if ltb 0 header.payload_length
      then elim (socket.transfer_exactly header.payload_length bytes) [
        | none ↦ none
        | some (payload, rest) ↦
            some (handle_message hex here tx_exists block_exists t fresh payload c node, rest)
      ]
      else some (handle_message hex here tx_exists block_exists t fresh [] c node, bytes)

  unfoldable pub handle_header :
      List ℕ → List ℕ → Connection → Node → Option ((Connection × Node) × List ℕ)
  handle_header string_data bytes c node =
      handle_payload (message_header_from_buffer (buffer_of fresh string_data)).0 bytes c node

  -- A read that `idle` has started, to the end of the message; `none` while it is not complete.
  unfoldable pub read_message : List ℕ → Connection → Node → Option ((Connection × Node) × List ℕ)
  unfolding handle_header
  read_message bytes c node = elim (socket.transfer_exactly header_size bytes) [
    | none ↦ none
    | some (string_data, rest) ↦ handle_header string_data rest c node
  ]

  -- Bytes come, with so many reads of `idle` under way: without one they wait, and asio forbids
  -- another read of the socket before async_read has completed.
  unfoldable pub receive :
      ℕ → List ℕ → Connection → Node → Outcome (Option ((Connection × Node) × List ℕ))
  unfolding read_message
  receive zero bytes c node = returns none
  receive (suc zero) bytes c node = returns (read_message bytes c node)
  receive (suc (suc n)) bytes c node = undefined

  -- At most the given number of messages, one after the other, each of which ends a read; the reads
  -- that its handler has started are under way afterwards.
  unfoldable pub receive_all :
      ℕ → ℕ → List ℕ → Connection → Node → Outcome (ℕ × ((Connection × Node) × List ℕ))
  receive_all zero under_way bytes c node = returns (under_way, ((c, node), bytes))
  receive_all (suc rounds) under_way bytes c node = do
    r ← receive under_way bytes c node
    (elim r [
      | none ↦ returns (under_way, ((c, node), bytes))
      | some ((c', node'), rest) ↦
          receive_all rounds (under_way - 1 + (c'.reads - c.reads)) rest c' node'
    ])

  -- The connection is closed, and a read ends with an error, which handleHeader does not ask for:
  -- what has come is taken for a header, and where it promises a payload, the read of it ends with
  -- an error too, and the payload is empty.
  unfoldable pub receive_closed : List ℕ → Connection → Node → Connection × Node
  receive_closed bytes c node =
      let header = (message_header_from_buffer (buffer_of fresh bytes)).0 in
      handle_message hex here tx_exists block_exists (get_type_from_string header.type) fresh [] c
        node

  -- The given number of reads that end with an error.
  unfoldable pub receive_closed_all : ℕ → Connection → Node → Connection × Node
  receive_closed_all zero c node = (c, node)
  receive_closed_all (suc n) c node =
      let (c', node') = receive_closed [] c node in receive_closed_all n c' node'

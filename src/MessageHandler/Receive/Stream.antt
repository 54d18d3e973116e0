-- ===== src/MessageHandler/Receive/Stream.antt =====
-- Messages that come as one stream of bytes.
use ensicoin_cpp.Connection.{Connection, Local, handle_write}
use ensicoin_cpp.Message.{Message, message_byte_repr}
use ensicoin_cpp.Message.Wire.{
  header_of, header_bytes, header_bytes-read, length-header_bytes, message_byte_repr-header_bytes,
  get_type_from_string-padded,
}
use ensicoin_cpp.MessageHandler.{handle, handle_message}
use ensicoin_cpp.Connection.Reads.{wait_message-reads}
use ensicoin_cpp.MessageHandler.Reads.{handle-reads}
use ensicoin_cpp.MessageHandler.Receive.{
  handle_payload, handle_header, read_message, receive, receive_all,
}
use ensicoin_cpp.NetworkBuffer.{NetworkBuffer, buffer_of}
use ensicoin_cpp.Networkable.{HexDecoder, MessageHeader, header_size, message_header_from_buffer}
use ensicoin_cpp.Networkable.Strings.{zeroed}
use ensicoin_cpp.Node.{Node}
use ensicoin_cpp.Prelude.Outcome.{returns, undefined}
use ensicoin_cpp.Socket.{Socket}
use ensicoin_cpp.Prelude.{
  ℕ, zero, suc, ◌+◌, ◌-◌, ◌^◌, ◌<◌, ◌≤◌, ◌≡◌, refl, sym, ap, ◌∙◌, ltb, Bool, Bool-cases, inl, inr,
  false, none, some, List, [], ◌∷◌, ◌++◌, length, append-nil, append_assoc, All, arith,
}

nothing : (xs : List ℕ) → ltb 0 (length xs) ≡ false → xs ≡ []
nothing [] h = refl
nothing (x ∷ xs) h = absurd (ground arith)

module _ (hex : HexDecoder) (stack : List ℕ) where
  unfoldable pub sent_bytes : List Message → List ℕ
  sent_bytes [] = []
  sent_bytes (m ∷ ms) = message_byte_repr hex stack m ++ sent_bytes ms

  header_of-read :
      (m : Message)
      → length m.payload < 2 ^ 64
      → (message_header_from_buffer (buffer_of zeroed (header_bytes hex stack m))).0
        ≡ header_of hex stack m
  header_of-read m h =
      ap (λ (p : MessageHeader × NetworkBuffer). p.0)
        (rw (append-nil (header_bytes hex stack m)) at (header_bytes-read hex stack m [] h))

module _ (hex : HexDecoder) (here : Local) (tx_exists block_exists : List ℕ → Bool) where
  abbrev handled : Message → Connection → Node → Connection × Node
  handled m c node = handle_message hex here tx_exists block_exists m.type zeroed m.payload c node

  -- What is to happen: the messages are handled one after the other.
  unfoldable pub handle_all : List Message → Connection → Node → Connection × Node
  handle_all [] c node = (c, node)
  handle_all (m ∷ ms) c node = let (c', node') = handled m c node in handle_all ms c' node'

  module _ (socket : Socket) (stack : List ℕ) where
    handle_payload-header_of :
        (m : Message) (rest : List ℕ) (c : Connection) (node : Node)
        → handle_payload socket hex here tx_exists block_exists zeroed
            (header_of hex stack m)
            (m.payload ++ rest)
            c
            node
          ≡ some (handled m c node, rest)
    unfolding handle_payload
    handle_payload-header_of m rest c node = elim (Bool-cases (ltb 0 (length m.payload))) [
      | inl some_bytes ↦ rw (
        some_bytes,
        socket.transfer_exactly-enough m.payload rest,
        get_type_from_string-padded m.type,
      )
      | inr no_bytes ↦
          let empty : m.payload ≡ [] = nothing m.payload no_bytes in
          rw (no_bytes, empty, get_type_from_string-padded m.type)
    ]

    read_message-message_byte_repr :
        (m : Message) (rest : List ℕ) (c : Connection) (node : Node)
        → length m.payload < 2 ^ 64
        → read_message socket hex here tx_exists block_exists zeroed
            (message_byte_repr hex stack m ++ rest)
            c
            node
          ≡ some (handled m c node, rest)
    unfolding read_message handle_header
    read_message-message_byte_repr m rest c node h =
        rw
          (
            message_byte_repr-header_bytes hex stack m rest,
            read,
            read_message,
            header_of-read hex stack m h,
          )
          (handle_payload-header_of m rest c node)
      where
        read :
            socket.transfer_exactly header_size (header_bytes hex stack m ++ (m.payload ++ rest))
            ≡ some (header_bytes hex stack m, m.payload ++ rest)
        read =
            ap
              (λ (n : ℕ).
                socket.transfer_exactly n (header_bytes hex stack m ++ (m.payload ++ rest)))
              (sym (length-header_bytes hex stack m h))
            ∙ socket.transfer_exactly-enough (header_bytes hex stack m) (m.payload ++ rest)

    read_message-short :
        (rest : List ℕ) (c : Connection) (node : Node)
        → length rest < header_size
        → read_message socket hex here tx_exists block_exists zeroed rest c node ≡ none
    unfolding read_message
    read_message-short rest c node h =
        rw (socket.transfer_exactly-short header_size rest h, read_message)

    waits :
        (rounds : ℕ) (rest : List ℕ) (c : Connection) (node : Node)
        → length rest < header_size
        → receive_all socket hex here tx_exists block_exists zeroed rounds 1 rest c node
          ≡ returns (1, ((c, node), rest))
    unfolding receive_all receive
    waits zero rest c node h = refl
    waits (suc rounds) rest c node h = rw (read_message-short rest c node h, receive_all)

    one_again :
        (m : Message) (c : Connection) (node : Node)
        → 1 - 1 + ((handled m c node).0.reads - c.reads) ≡ 1
    unfolding handle_message
    one_again m c node = omega (
      arith,
      wait_message-reads
          (handle hex here tx_exists block_exists m.type (buffer_of zeroed m.payload) c node).0,
      handle-reads hex here tx_exists block_exists m.type (buffer_of zeroed m.payload) c node,
    )

    stream :
        (ms : List Message) (rounds : ℕ) (rest : List ℕ) (c : Connection) (node : Node)
        → All (λ m. length m.payload < 2 ^ 64) ms
        → length ms ≤ rounds
        → length rest < header_size
        → receive_all socket hex here tx_exists block_exists zeroed rounds 1
            (sent_bytes hex stack ms ++ rest)
            c
            node
          ≡ returns (1, (handle_all ms c node, rest))
    unfolding receive_all receive sent_bytes handle_all
    stream [] rounds rest c node hs n h = waits rounds rest c node h
    stream (m ∷ ms) zero rest c node hs n h = absurd (omega arith)
    stream (m ∷ ms) (suc rounds) rest c node hs n h =
        rw
          (
            append_assoc (message_byte_repr hex stack m) (sent_bytes hex stack ms) rest,
            read_message-message_byte_repr m (sent_bytes hex stack ms ++ rest) c node hs.0,
            receive_all,
            one_again m c node,
          )
          (stream ms rounds rest (handled m c node).0 (handled m c node).1 hs.1 (omega arith) h)

    -- The reads under way when a write of the connection ends.
    abbrev pub after_write : ℕ → Connection → ℕ
    after_write under_way c = under_way + ((handle_write c).reads - c.reads)

    second_read :
        (bytes : List ℕ) (c : Connection) (node : Node)
        → receive socket hex here tx_exists block_exists zeroed
            (after_write 1 c)
            bytes
            (handle_write c)
            node
          ≡ undefined
    unfolding receive handle_write
    second_read bytes c node = rw two refl
      where
        two : after_write 1 c ≡ 2
        two = omega (arith, wait_message-reads c)

    -- With one read under way, a stream of bytes of any messages, each with a payload shorter than
    -- 2 ^ 64 bytes, and behind them less than a header, is handled as the messages are, one after the
    -- other, the bytes behind them wait, and one read is under way again; if then a write ends, a
    -- second read is under way besides, and whatever comes next is undefined. No write ends before,
    -- the rounds are at least as many as the messages, and the storage is zeroed.
    pub receive_all-sent_bytes :
        (ms : List Message) (rounds : ℕ) (rest next : List ℕ) (c : Connection) (node : Node)
        → All (λ m. length m.payload < 2 ^ 64) ms
        → length ms ≤ rounds
        → length rest < header_size
        → (receive_all socket hex here tx_exists block_exists zeroed rounds 1
              (sent_bytes hex stack ms ++ rest)
              c
              node
            ≡ returns (1, (handle_all ms c node, rest)))
          × (receive socket hex here tx_exists block_exists zeroed
                (after_write 1 (handle_all ms c node).0)
                (rest ++ next)
                (handle_write (handle_all ms c node).0)
                (handle_all ms c node).1
              ≡ undefined)
    receive_all-sent_bytes ms rounds rest next c node hs n h = (
      stream ms rounds rest c node hs n h,
      second_read (rest ++ next) (handle_all ms c node).0 (handle_all ms c node).1,
    )

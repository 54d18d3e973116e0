-- ===== src/MessageHandler/Receive/Magic.antt =====
-- What handleHeader of src/connection.cpp makes of the magic number.
use ensicoin_cpp.Connection.{Connection, Local}
use ensicoin_cpp.MessageHandler.Receive.{handle_payload, handle_header, read_message, receive}
use ensicoin_cpp.NetworkBuffer.{NetworkBuffer, read_uint64}
use ensicoin_cpp.NetworkBuffer.Reads.{read_uint32-append}
use ensicoin_cpp.Networkable.{
  HexDecoder, MessageHeader, header_size, message_header_from_buffer, fixed_str_from_buffer,
}
use ensicoin_cpp.Node.{Node}
use ensicoin_cpp.Prelude.{
  ℕ, zero, suc, ◌<◌, ◌≡◌, refl, sym, ap, ap₂, ◌∙◌, ltb, Bool, Bool-cases, ltb→lt, inl, inr, true,
  some, List, ◌++◌, length, length-append, append_assoc, cut, All, IsByte, arith,
}
use ensicoin_cpp.Prelude.Outcome.{returns}
use ensicoin_cpp.Socket.{Socket}

module _ (socket : Socket) (hex : HexDecoder) (here : Local)
    (tx_exists block_exists : List ℕ → Bool) (fresh : ℕ → List ℕ) where
  -- The header, once its magic number has been read.
  abbrev after : ℕ × NetworkBuffer → MessageHeader
  after p =
      let (type, b) = fixed_str_from_buffer 12 p.1 in
      record { magic = p.0; type = type; payload_length = (read_uint64 b).0 }

  handle_header-magic :
      (magic magic' front rest : List ℕ) (c : Connection) (node : Node)
      → length magic ≡ 4
      → length magic' ≡ 4
      → All IsByte magic
      → All IsByte magic'
      → handle_header socket hex here tx_exists block_exists fresh (magic ++ front) rest c node
        ≡ handle_header socket hex here tx_exists block_exists fresh (magic' ++ front) rest c node
  unfolding handle_header message_header_from_buffer handle_payload
  handle_header-magic magic magic' front rest c node l l' b b' =
      ap (λ p. handle_payload socket hex here tx_exists block_exists fresh (after p) rest c node)
        (read_uint32-append fresh front magic l b)
      ∙ sym (
          ap
            (λ p. handle_payload socket hex here tx_exists block_exists fresh (after p) rest c node)
            (read_uint32-append fresh front magic' l' b'))

  read_message-magic :
      (magic magic' rest : List ℕ) (c : Connection) (node : Node)
      → length magic ≡ 4
      → length magic' ≡ 4
      → All IsByte magic
      → All IsByte magic'
      → read_message socket hex here tx_exists block_exists fresh (magic ++ rest) c node
        ≡ read_message socket hex here tx_exists block_exists fresh (magic' ++ rest) c node
  unfolding read_message
  read_message-magic magic magic' rest c node l l' b b' = elim (Bool-cases (ltb (length rest) 20)) [
    | inl few ↦
        rw
          (
            read_message,
            socket.transfer_exactly-short header_size (magic ++ rest) (short magic l few),
            socket.transfer_exactly-short header_size (magic' ++ rest) (short magic' l' few),
          )
          refl
    | inr enough ↦
        let (front, back, e, n) = cut 20 rest (ground arith) in
        rw (read_message, e, whole magic front back l n, whole magic' front back l' n)
          (handle_header-magic magic magic' front back c node l l' b b')
  ]
    where
      short :
          (m : List ℕ)
          → length m ≡ 4
          → ltb (length rest) 20 ≡ true
          → length (m ++ rest) < header_size
      short m k few = omega (arith, length-append m rest, ltb→lt (length rest) 20 few)

      whole :
          (m front back : List ℕ)
          → length m ≡ 4
          → length front ≡ 20
          → socket.transfer_exactly header_size (m ++ (front ++ back)) ≡ some (m ++ front, back)
      whole m front back k n =
          let len : length (m ++ front) ≡ header_size = omega (arith, length-append m front) in
          ap₂ socket.transfer_exactly (sym len) (sym (append_assoc m front back))
          ∙ socket.transfer_exactly-enough (m ++ front) back

  -- The magic number of a message does not matter: whatever four bytes stand in its place before any
  -- other bytes, and however many reads are under way, what is done is what is done with any other
  -- four.
  pub receive-magic :
      (under_way : ℕ) (magic magic' rest : List ℕ) (c : Connection) (node : Node)
      → length magic ≡ 4
      → length magic' ≡ 4
      → All IsByte magic
      → All IsByte magic'
      → receive socket hex here tx_exists block_exists fresh under_way (magic ++ rest) c node
        ≡ receive socket hex here tx_exists block_exists fresh under_way (magic' ++ rest) c node
  unfolding receive
  receive-magic zero magic magic' rest c node l l' b b' = refl
  receive-magic (suc zero) magic magic' rest c node l l' b b' =
      ap returns (read_message-magic magic magic' rest c node l l' b b')
  receive-magic (suc (suc n)) magic magic' rest c node l l' b b' = refl

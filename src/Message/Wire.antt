-- ===== src/Message/Wire.antt =====
-- A message sent, as the peer reads it.
use ensicoin_cpp.Constants.{magic_number}
use ensicoin_cpp.Message.{
  Message, MessageType, whoami, whoamiack, getaddr, addr, inv, getdata, notfound, block, tx,
  getblocks, getmempool, unknown, get_type_from_string, padded_type, message_byte_repr,
}
use ensicoin_cpp.NetworkBuffer.{buffer_of, overwrite, c_string, new_storage}
use ensicoin_cpp.NetworkBuffer.Strings.{read_str-append}
use ensicoin_cpp.Networkable.{
  HexDecoder, MessageHeader, header_size, fixed_str, fixed_str_from_buffer,
  message_header_byte_repr, message_header_from_buffer, uint32_byte_repr, uint64_byte_repr,
}
use ensicoin_cpp.Networkable.Hex.{uint32_byte_repr-bytes, uint64_byte_repr-bytes}
use ensicoin_cpp.Networkable.Integers.{read_uint32-byte_repr, read_uint64-byte_repr}
use ensicoin_cpp.Networkable.Strings.{zeroed, fixed_str_exact}
use ensicoin_cpp.Prelude.{
  ℕ, ◌^◌, ◌<◌, ◌≡◌, refl, sym, ap, ◌∙◌, List, [], ◌++◌, length, length-append, be_bytes,
  length-be_bytes, drop, append_assoc, arith,
}

-- The name of a type, padded to 12 bytes, is read as this type.
pub get_type_from_string-padded : (t : MessageType) → get_type_from_string (padded_type t) ≡ t
unfolding get_type_from_string padded_type
get_type_from_string-padded whoami = refl
get_type_from_string-padded whoamiack = refl
get_type_from_string-padded getaddr = refl
get_type_from_string-padded addr = refl
get_type_from_string-padded inv = refl
get_type_from_string-padded getdata = refl
get_type_from_string-padded notfound = refl
get_type_from_string-padded block = refl
get_type_from_string-padded tx = refl
get_type_from_string-padded getblocks = refl
get_type_from_string-padded getmempool = refl
get_type_from_string-padded unknown = refl

length-padded_type : (t : MessageType) → length (padded_type t) ≡ 12
unfolding padded_type
length-padded_type whoami = refl
length-padded_type whoamiack = refl
length-padded_type getaddr = refl
length-padded_type addr = refl
length-padded_type inv = refl
length-padded_type getdata = refl
length-padded_type notfound = refl
length-padded_type block = refl
length-padded_type tx = refl
length-padded_type getblocks = refl
length-padded_type getmempool = refl
length-padded_type unknown = refl

-- Cut at its first 0 and padded again.
refill_type :
    (t : MessageType) → fixed_str 12 (overwrite (c_string (padded_type t ++ [])) []) ≡ padded_type t
unfolding padded_type fixed_str c_string
refill_type whoami = refl
refill_type whoamiack = refl
refill_type getaddr = refl
refill_type addr = refl
refill_type inv = refl
refill_type getdata = refl
refill_type notfound = refl
refill_type block = refl
refill_type tx = refl
refill_type getblocks = refl
refill_type getmempool = refl
refill_type unknown = refl

read_type :
    (t : MessageType) (rest : List ℕ)
    → fixed_str_from_buffer 12 (buffer_of zeroed (padded_type t ++ rest))
      ≡ (padded_type t, buffer_of zeroed rest)
unfolding fixed_str_from_buffer new_storage
read_type t rest =
    rw
      (rw (length-padded_type t) at
        (read_str-append zeroed rest (padded_type t) (omega (arith, length-padded_type t))))
      (ap (λ (s : List ℕ). (s, buffer_of zeroed rest)) (refill_type t))

written_type :
    (t : MessageType) (stack : List ℕ)
    → fixed_str 12 (overwrite (padded_type t) stack) ≡ padded_type t
written_type t stack =
    ap (λ (k : ℕ). fixed_str k (overwrite (padded_type t) stack)) (sym (length-padded_type t))
    ∙ fixed_str_exact (padded_type t) (drop (length (padded_type t)) stack)

module _ (hex : HexDecoder) (stack : List ℕ) where
  -- The header of a message, as it is sent and as it is read.
  abbrev pub header_of : Message → MessageHeader
  header_of m = record {
    magic = magic_number;
    type = padded_type m.type;
    payload_length = length m.payload;
  }

  pub header_bytes : Message → List ℕ
  header_bytes m = message_header_byte_repr hex stack (header_of m)

  pub header_bytes-read :
      (m : Message) (rest : List ℕ)
      → length m.payload < 2 ^ 64
      → message_header_from_buffer (buffer_of zeroed (header_bytes m ++ rest))
        ≡ (header_of m, buffer_of zeroed rest)
  unfolding message_header_from_buffer message_header_byte_repr header_bytes
  header_bytes-read m rest h = rw (
    written_type m.type stack,
    append_assoc (uint32_byte_repr hex magic_number) (padded_type m.type ++ size) rest,
    read_uint32-byte_repr hex zeroed ((padded_type m.type ++ size) ++ rest) magic_number
        (omega arith),
    append_assoc (padded_type m.type) size rest,
    read_type m.type (size ++ rest),
    read_uint64-byte_repr hex zeroed rest (length m.payload) h,
  )
    where
      size : List ℕ
      size = uint64_byte_repr hex (length m.payload)

  pub length-header_bytes :
      (m : Message) → length m.payload < 2 ^ 64 → length (header_bytes m) ≡ header_size
  unfolding message_header_byte_repr header_bytes
  length-header_bytes m h =
      rw
        (
          written_type m.type stack,
          uint32_byte_repr-bytes hex magic_number (omega arith),
          uint64_byte_repr-bytes hex (length m.payload) h,
        )
        (omega (
          arith,
          length-append (be_bytes 4 magic_number)
              (padded_type m.type ++ be_bytes 8 (length m.payload)),
          length-append (padded_type m.type) (be_bytes 8 (length m.payload)),
          length-be_bytes 4 magic_number,
          length-be_bytes 8 (length m.payload),
          length-padded_type m.type,
        ))

  pub message_byte_repr-header_bytes :
      (m : Message) (rest : List ℕ)
      → message_byte_repr hex stack m ++ rest ≡ header_bytes m ++ (m.payload ++ rest)
  unfolding message_byte_repr header_bytes
  message_byte_repr-header_bytes m rest =
      append_assoc (message_header_byte_repr hex stack (header_of m)) m.payload rest

  -- Of a message whose payload is shorter than 2 ^ 64 bytes the peer reads the header that was sent
  -- (the magic number, the type and the length of the payload), the storage being zeroed; it is
  -- left with the payload and what follows, and with the message's own type.
  pub message_header-message :
      (m : Message) (rest : List ℕ)
      → length m.payload < 2 ^ 64
      → (message_header_from_buffer (buffer_of zeroed (message_byte_repr hex stack m ++ rest)) ≡ (
        record {
          magic = magic_number;
          type = padded_type m.type;
          payload_length = length m.payload;
        },
        buffer_of zeroed (m.payload ++ rest),
      ))
        × (get_type_from_string (padded_type m.type) ≡ m.type)
  message_header-message m rest h = (
    rw (message_byte_repr-header_bytes m rest) (header_bytes-read m (m.payload ++ rest) h),
    get_type_from_string-padded m.type,
  )

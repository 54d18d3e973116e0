-- ===== src/Message/Payloads.antt =====
-- The payloads of messages, as the peer reads them.
use ensicoin_cpp.Message.{WhoAmI, who_am_i_from_buffer, who_am_i_message}
use ensicoin_cpp.NetworkBuffer.{buffer_of, read_str, c_string, overwrite, new_storage}
use ensicoin_cpp.NetworkBuffer.Strings.{read_str-append}
use ensicoin_cpp.Networkable.{
  HexDecoder, Address, fixed_str, fixed_str_from_buffer, address_from_buffer, address_byte_repr,
  uint16_byte_repr, uint32_byte_repr, uint64_byte_repr, var_str_byte_repr, var_array_byte_repr,
}
use ensicoin_cpp.Networkable.Integers.{
  read_uint16-byte_repr, read_uint32-byte_repr, read_uint64-byte_repr,
}
use ensicoin_cpp.Networkable.Strings.{zeroed}
use ensicoin_cpp.Prelude.{
  ℕ, ◌^◌, ◌<◌, ◌≡◌, sym, ap, ◌∙◌, List, [], ◌++◌, length, drop-nil, All, append-nil, append_assoc,
  arith,
}
use ensicoin_cpp.Transaction.RoundTrip.{IsSendable, IsSendableCount, flags-RoundTrips}

-- What a peer makes of the 16 bytes of an address: those before the first 0, and zeroes behind.
abbrev pub cut_ip : List ℕ → List ℕ
cut_ip ip = fixed_str 16 (c_string ip)

overwrite-nothing : (bs : List ℕ) → overwrite bs [] ≡ bs
overwrite-nothing bs = rw (drop-nil (length bs)) (append-nil bs)

read_16 :
    (ip rest : List ℕ)
    → length ip ≡ 16
    → read_str 16 (buffer_of zeroed (ip ++ rest)) ≡ (c_string ip, buffer_of zeroed rest)
read_16 ip rest e =
    ap (λ (k : ℕ). read_str k (buffer_of zeroed (ip ++ rest))) (sym e)
    ∙ read_str-append zeroed rest ip (omega (arith, e))
    ∙ ap (λ (s : List ℕ). (c_string s, buffer_of zeroed rest)) (overwrite-nothing ip)

read_ip :
    (ip rest : List ℕ)
    → length ip ≡ 16
    → fixed_str_from_buffer 16 (buffer_of zeroed (ip ++ rest)) ≡ (cut_ip ip, buffer_of zeroed rest)
unfolding fixed_str_from_buffer new_storage
read_ip ip rest e =
    rw (read_16 ip rest e) (
      ap (λ (s : List ℕ). (fixed_str 16 s, buffer_of zeroed rest))
        (overwrite-nothing (c_string ip)))

-- The numbers of an address in range, and its 16 bytes.
pub record IsAddress (a : Address) : Type 0 where
  pub timestamp : a.timestamp < 2 ^ 64
  pub full : length a.address ≡ 16
  pub port : a.port < 2 ^ 16

abbrev pub cut_address : Address → Address
cut_address a = record a { address = cut_ip a.address }

module _ (hex : HexDecoder) where
  pub read_address :
      (a : Address) (rest : List ℕ)
      → IsAddress a
      → address_from_buffer (buffer_of zeroed (address_byte_repr hex a ++ rest))
        ≡ (cut_address a, buffer_of zeroed rest)
  unfolding address_from_buffer address_byte_repr
  read_address a rest s = rw (
    append_assoc (uint64_byte_repr hex a.timestamp) (a.address ++ uint16_byte_repr hex a.port) rest,
    read_uint64-byte_repr hex zeroed ((a.address ++ uint16_byte_repr hex a.port) ++ rest)
        a.timestamp s.timestamp,
    append_assoc a.address (uint16_byte_repr hex a.port) rest,
    read_ip a.address (uint16_byte_repr hex a.port ++ rest) s.full,
    read_uint16-byte_repr hex zeroed rest a.port s.port,
  )

  -- A WhoAmI whose version and address are in range and whose services the format can carry is read
  -- as it was sent but for the bytes of its address: those from the first 0 on are read as 0. What
  -- follows it is left; the storage is zeroed.
  pub who_am_i_from_buffer-payload :
      (w : WhoAmI) (rest : List ℕ)
      → w.version < 2 ^ 32
      → IsAddress w.address
      → All IsSendable w.services
      → IsSendableCount (length w.services)
      → who_am_i_from_buffer (buffer_of zeroed ((who_am_i_message hex w).payload ++ rest))
        ≡ (record w { address = cut_address w.address }, buffer_of zeroed rest)
  unfolding who_am_i_from_buffer who_am_i_message
  who_am_i_from_buffer-payload w rest v a s n = rw (
    append_assoc (uint32_byte_repr hex w.version) (address ++ services) rest,
    read_uint32-byte_repr hex zeroed ((address ++ services) ++ rest) w.version v,
    append_assoc address services rest,
    read_address w.address (services ++ rest) a,
    flags-RoundTrips hex w.services s n rest,
  )
    where
      address : List ℕ
      address = address_byte_repr hex w.address

      services : List ℕ
      services = var_array_byte_repr hex (var_str_byte_repr hex) w.services

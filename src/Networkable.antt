-- ===== src/Networkable.antt =====
-- include/networkable.hpp and src/networkable.cpp: the values that travel as bytes. A std::string is
-- the list of its bytes.
pub mod Hex
pub mod Integers
pub mod Strings
pub mod Inventory
use ensicoin_cpp.Prelude.{
  ℕ, zero, suc, ◌+◌, ◌-◌, ◌*◌, ◌/◌, ◌%◌, ◌<◌, ◌≡◌, ltb, leb, ◌==◌, if◌then◌else◌, Bool, true, false,
  List, [], ◌∷◌, ◌++◌, length, drop, replicate, codes,
}
use ensicoin_cpp.NetworkBuffer.{
  NetworkBuffer, Reader, ◌>>=◌, pure, read_uint16, read_uint32, read_uint64, read_var_uint,
  read_str, new_storage, overwrite,
}

-- The lower-case digit that an ostream writes under std::hex.
abbrev pub hex_digit : ℕ → ℕ
hex_digit d = if ltb d 10 then 48 + d else 87 + d

-- CryptoPP::HexDecoder, which the program calls: two digits give a byte.
pub record HexDecoder : Type 0 where
  pub decode : List ℕ → List ℕ
  pub decode-nil : decode [] ≡ []
  pub decode-digits :
      (a b : ℕ) (rest : List ℕ)
      → a < 16
      → b < 16
      → decode (hex_digit a ∷ hex_digit b ∷ rest) ≡ (a * 16 + b) ∷ decode rest

-- `os << std::hex << value`; a 64-bit value has at most 16 digits.
unfoldable pub print_hex : ℕ → ℕ → List ℕ
print_hex zero v = []
print_hex (suc n) v =
    let high = print_hex n (v / 16) in
    if ltb v 16 then hex_digit v ∷ [] else high ++ hex_digit (v % 16) ∷ []

-- std::setfill('0') with std::setw(width), and `std::string(width - s.length(), '0') + s`.
abbrev pub pad_left : ℕ → List ℕ → List ℕ
pad_left width s = replicate (width - length s) 48 ++ s

-- FixedStr<size>(val): the bytes of val are written over an uninitialised array. A longer val is
-- written past its end, which C++ leaves undefined; those bytes are left out here.
unfoldable pub fixed_str : ℕ → List ℕ → List ℕ
fixed_str zero bytes = []
fixed_str (suc size) [] = 0 ∷ fixed_str size []
fixed_str (suc size) (c ∷ cs) = c ∷ fixed_str size cs

-- `type` of an Inv_vect, and the numbers of its enumerators.
pub data RessourceType : Type 0 where
  block_res tx_res invalid_res : RessourceType

abbrev pub res_number : RessourceType → ℕ
res_number block_res = 0
res_number tx_res = 1
res_number invalid_res = 2

pub record InvVect : Type 0 where
  pub type : RessourceType
  pub hash : List ℕ

pub record Address : Type 0 where
  pub timestamp : ℕ
  pub address : List ℕ
  pub port : ℕ

-- The bytes of a header.
abbrev pub header_size : ℕ
header_size = 4 + 12 + 8

pub record MessageHeader : Type 0 where
  pub magic : ℕ
  pub type : List ℕ
  pub payload_length : ℕ

-- `byteRepr()` of each class, for the HexDecoder that Networkable::encode uses.
module _ (hex : HexDecoder) where
  unfoldable pub encode : List ℕ → List ℕ
  encode hex_repr = hex.decode hex_repr

  unfoldable pub uint16_byte_repr : ℕ → List ℕ
  uint16_byte_repr value = encode (pad_left 4 (print_hex 16 value))

  unfoldable pub uint32_byte_repr : ℕ → List ℕ
  uint32_byte_repr value = encode (pad_left 8 (print_hex 16 value))

  unfoldable pub uint64_byte_repr : ℕ → List ℕ
  uint64_byte_repr value = encode (pad_left 16 (print_hex 16 value))

  -- 102, 100 and 101 are 'f', 'd' and 'e'.
  unfoldable pub var_uint_byte_repr : ℕ → List ℕ
  var_uint_byte_repr value =
      let raw_str = print_hex 16 value in
      encode (
        if leb value 252
        then pad_left 2 raw_str
        else if leb value 0xffff
        then 102 ∷ 100 ∷ pad_left 4 raw_str
        else if leb value 0xffffffff
        then 102 ∷ 101 ∷ pad_left 8 raw_str
        else 102 ∷ 102 ∷ pad_left 16 raw_str)

  unfoldable pub var_str_byte_repr : List ℕ → List ℕ
  var_str_byte_repr value = var_uint_byte_repr (length value) ++ value

  unfoldable pub elements_byte_repr : {A : Type 0} → (A → List ℕ) → List A → List ℕ
  elements_byte_repr element [] = []
  elements_byte_repr element (x ∷ xs) = element x ++ elements_byte_repr element xs

  unfoldable pub var_array_byte_repr : {A : Type 0} → (A → List ℕ) → List A → List ℕ
  unfolding elements_byte_repr
  var_array_byte_repr element values =
      var_uint_byte_repr (length values) ++ elements_byte_repr element values

  unfoldable pub inv_vect_byte_repr : InvVect → List ℕ
  inv_vect_byte_repr v = elim v.type [
    | invalid_res ↦ codes "INVALID RESSOURCE"
    | _ ↦ uint32_byte_repr (res_number v.type) ++ v.hash
  ]

  unfoldable pub address_byte_repr : Address → List ℕ
  address_byte_repr a = uint64_byte_repr a.timestamp ++ (a.address ++ uint16_byte_repr a.port)

  -- `stack` is what stands in the array of FixedStr<12>(type) before it is written.
  unfoldable pub message_header_byte_repr : List ℕ → MessageHeader → List ℕ
  message_header_byte_repr stack h =
      uint32_byte_repr h.magic
      ++ (fixed_str 12 (overwrite h.type stack) ++ uint64_byte_repr h.payload_length)

-- The constructors from a NetworkBuffer. Uint16, Uint32, Uint64, Var_uint and Str hold what
-- `read_uint16`, `read_uint32`, `read_uint64`, `read_var_uint` and `read_str` return.
unfoldable pub fixed_str_from_buffer : ℕ → Reader (List ℕ)
fixed_str_from_buffer size = do
  val ← read_str size
  storage ← new_storage
  pure (fixed_str size (overwrite val storage))

unfoldable pub var_str_from_buffer : Reader (List ℕ)
var_str_from_buffer = do size ← read_var_uint; read_str size

-- `for (i = 0; i < size; ++i) data.push_back(T(networkBuffer))`
unfoldable pub read_elements : {A : Type 0} → Reader A → ℕ → Reader (List A)
read_elements element zero = pure []
read_elements element (suc n) = do x ← element; xs ← read_elements element n; pure (x ∷ xs)

unfoldable pub var_array_from_buffer : {A : Type 0} → Reader A → Reader (List A)
unfolding read_elements
var_array_from_buffer element = do size ← read_var_uint; read_elements element size

abbrev pub res_of_number : ℕ → RessourceType
res_of_number n = if n == 0 then tx_res else if n == 1 then block_res else invalid_res

unfoldable pub inv_vect_from_buffer : Reader InvVect
inv_vect_from_buffer = do
  type_int ← read_uint32
  hash ← read_str 32
  pure (record { type = res_of_number type_int; hash = hash })

unfoldable pub address_from_buffer : Reader Address
address_from_buffer = do
  timestamp ← read_uint64
  address ← fixed_str_from_buffer 16
  port ← read_uint16
  pure (record { timestamp = timestamp; address = address; port = port })

unfoldable pub message_header_from_buffer : Reader MessageHeader
message_header_from_buffer = do
  magic ← read_uint32
  type ← fixed_str_from_buffer 12
  payload_length ← read_uint64
  pure (record { magic = magic; type = type; payload_length = payload_length })

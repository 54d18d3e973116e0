-- ===== src/Block.antt =====
-- include/blocks.hpp, src/blocks.cpp, include/target.hpp and src/target.cpp: blocks, their headers and
-- targets.
pub mod RoundTrip
pub mod Target
use ensicoin_cpp.Constants.{hash_length}
use ensicoin_cpp.Crypto.{Crypto}
use ensicoin_cpp.Json.{Json, text, int, uint, array, object, items_of, members_of}
use ensicoin_cpp.NetworkBuffer.{Reader, ◌>>=◌, pure, read_uint32, read_uint64, overwrite}
use ensicoin_cpp.Networkable.{
  HexDecoder, fixed_str, fixed_str_from_buffer, uint32_byte_repr, uint64_byte_repr,
  var_str_byte_repr, var_str_from_buffer, var_array_byte_repr, var_array_from_buffer,
}
use ensicoin_cpp.Prelude.{
  ℕ, ◌+◌, ◌-◌, ◌*◌, ◌/◌, ◌%◌, ◌^◌, ltb, Bool, true, List, [], ◌∷◌, ◌++◌, codes,
}
use ensicoin_cpp.Prelude.Int.{ℤ, to_int, to_int64, ltb_ℤ}
use ensicoin_cpp.Transaction.{
  Transaction, transaction_byte_repr, transaction_from_buffer, transaction_json,
}

-- The CryptoPP::Integer of a BlockTarget, which is never negative.
pub record BlockTarget : Type 0 where
  pub value : ℕ

-- `8 * ((compressed >> 24) - 3)` in an unsigned int.
unfoldable pub shift_count : ℕ → ℕ
shift_count compressed = 8 * (compressed / 2 ^ 24 + (2 ^ 32 - 3)) % 2 ^ 32

unfoldable pub decompress : ℕ → ℕ
decompress compressed = compressed % 2 ^ 24 * 2 ^ shift_count compressed

unfoldable pub target_from_buffer : Reader BlockTarget
target_from_buffer = do compressed ← read_uint32; pure (record { value = decompress compressed })

-- getValue, which is to be fixed.
unfoldable pub compressed_value : BlockTarget → ℕ
compressed_value target = 0

unfoldable pub target_byte_repr : HexDecoder → BlockTarget → List ℕ
target_byte_repr hex target = uint32_byte_repr hex (compressed_value target)

-- `version` is an int and `timestamp` a time_t of 64 bits; the model holds their bit patterns.
pub record BlockHeader : Type 0 where
  pub version : ℕ
  pub block_flags : List (List ℕ)
  pub hash_prev_block : List ℕ
  pub merkle_root : List ℕ
  pub timestamp : ℕ
  pub height : ℕ
  pub target : BlockTarget
  pub nonce : ℕ

pub record Block : Type 0 where
  pub header : BlockHeader
  pub transactions : List Transaction

-- `a.header.timestamp < b.header.timestamp`.
unfoldable pub time_comparaison : Block → Block → Bool
time_comparaison a b = ltb_ℤ (to_int64 a.header.timestamp) (to_int64 b.header.timestamp)

unfoldable pub header_from_buffer : Reader BlockHeader
header_from_buffer = do
  version ← read_uint32
  block_flags ← var_array_from_buffer var_str_from_buffer
  hash_prev_block ← fixed_str_from_buffer hash_length
  merkle_root ← fixed_str_from_buffer hash_length
  timestamp ← read_uint64
  height ← read_uint32
  target ← target_from_buffer
  nonce ← read_uint64
  pure (record {
    version = version;
    block_flags = block_flags;
    hash_prev_block = hash_prev_block;
    merkle_root = merkle_root;
    timestamp = timestamp;
    height = height;
    target = target;
    nonce = nonce;
  })

unfoldable pub block_from_buffer : Reader Block
block_from_buffer = do
  header ← header_from_buffer
  transactions ← var_array_from_buffer transaction_from_buffer
  pure (record { header = header; transactions = transactions })

-- `byteRepr()`; `stack` stands in the array of each Hash.
module _ (hex : HexDecoder) (stack : List ℕ) where
  unfoldable pub header_byte_repr : BlockHeader → List ℕ
  header_byte_repr h =
      uint32_byte_repr hex h.version
      ++ (var_array_byte_repr hex (var_str_byte_repr hex) h.block_flags
          ++ (fixed_str hash_length (overwrite h.hash_prev_block stack)
              ++ (fixed_str hash_length (overwrite h.merkle_root stack)
                  ++ (uint64_byte_repr hex h.timestamp
                      ++ (uint32_byte_repr hex h.height
                          ++ (target_byte_repr hex h.target ++ uint64_byte_repr hex h.nonce))))))

  unfoldable pub block_byte_repr : Block → List ℕ
  block_byte_repr b =
      header_byte_repr b.header
      ++ var_array_byte_repr hex (transaction_byte_repr hex stack) b.transactions

  unfoldable pub block_hash : Crypto → Block → List ℕ
  block_hash crypto b = crypto.sha256 (crypto.sha256 (header_byte_repr b.header))

  -- `integer` is CryptoPP::Integer of the hexadecimal digits of a string.
  unfoldable pub integer_hash : Crypto → (List ℕ → ℕ) → Block → ℕ
  integer_hash crypto integer b = integer (block_hash crypto b)

  -- `blockInferior` of the target.
  unfoldable pub block_inferior : Crypto → (List ℕ → ℕ) → BlockTarget → Block → Bool
  block_inferior crypto integer target b = ltb (integer_hash crypto integer b) target.value

-- `validate` of a Block.
unfoldable pub validate_block : Block → Bool
validate_block b = true

unfoldable pub block_json : Block → Json
block_json b = object (
    members_of (
      (codes "version", int (to_int b.header.version))
      ∷ (codes "flags", array (items_of text b.header.block_flags))
      ∷ (codes "hashPrevBlock", text b.header.hash_prev_block)
      ∷ (codes "merkleRoot", text b.header.merkle_root)
      ∷ (codes "timestamp", int (to_int64 b.header.timestamp))
      ∷ (codes "nonce", uint b.header.nonce)
      ∷ (codes "transactions", array (items_of transaction_json b.transactions))
      ∷ []))

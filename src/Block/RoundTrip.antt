-- ===== src/Block/RoundTrip.antt =====
-- Blocks sent and received.
use ensicoin_cpp.Block.{
  BlockTarget, BlockHeader, Block, decompress, target_from_buffer, target_byte_repr,
  compressed_value, header_from_buffer, header_byte_repr, block_from_buffer, block_byte_repr,
  block_hash,
}
use ensicoin_cpp.Crypto.{Crypto}
use ensicoin_cpp.NetworkBuffer.{buffer_of, overwrite}
use ensicoin_cpp.Networkable.{
  HexDecoder, fixed_str, uint32_byte_repr, uint64_byte_repr, var_str_byte_repr, var_array_byte_repr,
}
use ensicoin_cpp.Networkable.Integers.{read_uint32-byte_repr, read_uint64-byte_repr}
use ensicoin_cpp.Networkable.Strings.{zeroed, var_array-RoundTrips}
use ensicoin_cpp.Prelude.{ℕ, ◌^◌, ◌<◌, ◌≡◌, refl, List, ◌++◌, length, All, append_assoc, arith}
use ensicoin_cpp.Transaction.{transaction_from_buffer, transaction_byte_repr}
use ensicoin_cpp.Transaction.RoundTrip.{
  IsSendable, IsSendableHash, IsSendableCount, IsSendableTransaction, All-map, flags-RoundTrips,
  written_hash, read_hash_field, transaction-RoundTrips,
}
use native.Mathlib.Nat.{zero-mul}

-- What the format can carry.
pub record IsSendableHeader (h : BlockHeader) : Type 0 where
  pub version : h.version < 2 ^ 32
  pub flag_count : IsSendableCount (length h.block_flags)
  pub flags : All IsSendable h.block_flags
  pub hash_prev_block : IsSendableHash h.hash_prev_block
  pub merkle_root : IsSendableHash h.merkle_root
  pub timestamp : h.timestamp < 2 ^ 64
  pub height : h.height < 2 ^ 32
  pub nonce : h.nonce < 2 ^ 64

pub record IsSendableBlock (b : Block) : Type 0 where
  pub header : IsSendableHeader b.header
  pub transaction_count : IsSendableCount (length b.transactions)
  pub transactions : All IsSendableTransaction b.transactions

-- A header with the target 0.
abbrev pub without_target : BlockHeader → BlockHeader
without_target h = record h { target = record { value = 0 } }

read_target :
    (hex : HexDecoder) (target : BlockTarget) (rest : List ℕ)
    → target_from_buffer (buffer_of zeroed (target_byte_repr hex target ++ rest))
      ≡ (record { value = 0 }, buffer_of zeroed rest)
unfolding target_from_buffer target_byte_repr compressed_value decompress
read_target hex target rest = rw (read_uint32-byte_repr hex zeroed rest 0 (omega arith), zero-mul)

module _ (hex : HexDecoder) (stack : List ℕ) where
  read_header :
      (h : BlockHeader) (rest : List ℕ)
      → IsSendableHeader h
      → header_from_buffer (buffer_of zeroed (header_byte_repr hex stack h ++ rest))
        ≡ (without_target h, buffer_of zeroed rest)
  unfolding header_from_buffer header_byte_repr
  read_header h rest s = rw (
    append_assoc version (flags ++ (prev ++ (root ++ (time ++ (height ++ (target ++ nonce))))))
        rest,
    read_uint32-byte_repr hex zeroed
        ((flags ++ (prev ++ (root ++ (time ++ (height ++ (target ++ nonce)))))) ++ rest) h.version
        s.version,
    append_assoc flags (prev ++ (root ++ (time ++ (height ++ (target ++ nonce))))) rest,
    flags-RoundTrips hex h.block_flags s.flags s.flag_count
        ((prev ++ (root ++ (time ++ (height ++ (target ++ nonce))))) ++ rest),
    append_assoc prev (root ++ (time ++ (height ++ (target ++ nonce)))) rest,
    written_hash h.hash_prev_block stack s.hash_prev_block,
    read_hash_field h.hash_prev_block ((root ++ (time ++ (height ++ (target ++ nonce)))) ++ rest)
        s.hash_prev_block,
    append_assoc root (time ++ (height ++ (target ++ nonce))) rest,
    written_hash h.merkle_root stack s.merkle_root,
    read_hash_field h.merkle_root ((time ++ (height ++ (target ++ nonce))) ++ rest) s.merkle_root,
    append_assoc time (height ++ (target ++ nonce)) rest,
    read_uint64-byte_repr hex zeroed ((height ++ (target ++ nonce)) ++ rest) h.timestamp
        s.timestamp,
    append_assoc height (target ++ nonce) rest,
    read_uint32-byte_repr hex zeroed ((target ++ nonce) ++ rest) h.height s.height,
    append_assoc target nonce rest,
    read_target hex h.target (nonce ++ rest),
    read_uint64-byte_repr hex zeroed rest h.nonce s.nonce,
  )
    where
      version : List ℕ
      version = uint32_byte_repr hex h.version

      flags : List ℕ
      flags = var_array_byte_repr hex (var_str_byte_repr hex) h.block_flags

      prev : List ℕ
      prev = fixed_str 32 (overwrite h.hash_prev_block stack)

      root : List ℕ
      root = fixed_str 32 (overwrite h.merkle_root stack)

      time : List ℕ
      time = uint64_byte_repr hex h.timestamp

      height : List ℕ
      height = uint32_byte_repr hex h.height

      target : List ℕ
      target = target_byte_repr hex h.target

      nonce : List ℕ
      nonce = uint64_byte_repr hex h.nonce

  pub read_block :
      (b : Block) (rest : List ℕ)
      → IsSendableBlock b
      → block_from_buffer (buffer_of zeroed (block_byte_repr hex stack b ++ rest))
        ≡ (record b { header = without_target b.header }, buffer_of zeroed rest)
  unfolding block_from_buffer block_byte_repr
  read_block b rest s = rw (
    append_assoc (header_byte_repr hex stack b.header) transactions rest,
    read_header b.header (transactions ++ rest) s.header,
    var_array-RoundTrips hex transaction_from_buffer (transaction_byte_repr hex stack)
        b.transactions
        (All-map IsSendableTransaction _ b.transactions (transaction-RoundTrips hex stack)
          s.transactions)
        s.transaction_count.fits s.transaction_count.unskipped rest,
  )
    where
      transactions : List ℕ
      transactions = var_array_byte_repr hex (transaction_byte_repr hex stack) b.transactions

  pub same_hash :
      (crypto : Crypto) (b : Block)
      → block_hash hex stack crypto (record b { header = without_target b.header })
        ≡ block_hash hex stack crypto b
  unfolding block_hash header_byte_repr target_byte_repr compressed_value
  same_hash crypto b = refl

  -- A block whose parts the format can carry is read with the target 0 and is otherwise the block that
  -- was sent, what follows it is left, and its hash is the hash of the block that was sent; the storage
  -- is zeroed.
  pub block_from_buffer-block_byte_repr :
      (crypto : Crypto) (b : Block) (rest : List ℕ)
      → IsSendableBlock b
      → (block_from_buffer (buffer_of zeroed (block_byte_repr hex stack b ++ rest))
          ≡ (record b { header = without_target b.header }, buffer_of zeroed rest))
        × (block_hash hex stack crypto (record b { header = without_target b.header })
            ≡ block_hash hex stack crypto b)
  block_from_buffer-block_byte_repr crypto b rest s = (read_block b rest s, same_hash crypto b)

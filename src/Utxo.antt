-- ===== src/Utxo.antt =====
-- include/utxo.hpp and src/utxo.cpp: the database of unspent outputs.
pub mod Entries
pub mod Refinement
use ensicoin_cpp.Constants.{hash_length}
use ensicoin_cpp.LevelDb.{LevelDb}
use ensicoin_cpp.NetworkBuffer.{
  NetworkBuffer, Reader, ◌>>=◌, pure, buffer_of, read_uint16, read_uint32, read_uint64,
}
use ensicoin_cpp.Networkable.{
  HexDecoder, uint16_byte_repr, uint32_byte_repr, uint64_byte_repr, fixed_str_from_buffer,
}
use ensicoin_cpp.Prelude.{
  ℕ, ◌+◌, ◌^◌, leb, ◌==◌, if◌then◌else◌, Bool, true, false, ◌||◌, not, Option, none, some, List, [],
  ◌∷◌, ◌++◌,
}
use ensicoin_cpp.Prelude.Int.{ℤ, pos_part, neg_part, to_int}
use ensicoin_cpp.Prelude.Outcome.{Outcome, returns, undefined}
use ensicoin_cpp.Script.{Script, script_byte_repr, script_from_buffer}
use ensicoin_cpp.Transaction.{TransactionIdentifier, id_byte_repr}

-- `height` is an int; the model holds its bit pattern.
pub record UtxoData : Type 0 where
  pub value : ℕ
  pub coinbase : Bool
  pub height : ℕ
  pub signing_hash : List ℕ
  pub from_mempool : Bool
  pub script : Script

-- A bool as an integer, and an integer as a bool.
abbrev pub of_bool : Bool → ℕ
of_bool b = if b then 1 else 0

abbrev pub to_bool : ℕ → Bool
to_bool n = not (n == 0)

unfoldable pub utxo_data_byte_repr : HexDecoder → UtxoData → List ℕ
utxo_data_byte_repr hex data_ =
    uint64_byte_repr hex data_.value
    ++ (uint16_byte_repr hex (of_bool data_.coinbase)
        ++ (uint32_byte_repr hex data_.height
            ++ (data_.signing_hash
                ++ (uint16_byte_repr hex (of_bool data_.from_mempool)
                    ++ script_byte_repr hex data_.script))))

unfoldable pub utxo_data_from_buffer : Reader UtxoData
utxo_data_from_buffer = do
  value ← read_uint64
  coinbase ← read_uint16
  height ← read_uint32
  signing_hash ← fixed_str_from_buffer hash_length
  from_mempool ← read_uint16
  script ← script_from_buffer
  pure (record {
    value = value;
    coinbase = to_bool coinbase;
    height = height;
    signing_hash = signing_hash;
    from_mempool = to_bool from_mempool;
    script = script;
  })

-- UTXOManager: `db` is its database, `stack` the storage of the Hash in a key, and `fresh` what
-- stands in uninitialised storage when an entry is read.
module _ (level : LevelDb) (hex : HexDecoder) (stack : List ℕ) where
  unfoldable pub utxo_key : TransactionIdentifier → List ℕ
  utxo_key id = id_byte_repr hex stack id

  unfoldable pub utxo_exists : level.State → TransactionIdentifier → Bool
  utxo_exists db id = elim (level.get db (utxo_key id)) [ none ↦ false | some bytes ↦ true ]

  -- A missing entry is logged, and the empty string is parsed in its place.
  unfoldable pub get_data : (ℕ → List ℕ) → level.State → TransactionIdentifier → UtxoData
  get_data fresh db id =
      let str_data : List ℕ = elim (level.get db (utxo_key id)) [
        | none ↦ []
        | some bytes ↦ bytes
      ] in
      (utxo_data_from_buffer (buffer_of fresh str_data)).0

  unfoldable pub add_utxo : TransactionIdentifier → UtxoData → level.State → level.State
  add_utxo id data_ db = level.put (utxo_key id) (utxo_data_byte_repr hex data_) db

  unfoldable pub spend : TransactionIdentifier → level.State → level.State
  spend id db = level.delete (utxo_key id) db

  -- `!data.coinbase || currentHeight - data.height >= 42`, undefined where the difference is no int.
  unfoldable pub is_spendable :
      (ℕ → List ℕ) → level.State → TransactionIdentifier → ℤ → Outcome Bool
  is_spendable fresh db id current_height =
      let data_ = get_data fresh db id in
      let height = to_int data_.height in
      let more = pos_part current_height + neg_part height in
      let less = pos_part height + neg_part current_height in
      if not data_.coinbase
      then returns true
      else if leb (less + 2 ^ 31) more || not (leb less (more + 2 ^ 31))
      then undefined
      else returns (leb (less + 42) more)

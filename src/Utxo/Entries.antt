-- ===== src/Utxo/Entries.antt =====
-- UTXOManager of src/utxo.cpp: what is added is found, what is spent is gone.
use ensicoin_cpp.LevelDb.{LevelDb}
use ensicoin_cpp.NetworkBuffer.{NetworkBuffer, buffer_of, read_uint16, read_uint64}
use ensicoin_cpp.Networkable.{HexDecoder, uint16_byte_repr, uint32_byte_repr, uint64_byte_repr}
use ensicoin_cpp.Networkable.Integers.{
  read_uint16-byte_repr, read_uint32-byte_repr, read_uint64-byte_repr,
}
use ensicoin_cpp.Networkable.Strings.{RoundTrips, zeroed}
use ensicoin_cpp.Prelude.{
  ℕ, ◌^◌, ◌<◌, ◌≡◌, ◌≢◌, refl, sym, ap, ◌∙◌, Bool, true, false, Option, none, some, List, [], ◌++◌,
  append-nil, append_assoc, arith,
}
use ensicoin_cpp.Prelude.Int.{ℤ}
use ensicoin_cpp.Prelude.Outcome.{returns}
use ensicoin_cpp.Script.{script_byte_repr}
use ensicoin_cpp.Transaction.{TransactionIdentifier, id_from_buffer}
use ensicoin_cpp.Transaction.RoundTrip.{
  IsSendableHash, IsSendableScript, IsSendableId, script-IsSendable, read_hash_field, id-RoundTrips,
}
use ensicoin_cpp.Utxo.{
  UtxoData, of_bool, to_bool, utxo_data_byte_repr, utxo_data_from_buffer, utxo_key, utxo_exists,
  get_data, add_utxo, spend, is_spendable,
}

-- An entry that its byte representation can carry.
pub record IsStorable (d : UtxoData) : Type 0 where
  pub value : d.value < 2 ^ 64
  pub height : d.height < 2 ^ 32
  pub signing_hash : IsSendableHash d.signing_hash
  pub script : IsSendableScript d.script

to_bool-of_bool : (b : Bool) → to_bool (of_bool b) ≡ b
to_bool-of_bool true = refl
to_bool-of_bool false = refl

of_bool-lt : (b : Bool) → of_bool b < 2 ^ 16
of_bool-lt true = omega arith
of_bool-lt false = omega arith

pub utxo_data-RoundTrips :
    (hex : HexDecoder) (d : UtxoData)
    → IsStorable d
    → RoundTrips utxo_data_from_buffer (utxo_data_byte_repr hex) d
unfolding utxo_data_from_buffer utxo_data_byte_repr
utxo_data-RoundTrips hex d h rest = rw (
  append_assoc value (coinbase ++ (height ++ (d.signing_hash ++ (mempool ++ script)))) rest,
  read_uint64-byte_repr hex zeroed
      ((coinbase ++ (height ++ (d.signing_hash ++ (mempool ++ script)))) ++ rest) d.value h.value,
  append_assoc coinbase (height ++ (d.signing_hash ++ (mempool ++ script))) rest,
  read_uint16-byte_repr hex zeroed ((height ++ (d.signing_hash ++ (mempool ++ script))) ++ rest)
      (of_bool d.coinbase) (of_bool-lt d.coinbase),
  append_assoc height (d.signing_hash ++ (mempool ++ script)) rest,
  read_uint32-byte_repr hex zeroed ((d.signing_hash ++ (mempool ++ script)) ++ rest) d.height
      h.height,
  append_assoc d.signing_hash (mempool ++ script) rest,
  read_hash_field d.signing_hash ((mempool ++ script) ++ rest) h.signing_hash,
  append_assoc mempool script rest,
  read_uint16-byte_repr hex zeroed (script ++ rest) (of_bool d.from_mempool)
      (of_bool-lt d.from_mempool),
  script-IsSendable hex d.script h.script rest,
  to_bool-of_bool d.coinbase,
  to_bool-of_bool d.from_mempool,
)
  where
    value : List ℕ
    value = uint64_byte_repr hex d.value

    coinbase : List ℕ
    coinbase = uint16_byte_repr hex (of_bool d.coinbase)

    height : List ℕ
    height = uint32_byte_repr hex d.height

    mempool : List ℕ
    mempool = uint16_byte_repr hex (of_bool d.from_mempool)

    script : List ℕ
    script = script_byte_repr hex d.script

module _ (level : LevelDb) (hex : HexDecoder) (stack : List ℕ) where
  -- Two references that the format can carry have different keys unless they are one.
  pub utxo_key-injective :
      (a b : TransactionIdentifier)
      → IsSendableId a
      → IsSendableId b
      → utxo_key level hex stack a ≡ utxo_key level hex stack b
      → a ≡ b
  unfolding utxo_key
  utxo_key-injective a b ha hb e =
      ap (λ (p : TransactionIdentifier × NetworkBuffer). p.0)
        (sym (id-RoundTrips hex stack a ha [])
          ∙ ap (λ (k : List ℕ). id_from_buffer (buffer_of zeroed (k ++ []))) e
          ∙ id-RoundTrips hex stack b hb [])

  apart :
      (id other : TransactionIdentifier)
      → IsSendableId id
      → IsSendableId other
      → id ≢ other
      → utxo_key level hex stack id ≢ utxo_key level hex stack other
  apart id other hi ho ne e = ne (utxo_key-injective id other hi ho e)

  pub add_utxo_self :
      (db : level.State) (id : TransactionIdentifier) (d : UtxoData)
      → IsStorable d
      → (get_data level hex stack zeroed (add_utxo level hex stack id d db) id ≡ d)
        × (utxo_exists level hex stack (add_utxo level hex stack id d db) id ≡ true)
  unfolding get_data add_utxo utxo_exists
  add_utxo_self db id d h = (
    rw (level.get-put_self (utxo_key level hex stack id) bytes db, get_data) found,
    rw (level.get-put_self (utxo_key level hex stack id) bytes db, utxo_exists),
  )
    where
      bytes : List ℕ
      bytes = utxo_data_byte_repr hex d

      found : (utxo_data_from_buffer (buffer_of zeroed bytes)).0 ≡ d
      found =
          ap (λ (p : UtxoData × NetworkBuffer). p.0)
            (rw (append-nil bytes) at (utxo_data-RoundTrips hex d h []))

  pub add_utxo_ne :
      (db : level.State) (id other : TransactionIdentifier) (d : UtxoData)
      → IsSendableId id
      → IsSendableId other
      → id ≢ other
      → (get_data level hex stack zeroed (add_utxo level hex stack id d db) other
          ≡ get_data level hex stack zeroed db other)
        × (utxo_exists level hex stack (add_utxo level hex stack id d db) other
            ≡ utxo_exists level hex stack db other)
  unfolding get_data add_utxo utxo_exists
  add_utxo_ne db id other d hi ho ne = (rw (kept, get_data), rw (kept, utxo_exists))
    where
      kept :
          level.get
            (level.put (utxo_key level hex stack id) (utxo_data_byte_repr hex d) db)
            (utxo_key level hex stack other)
          ≡ level.get db (utxo_key level hex stack other)
      kept =
          level.get-put_ne (utxo_key level hex stack id) (utxo_key level hex stack other)
            (utxo_data_byte_repr hex d) db (apart id other hi ho ne)

  -- An entry that its bytes can carry is found as it was added, the storage being zeroed, and an
  -- entry for any other reference that the format can carry is found as before.
  pub get_data-add_utxo :
      (db : level.State) (id other : TransactionIdentifier) (d : UtxoData)
      → IsStorable d
      → IsSendableId id
      → IsSendableId other
      → id ≢ other
      → (get_data level hex stack zeroed (add_utxo level hex stack id d db) id ≡ d)
        × (utxo_exists level hex stack (add_utxo level hex stack id d db) id ≡ true)
        × (get_data level hex stack zeroed (add_utxo level hex stack id d db) other
            ≡ get_data level hex stack zeroed db other)
        × (utxo_exists level hex stack (add_utxo level hex stack id d db) other
            ≡ utxo_exists level hex stack db other)
  get_data-add_utxo db id other d h hi ho ne =
      let (found, there) = add_utxo_self db id d h in
      let (same, as_before) = add_utxo_ne db id other d hi ho ne in (found, there, same, as_before)

  pub spend_self :
      (db : level.State) (id : TransactionIdentifier)
      → utxo_exists level hex stack (spend level hex stack id db) id ≡ false
  unfolding spend utxo_exists
  spend_self db id = rw (level.get-delete_self (utxo_key level hex stack id) db, utxo_exists)

  pub spend_ne :
      (db : level.State) (id other : TransactionIdentifier)
      → IsSendableId id
      → IsSendableId other
      → id ≢ other
      → (get_data level hex stack zeroed (spend level hex stack id db) other
          ≡ get_data level hex stack zeroed db other)
        × (utxo_exists level hex stack (spend level hex stack id db) other
            ≡ utxo_exists level hex stack db other)
  unfolding spend utxo_exists get_data
  spend_ne db id other hi ho ne = (rw (kept, get_data), rw (kept, utxo_exists))
    where
      kept :
          level.get (level.delete (utxo_key level hex stack id) db) (utxo_key level hex stack other)
          ≡ level.get db (utxo_key level hex stack other)
      kept =
          level.get-delete_ne (utxo_key level hex stack id) (utxo_key level hex stack other) db
            (apart id other hi ho ne)

  -- A spent output is not there any more; any other one that the format can carry is untouched.
  pub utxo_exists-spend :
      (db : level.State) (id other : TransactionIdentifier)
      → IsSendableId id
      → IsSendableId other
      → id ≢ other
      → (utxo_exists level hex stack (spend level hex stack id db) id ≡ false)
        × (utxo_exists level hex stack (spend level hex stack id db) other
            ≡ utxo_exists level hex stack db other)
  utxo_exists-spend db id other hi ho ne = (spend_self db id, (spend_ne db id other hi ho ne).1)

  -- An output that is not in the database counts as spendable at every height, whatever the storage
  -- holds.
  pub is_spendable-missing :
      (fresh : ℕ → List ℕ) (db : level.State) (id : TransactionIdentifier) (current_height : ℤ)
      → utxo_exists level hex stack db id ≡ false
      → is_spendable level hex stack fresh db id current_height ≡ returns true
  unfolding is_spendable get_data utxo_exists utxo_data_from_buffer read_uint16 read_uint64
  is_spendable-missing fresh db id current_height h =
      missing (level.get db (utxo_key level hex stack id)) refl
    where
      missing :
          (o : Option (List ℕ))
          → level.get db (utxo_key level hex stack id) ≡ o
          → is_spendable level hex stack fresh db id current_height ≡ returns true
      missing none e = rw e
      missing (some bytes) e = ground arith

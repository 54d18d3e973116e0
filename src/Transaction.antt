-- ===== src/Transaction.antt =====
-- include/transaction.hpp and src/transaction/: transactions, their inputs and outputs.
pub mod RoundTrip
pub mod Unambiguous
pub mod Checks
pub mod Ids
use ensicoin_cpp.Constants.{max_block_size, hash_length}
use ensicoin_cpp.Crypto.{Crypto}
use ensicoin_cpp.Json.{Json, text, int, uint, array, object, items_of, members_of}
use ensicoin_cpp.NetworkBuffer.{
  NetworkBuffer, Reader, ◌>>=◌, pure, read_uint32, read_uint64, read_var_uint, overwrite,
}
use ensicoin_cpp.Networkable.{
  HexDecoder, fixed_str, fixed_str_from_buffer, uint32_byte_repr, uint64_byte_repr,
  var_uint_byte_repr, var_str_byte_repr, var_str_from_buffer, var_array_byte_repr,
  var_array_from_buffer,
}
use ensicoin_cpp.Prelude.{
  ℕ, zero, suc, ◌+◌, ◌%◌, ◌^◌, ltb, leb, ◌==◌, if◌then◌else◌, Bool, true, false, ◌&&◌, ◌||◌, not,
  Option, none, some, List, [], ◌∷◌, ◌++◌, length, map, list_eq, get_elem?, codes,
}
use ensicoin_cpp.Prelude.Int.{to_int}
use ensicoin_cpp.Script.{Script, script_byte_repr, script_from_buffer}

-- Also called UTXO.
pub record TransactionIdentifier : Type 0 where
  pub transaction_hash : List ℕ
  pub index : ℕ

-- `operator==`.
unfoldable pub id_eq : TransactionIdentifier → TransactionIdentifier → Bool
id_eq lhs rhs = list_eq lhs.transaction_hash rhs.transaction_hash && (lhs.index == rhs.index)

pub record InputTransaction : Type 0 where
  pub previous_output : TransactionIdentifier
  pub script : Script

pub record OutputTransaction : Type 0 where
  pub value : ℕ
  pub script : Script

-- `version` is an int; the model holds its bit pattern, as Uint32 sends it.
pub record Transaction : Type 0 where
  pub version : ℕ
  pub transaction_flags : List (List ℕ)
  pub inputs : List InputTransaction
  pub outputs : List OutputTransaction

-- `byteRepr()`; `stack` is what stands in the array of each Hash before the hash is written to it,
-- which shows where a hash is shorter than 32 bytes.
module _ (hex : HexDecoder) (stack : List ℕ) where
  unfoldable pub id_byte_repr : TransactionIdentifier → List ℕ
  id_byte_repr id =
      fixed_str hash_length (overwrite id.transaction_hash stack) ++ var_uint_byte_repr hex id.index

  unfoldable pub input_byte_repr : InputTransaction → List ℕ
  input_byte_repr input = id_byte_repr input.previous_output ++ script_byte_repr hex input.script

  unfoldable pub output_byte_repr : OutputTransaction → List ℕ
  output_byte_repr output = uint64_byte_repr hex output.value ++ script_byte_repr hex output.script

  unfoldable pub transaction_byte_repr : Transaction → List ℕ
  transaction_byte_repr tx =
      uint32_byte_repr hex tx.version
      ++ (var_array_byte_repr hex (var_str_byte_repr hex) tx.transaction_flags
          ++ (var_array_byte_repr hex input_byte_repr tx.inputs
              ++ var_array_byte_repr hex output_byte_repr tx.outputs))

  unfoldable pub transaction_hash : Crypto → Transaction → List ℕ
  transaction_hash crypto tx = crypto.sha256 (crypto.sha256 (transaction_byte_repr tx))

-- The 64-bit number that is read becomes an unsigned int.
unfoldable pub id_from_buffer : Reader TransactionIdentifier
id_from_buffer = do
  hash ← fixed_str_from_buffer hash_length
  index ← read_var_uint
  pure (record { transaction_hash = hash; index = index % 2 ^ 32 })

unfoldable pub input_from_buffer : Reader InputTransaction
input_from_buffer = do
  id ← id_from_buffer
  script ← script_from_buffer
  pure (record { previous_output = id; script = script })

unfoldable pub output_from_buffer : Reader OutputTransaction
output_from_buffer = do
  value ← read_uint64
  script ← script_from_buffer
  pure (record { value = value; script = script })

unfoldable pub transaction_from_buffer : Reader Transaction
transaction_from_buffer = do
  version ← read_uint32
  flags ← var_array_from_buffer var_str_from_buffer
  inputs ← var_array_from_buffer input_from_buffer
  outputs ← var_array_from_buffer output_from_buffer
  pure (record { version = version; transaction_flags = flags; inputs = inputs; outputs = outputs })

unfoldable pub inputs_id : Transaction → List TransactionIdentifier
inputs_id tx = map (λ input. input.previous_output) tx.inputs

unfoldable pub output_count : Transaction → ℕ
output_count tx = length tx.outputs

unfoldable pub has_output : Transaction → ℕ → Bool
has_output tx index = ltb index (length tx.outputs)

-- `outputs[index]` is undefined (`none`) past the end.
unfoldable pub value_of_output : Transaction → ℕ → Option ℕ
value_of_output tx index = elim (get_elem? tx.outputs index) [
  | none ↦ none
  | some output ↦ some (output.value % 2 ^ 32)
]

unfoldable pub script_of_output : Transaction → ℕ → Option Script
script_of_output tx index = elim (get_elem? tx.outputs index) [
  | none ↦ none
  | some output ↦ some output.script
]

abbrev pub is_empty {ℓ} : {A : Type ℓ} → List A → Bool
is_empty [] = true
is_empty (x ∷ xs) = false

any_without_value : List OutputTransaction → Bool
any_without_value [] = false
any_without_value (output ∷ outputs) = (output.value == 0) || any_without_value outputs

-- `json()` of each class. A script is not printed: a fixed sentence stands for it.
id_json : TransactionIdentifier → Json
id_json id = object (
    members_of
      ((codes "transactionHash", text id.transaction_hash) ∷ (codes "index", uint id.index) ∷ []))

input_json : InputTransaction → Json
unfolding id_json
input_json input = object (
    members_of (
      (codes "previousOutput", id_json input.previous_output)
      ∷ (codes "script", text (codes "flemme tu regarde les bytes"))
      ∷ []))

output_json : OutputTransaction → Json
output_json output = object (
    members_of (
      (codes "value", uint output.value)
      ∷ (codes "script", text (codes "nique ton json lit les bytes"))
      ∷ []))

unfoldable pub transaction_json : Transaction → Json
unfolding input_json output_json
transaction_json tx = object (
    members_of (
      (codes "version", int (to_int tx.version))
      ∷ (codes "flags", array (items_of text tx.transaction_flags))
      ∷ (codes "inputs", array (items_of input_json tx.inputs))
      ∷ (codes "outputs", array (items_of output_json tx.outputs))
      ∷ []))

-- `print_json` is the text that RapidJSON prints for a document, which `str()` returns.
unfoldable pub check : (Json → List ℕ) → Transaction → Bool
unfolding any_without_value
check print_json tx =
    if is_empty tx.inputs || is_empty tx.outputs
    then false
    else if ltb max_block_size (length (print_json (transaction_json tx)))
    then false
    else not (any_without_value tx.outputs)

-- std::accumulate with `s + op.value` in an int.
abbrev pub accumulate : ℕ → List OutputTransaction → ℕ
accumulate s [] = s
accumulate s (output ∷ outputs) = accumulate ((s + output.value) % 2 ^ 32) outputs

-- The result of std::accumulate is not used: `sum` is returned as it was.
unfoldable pub output_value : Transaction → ℕ
output_value tx = let sum : ℕ = 0 in let accumulated = accumulate sum tx.outputs in sum

-- A TODO in the source.
unfoldable pub signing_hash : Transaction → List ℕ
signing_hash tx = []

-- ===== src/Transaction/RoundTrip.antt =====
-- A transaction sent is the transaction received.
use ensicoin_cpp.NetworkBuffer.{buffer_of, is_space, overwrite}
use ensicoin_cpp.NetworkBuffer.Strings.{IsText}
use ensicoin_cpp.Networkable.{
  HexDecoder, fixed_str, uint32_byte_repr, uint64_byte_repr, var_uint_byte_repr, var_str_byte_repr,
  var_str_from_buffer, var_array_byte_repr, var_array_from_buffer, fixed_str_from_buffer,
}
use ensicoin_cpp.Networkable.Integers.{
  read_uint32-byte_repr, read_uint64-byte_repr, read_var_uint-byte_repr,
}
use ensicoin_cpp.Networkable.Strings.{
  RoundTrips, zeroed, fixed_str_exact, fixed_str_from_buffer-text, var_str-RoundTrips,
  var_array-RoundTrips,
}
use ensicoin_cpp.Prelude.{
  ℕ, ◌%◌, ◌^◌, ◌≤◌, ◌<◌, ◌≡◌, sym, ap, ◌∙◌, false, List, [], ◌∷◌, ◌++◌, length, map, drop, All,
  append_assoc, arith,
}
use ensicoin_cpp.Script.{Script, script_byte_repr, script_from_buffer, parse_instruction, script_of}
use ensicoin_cpp.Script.Parse.{script-RoundTrips}
use ensicoin_cpp.Transaction.{
  TransactionIdentifier, InputTransaction, OutputTransaction, Transaction, id_byte_repr,
  input_byte_repr, output_byte_repr, transaction_byte_repr, id_from_buffer, input_from_buffer,
  output_from_buffer, transaction_from_buffer,
}

-- What the format can carry. A text is at most 4096 bytes, none of them 0, and its length is no code
-- of white space.
pub record IsSendable (s : List ℕ) : Type 0 where
  pub text : IsText s
  pub short : length s ≤ 4096
  pub unskipped : is_space (length s) ≡ false

pub record IsSendableHash (h : List ℕ) : Type 0 where
  pub text : IsText h
  pub full : length h ≡ 32

-- A script as it comes from the network, before it runs.
pub record IsSendableScript (s : Script) : Type 0 where
  pub bytes : List ℕ
  pub sendable : IsSendable bytes
  pub parsed : s ≡ script_of (map parse_instruction bytes) []

pub record IsSendableId (id : TransactionIdentifier) : Type 0 where
  pub hash : IsSendableHash id.transaction_hash
  pub fits : id.index < 2 ^ 32
  pub unskipped : is_space id.index ≡ false

pub record IsSendableCount (n : ℕ) : Type 0 where
  pub fits : n < 2 ^ 64
  pub unskipped : is_space n ≡ false

abbrev pub IsSendableInput : InputTransaction → Type 0
IsSendableInput input = IsSendableId input.previous_output × IsSendableScript input.script

abbrev pub IsSendableOutput : OutputTransaction → Type 0
IsSendableOutput output = (output.value < 2 ^ 64) × IsSendableScript output.script

pub record IsSendableTransaction (tx : Transaction) : Type 0 where
  pub version : tx.version < 2 ^ 32
  pub flag_count : IsSendableCount (length tx.transaction_flags)
  pub flags : All IsSendable tx.transaction_flags
  pub input_count : IsSendableCount (length tx.inputs)
  pub inputs : All IsSendableInput tx.inputs
  pub output_count : IsSendableCount (length tx.outputs)
  pub outputs : All IsSendableOutput tx.outputs

pub All-map {ℓ κ μ} :
    {A : Type ℓ} (P : A → Type κ) (Q : A → Type μ) (xs : List A)
    → ((x : A) → P x → Q x)
    → All P xs
    → All Q xs
All-map P Q [] f h = tt
All-map P Q (x ∷ xs) f h = (f x h.0, All-map P Q xs f h.1)

pub script-IsSendable :
    (hex : HexDecoder) (s : Script)
    → IsSendableScript s
    → RoundTrips script_from_buffer (script_byte_repr hex) s
script-IsSendable hex s h =
    rw h.parsed
      (script-RoundTrips hex h.bytes h.sendable.text h.sendable.short h.sendable.unskipped)

-- A Var_strArray: the flags of a transaction or a block, or the services of a node.
pub flags-RoundTrips :
    (hex : HexDecoder) (flags : List (List ℕ))
    → All IsSendable flags
    → IsSendableCount (length flags)
    → RoundTrips
        (var_array_from_buffer var_str_from_buffer)
        (var_array_byte_repr hex (var_str_byte_repr hex))
        flags
flags-RoundTrips hex flags h n =
    var_array-RoundTrips hex var_str_from_buffer (var_str_byte_repr hex) flags
      (All-map IsSendable _ flags (λ s w. var_str-RoundTrips hex s w.text w.short w.unskipped) h)
      n.fits n.unskipped

pub written_hash :
    (hash stack : List ℕ) → IsSendableHash hash → fixed_str 32 (overwrite hash stack) ≡ hash
written_hash hash stack h =
    ap (λ (k : ℕ). fixed_str k (overwrite hash stack)) (sym h.full)
    ∙ fixed_str_exact hash (drop (length hash) stack)

pub read_hash_field :
    (hash rest : List ℕ)
    → IsSendableHash hash
    → fixed_str_from_buffer 32 (buffer_of zeroed (hash ++ rest)) ≡ (hash, buffer_of zeroed rest)
read_hash_field hash rest h =
    rw h.full at (fixed_str_from_buffer-text hash rest h.text (omega (arith, h.full)))

module _ (hex : HexDecoder) (stack : List ℕ) where
  pub id-RoundTrips :
      (id : TransactionIdentifier)
      → IsSendableId id
      → RoundTrips id_from_buffer (id_byte_repr hex stack) id
  unfolding id_from_buffer id_byte_repr
  id-RoundTrips id h rest =
      rw
        (
          append_assoc (fixed_str 32 (overwrite id.transaction_hash stack))
              (var_uint_byte_repr hex id.index) rest,
          written_hash id.transaction_hash stack h.hash,
          read_hash_field id.transaction_hash (var_uint_byte_repr hex id.index ++ rest) h.hash,
          read_var_uint-byte_repr hex zeroed rest id.index (omega arith) h.unskipped,
        )
        (ap
          (λ (n : ℕ).
            (record { transaction_hash = id.transaction_hash; index = n }, buffer_of zeroed rest))
          (let e : id.index % 2 ^ 32 ≡ id.index = omega arith in e))

  pub input-RoundTrips :
      (input : InputTransaction)
      → IsSendableInput input
      → RoundTrips input_from_buffer (input_byte_repr hex stack) input
  unfolding input_from_buffer input_byte_repr
  input-RoundTrips input h rest = rw (
    append_assoc (id_byte_repr hex stack input.previous_output) (script_byte_repr hex input.script)
        rest,
    id-RoundTrips input.previous_output h.0 (script_byte_repr hex input.script ++ rest),
    script-IsSendable hex input.script h.1 rest,
  )

  pub output-RoundTrips :
      (output : OutputTransaction)
      → IsSendableOutput output
      → RoundTrips output_from_buffer (output_byte_repr hex stack) output
  unfolding output_from_buffer output_byte_repr
  output-RoundTrips output h rest = rw (
    append_assoc (uint64_byte_repr hex output.value) (script_byte_repr hex output.script) rest,
    read_uint64-byte_repr hex zeroed (script_byte_repr hex output.script ++ rest) output.value h.0,
    script-IsSendable hex output.script h.1 rest,
  )

  -- A transaction whose parts the format can carry is read back, and what follows it is left; the
  -- storage is zeroed.
  pub transaction-RoundTrips :
      (tx : Transaction)
      → IsSendableTransaction tx
      → RoundTrips transaction_from_buffer (transaction_byte_repr hex stack) tx
  unfolding transaction_from_buffer transaction_byte_repr
  transaction-RoundTrips tx h rest = rw (
    append_assoc (uint32_byte_repr hex tx.version) (flags ++ (inputs ++ outputs)) rest,
    read_uint32-byte_repr hex zeroed ((flags ++ (inputs ++ outputs)) ++ rest) tx.version h.version,
    append_assoc flags (inputs ++ outputs) rest,
    read_flags ((inputs ++ outputs) ++ rest),
    append_assoc inputs outputs rest,
    read_inputs (outputs ++ rest),
    read_outputs rest,
  )
    where
      flags : List ℕ
      flags = var_array_byte_repr hex (var_str_byte_repr hex) tx.transaction_flags

      inputs : List ℕ
      inputs = var_array_byte_repr hex (input_byte_repr hex stack) tx.inputs

      outputs : List ℕ
      outputs = var_array_byte_repr hex (output_byte_repr hex stack) tx.outputs

      read_flags :
          RoundTrips
            (var_array_from_buffer var_str_from_buffer)
            (var_array_byte_repr hex (var_str_byte_repr hex))
            tx.transaction_flags
      read_flags = flags-RoundTrips hex tx.transaction_flags h.flags h.flag_count

      read_inputs :
          RoundTrips
            (var_array_from_buffer input_from_buffer)
            (var_array_byte_repr hex (input_byte_repr hex stack))
            tx.inputs
      read_inputs =
          var_array-RoundTrips hex input_from_buffer (input_byte_repr hex stack) tx.inputs
            (All-map IsSendableInput _ tx.inputs input-RoundTrips h.inputs) h.input_count.fits
            h.input_count.unskipped

      read_outputs :
          RoundTrips
            (var_array_from_buffer output_from_buffer)
            (var_array_byte_repr hex (output_byte_repr hex stack))
            tx.outputs
      read_outputs =
          var_array-RoundTrips hex output_from_buffer (output_byte_repr hex stack) tx.outputs
            (All-map IsSendableOutput _ tx.outputs output-RoundTrips h.outputs) h.output_count.fits
            h.output_count.unskipped

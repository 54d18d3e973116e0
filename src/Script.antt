-- ===== src/Script.antt =====
-- include/script.hpp and src/script.cpp: the scripts of inputs and outputs, and the stack machine
-- that runs them.
pub mod Parse
pub mod Machine
pub mod Runs
pub mod Reference
pub mod Short
use ensicoin_cpp.Crypto.{Crypto, ecdsa_signature, verify}
use ensicoin_cpp.NetworkBuffer.{NetworkBuffer, Reader, ◌>>=◌, pure}
use ensicoin_cpp.Networkable.{HexDecoder, var_str_byte_repr, var_str_from_buffer}
use ensicoin_cpp.Prelude.{
  ℕ, zero, suc, ◌+◌, ltb, leb, ◌==◌, if◌then◌else◌, Bool, true, false, ◌&&◌, Option, none, some,
  List, [], ◌∷◌, ◌++◌, length, drop, map, list_eq, get_elem?,
}

pub data Opcode : Type 0 where
  op_false op_true op_dup op_equal op_verify op_hash160 op_checksig op_stack op_unknown : Opcode

-- The enumerators' values; OP_UNKNOWN has none of its own, and follows OP_STACK.
abbrev pub opcode_value : Opcode → ℕ
opcode_value op_false = 0x00
opcode_value op_true = 0x50
opcode_value op_dup = 0x64
opcode_value op_equal = 0x78
opcode_value op_verify = 0x8c
opcode_value op_hash160 = 0xa0
opcode_value op_checksig = 0xaa
opcode_value op_stack = 0x01
opcode_value op_unknown = 0x02

pub record Instruction : Type 0 where
  pub operation : Opcode
  pub argument : ℕ

-- `codePointer` is the index in `script_instructions` of the instruction that it points at. In C++
-- it is an iterator, which a copy of the Script and an insertion leave with the old vector.
-- The head of `stack` (the field `data` of the source) is its top.
pub record Script : Type 0 where
  pub script_instructions : List Instruction
  pub code_pointer : ℕ
  pub stack : List (List ℕ)
  pub valid : Bool
  pub signing_hash : List ℕ

unfoldable pub set_s_hash : List ℕ → Script → Script
set_s_hash shash s = record s { signing_hash = shash }

abbrev plain : Opcode → Instruction
plain op = record { operation = op; argument = 0 }

unfoldable pub parse_instruction : ℕ → Instruction
parse_instruction chr =
    if leb 0x01 chr && leb chr 0x4b
    then record { operation = op_stack; argument = chr }
    else if chr == 0x00
    then plain op_false
    else if chr == 0x50
    then plain op_true
    else if chr == 0x64
    then plain op_dup
    else if chr == 0x78
    then plain op_equal
    else if chr == 0x8c
    then plain op_verify
    else if chr == 0xa0
    then plain op_hash160
    else if chr == 0xaa
    then plain op_checksig
    else record { operation = op_unknown; argument = chr }

-- What `out << instr` writes. An opcode is written as the unsigned char that it is promoted to.
unfoldable pub instruction_byte : Instruction → ℕ
instruction_byte instr = elim instr.operation [
  | op_unknown ↦ instr.argument
  | op_stack ↦ instr.argument
  | op ↦ opcode_value op
]

unfoldable pub script_byte_repr : HexDecoder → Script → List ℕ
script_byte_repr hex s = var_str_byte_repr hex (map instruction_byte s.script_instructions)

-- The constructor from instructions and a hash.
unfoldable pub script_of : List Instruction → List ℕ → Script
script_of instructions shash = record {
  script_instructions = instructions;
  code_pointer = 0;
  stack = [];
  valid = true;
  signing_hash = shash;
}

unfoldable pub script_from_buffer : Reader Script
unfolding script_of
script_from_buffer = do
  script_str ← var_str_from_buffer
  pure (script_of (map parse_instruction script_str) [])

unfoldable pub done : Script → Bool
done s = s.code_pointer == length s.script_instructions

abbrev push : List ℕ → Script → Script
push bytes s = record s { stack = bytes ∷ s.stack }

-- `top()` with `pop()`; on an empty std::stack they are undefined.
abbrev pop : Script → (List ℕ → Script → Option Script) → Option Script
pop s next = elim s.stack [ [] ↦ none | top ∷ rest ↦ next top (record s { stack = rest }) ]

-- The byte that OP_STACK takes from an instruction.
unfoldable pub pushed_byte : Instruction → ℕ
pushed_byte instr = elim instr.operation [ op_unknown ↦ instr.argument | op ↦ opcode_value op ]

-- The first n instructions as bytes; `none` if the vector ends before, where `*(codePointer + i)` is
-- undefined.
unfoldable pub pushed_data : ℕ → List Instruction → Option (List ℕ)
pushed_data zero instrs = some []
pushed_data (suc n) [] = none
pushed_data (suc n) (instr ∷ instrs) = elim (pushed_data n instrs) [
  | none ↦ none
  | some bytes ↦ some (pushed_byte instr ∷ bytes)
]

module _ (crypto : Crypto) where
  -- One case of the switch in `step`; `none` is undefined behaviour.
  unfoldable pub execute : Opcode → ℕ → Script → Option Script
  execute op_false argument s = some (push (0x00 ∷ []) s)
  execute op_true argument s = some (push (0x01 ∷ []) s)
  execute op_dup argument s = elim s.stack [ [] ↦ none | top ∷ rest ↦ some (push top s) ]
  execute op_equal argument s = pop s λ first_top s₁. pop s₁ λ second_top s₂.
      some (if list_eq first_top second_top then push (0x01 ∷ []) s₂ else push (0x00 ∷ []) s₂)
  execute op_verify argument s = pop s λ stack_top s₁.
      some (if list_eq stack_top (0x01 ∷ []) then record s₁ { valid = false } else s₁)
  -- The hash is copied to the begin() of an empty vector, which has room for no byte.
  execute op_hash160 argument s =
      pop s λ to_hash s₁. elim (crypto.ripemd160 to_hash) [ [] ↦ some (push [] s₁) | b ∷ bs ↦ none ]
  execute op_checksig argument s = pop s λ pub_key s₁. pop s₁ λ signature s₂. some (
      if verify crypto (ecdsa_signature crypto signature) s₂.signing_hash pub_key
      then s₂
      else record s₂ { valid = false })
  execute op_stack argument s =
      elim (pushed_data argument (drop s.code_pointer s.script_instructions)) [
        | none ↦ none
        | some bytes ↦ some (push bytes (record s { code_pointer = s.code_pointer + argument }))
      ]
  execute op_unknown argument s = some (record s { valid = false })

  -- `codePointer++` behind the switch.
  abbrev pub advance : Option Script → Option Script
  advance none = none
  advance (some s) = some (record s { code_pointer = s.code_pointer + 1 })

  -- `step` returns the field `valid` of the result. Past the last instruction it does nothing.
  unfoldable pub step : Script → Option Script
  unfolding execute
  step s = elim (get_elem? s.script_instructions s.code_pointer) [
    | none ↦ some s
    | some instr ↦ advance (execute instr.operation instr.argument s)
  ]

-- The instructions after `chain`. The insertion leaves the code pointer without a meaning.
unfoldable pub chain : Script → Script → List Instruction
chain s following = s.script_instructions ++ following.script_instructions

-- How a run of a script ends: accepted as the run leaves it, or not. `running` is no result: the rounds of the model ran out.
pub data Run : Type 0 where
  accepted : Script → Run
  rejected undefined running : Run

-- `while (!done()) { if (!step()) return false; }` in LinkedTransaction::validateScript, for a script
-- whose code pointer points into its own instructions.
unfoldable pub run : Crypto → ℕ → Script → Run
run crypto zero s = running
run crypto (suc fuel) s = elim (done s) [
  | true ↦ accepted s
  | false ↦ elim (step crypto s) [
    | none ↦ undefined
    | some s' ↦ elim s'.valid [ true ↦ run crypto fuel s' | false ↦ rejected ]
  ]
]

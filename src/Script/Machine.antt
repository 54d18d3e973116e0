-- ===== src/Script/Machine.antt =====
-- Single instructions of the stack machine in src/script.cpp.
use ensicoin_cpp.Crypto.{Crypto}
use ensicoin_cpp.Prelude.{
  ℕ, suc, ◌+◌, ◌≤◌, ◌<◌, ◌≡◌, refl, ◌∙◌, leb, if◌then◌else◌, Bool, ◌&&◌, not, Option, none, some,
  List, [], ◌∷◌, ◌++◌, length, drop, map, list_eq, get_elem?, get_elem?-drop, arith,
}
use ensicoin_cpp.Script.{
  Script, Instruction, op_verify, op_hash160, op_stack, parse_instruction, pushed_byte, pushed_data,
  step, execute, advance,
}

-- The instruction that the code pointer is at.
abbrev pub current : Script → Option Instruction
current s = get_elem? s.script_instructions s.code_pointer

abbrev pub is_small : ℕ → Bool
is_small b = leb 0x01 b && leb b 0x4b

-- What a byte becomes when OP_STACK takes it from the parsed instructions.
abbrev pub squashed : ℕ → ℕ
squashed b = if is_small b then 0x01 else b

pushed_byte-parse : (b : ℕ) → pushed_byte (parse_instruction b) ≡ squashed b
unfolding pushed_byte parse_instruction
pushed_byte-parse b = ground arith

pushed_data-parse :
    (bs : List ℕ) (more : List Instruction)
    → pushed_data (length bs) (map parse_instruction bs ++ more) ≡ some (map squashed bs)
unfolding pushed_data
pushed_data-parse [] more = refl
pushed_data-parse (b ∷ bs) more = rw (pushed_data-parse bs more, pushed_byte-parse b)

parse-small :
    (b : ℕ) → 0 < b → b ≤ 0x4b → parse_instruction b ≡ record { operation = op_stack; argument = b }
unfolding parse_instruction
parse-small b lo hi = ground arith

module _ (crypto : Crypto) where
  pub step_at :
      (s : Script) (instr : Instruction)
      → current s ≡ some instr
      → step crypto s ≡ advance crypto (execute crypto instr.operation instr.argument s)
  unfolding step
  step_at s instr c = rw (c, step)

  -- OP_STACK with argument n + 1, parsed from its byte and followed by instructions parsed from n
  -- bytes, pushes 0x01 and then these n bytes, with 0x01 for each that is in 0x01 to 0x4b, and goes
  -- on behind the instruction that follows them.
  pub step-op_stack :
      (s : Script) (bs : List ℕ) (more : List Instruction)
      → length bs < 0x4b
      → drop s.code_pointer s.script_instructions
        ≡ map parse_instruction (suc (length bs) ∷ bs) ++ more
      → step crypto s
        ≡ some (record s {
          stack = (0x01 ∷ map squashed bs) ∷ s.stack;
          code_pointer = s.code_pointer + suc (length bs) + 1;
        })
  unfolding execute
  step-op_stack s bs more h e =
      step_at s _ (get_elem?-drop s.code_pointer s.script_instructions _ _ e)
      ∙ rw (parse-small (suc (length bs)) (omega arith) h, e, execute, pushed)
    where
      pushed :
          pushed_data (suc (length bs)) (map parse_instruction (suc (length bs) ∷ bs) ++ more)
          ≡ some (0x01 ∷ map squashed bs)
      pushed = pushed_data-parse (suc (length bs) ∷ bs) more ∙ ground arith

  -- OP_VERIFY rejects exactly the element that OP_EQUAL and OP_TRUE push for true: it pops the top,
  -- and the script stays valid if it was and the top is not 0x01.
  pub step-op_verify :
      (s : Script) (top : List ℕ) (below : List (List ℕ)) (argument : ℕ)
      → current s ≡ some (record { operation = op_verify; argument = argument })
      → s.stack ≡ top ∷ below
      → step crypto s
        ≡ some (record s {
          stack = below;
          valid = s.valid && not (list_eq top (0x01 ∷ []));
          code_pointer = s.code_pointer + 1;
        })
  unfolding execute
  step-op_verify s top below argument c e = step_at s _ c ∙ rw e (ground arith)

  -- Copying a hash of 20 bytes to the begin() of an empty vector.
  no_room :
      (s : Script) (hash : List ℕ)
      → length hash ≡ 20
      → advance crypto (elim hash [ [] ↦ some s | b ∷ bs ↦ none ]) ≡ none
  no_room s [] h = absurd (omega arith)
  no_room s (b ∷ bs) h = refl

  -- OP_HASH160 is undefined on every stack.
  pub step-op_hash160 :
      (s : Script) (argument : ℕ)
      → current s ≡ some (record { operation = op_hash160; argument = argument })
      → step crypto s ≡ none
  unfolding execute
  step-op_hash160 s argument c = step_at s _ c ∙ on_stack s.stack refl
    where
      on_stack :
          (stack : List (List ℕ))
          → s.stack ≡ stack
          → advance crypto (execute crypto op_hash160 argument s) ≡ none
      on_stack [] e = rw e
      on_stack (top ∷ below) e =
          rw (e, execute) (no_room _ (crypto.ripemd160 top) (crypto.length-ripemd160 top))

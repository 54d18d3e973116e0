-- ===== src/Script/Short.antt =====
-- How long the elements of the stack of src/script.cpp can be.
pub mod Keys
use ensicoin_cpp.Crypto.{Crypto, ecdsa_signature, verify, hex_public_key}
use ensicoin_cpp.Crypto.PublicKey.{with_h, filled, IsDigits, hex_public_key-digits}
use ensicoin_cpp.Prelude.{
  ℕ, zero, suc, ◌+◌, ◌-◌, ◌≤◌, ◌≡◌, ◌≢◌, refl, sym, ap, ◌∙◌, subst, Bool, Bool-cases, inl, inr,
  true, false, ◌&&◌, if◌then◌else◌, leb, ltb, ◌==◌, Option, Option-cases, none, some, List, [], ◌∷◌,
  ◌++◌, length, drop, map, leb→le, get_elem?, take, length-append, All, All-get_elem?, list_eq,
  arith,
}
use ensicoin_cpp.Prelude.Outcome.{Outcome, returns, undefined}
use ensicoin_cpp.Script.{
  Script, Instruction, Opcode, op_false, op_true, op_dup, op_equal, op_verify, op_hash160,
  op_checksig, op_stack, op_unknown, parse_instruction, script_of, step, execute, advance, push,
  pop, pushed_byte, pushed_data,
}
use ensicoin_cpp.Script.Machine.{step_at}

abbrev pub IsShort : List ℕ → Type 0
IsShort bytes = length bytes ≤ 75

abbrev pub HasShortPush : Instruction → Type 0
HasShortPush i = i.operation ≡ op_stack → i.argument ≤ 75

pub record Short (s : Script) : Type 0 where
  pub short_stack : All IsShort s.stack
  pub short_pushes : All HasShortPush s.script_instructions

-- What holds of the value that is there, if one is.
abbrev pub IfSome {ℓ} : {A : Type ℓ} → (A → Type 0) → Option A → Type 0
IfSome P none = Unit
IfSome P (some x) = P x

length-pushed_data :
    (n : ℕ) (instrs : List Instruction) → IfSome (λ bytes. length bytes ≡ n) (pushed_data n instrs)
unfolding pushed_data
length-pushed_data zero instrs = refl
length-pushed_data (suc n) [] = tt
length-pushed_data (suc n) (i ∷ instrs) =
    elim (pushed_data n instrs)
        as (λ o.
          IfSome (λ bytes. length bytes ≡ n) o
          → IfSome (λ bytes. length bytes ≡ suc n)
              (elim o [ none ↦ none | some bytes ↦ some (pushed_byte i ∷ bytes) ])) [
                | none ↦ λ h. tt
                | some bytes ↦ λ h. ap suc h
              ]
      (length-pushed_data n instrs)

pop-Short :
    (s : Script) (next : List ℕ → Script → Option Script)
    → Short s
    → ((top : List ℕ) (s' : Script) → IsShort top → Short s' → IfSome Short (next top s'))
    → IfSome Short (pop s next)
pop-Short s next h n =
    elim s.stack
        as (λ stack.
          All IsShort stack
          → IfSome Short
              (elim stack [ [] ↦ none | top ∷ rest ↦ next top (record s { stack = rest }) ])) [
                | [] ↦ λ k. tt
                | top ∷ rest ↦ λ k.
                    n top (record s { stack = rest }) k.0
                      (record { short_stack = k.1; short_pushes = h.short_pushes })
              ]
      h.short_stack

push-Short : (bytes : List ℕ) (s : Script) → IsShort bytes → Short s → Short (push bytes s)
push-Short bytes s b h = record { short_stack = (b, h.short_stack); short_pushes = h.short_pushes }

invalid-Short : (s : Script) → Short s → Short (record s { valid = false })
invalid-Short s h = record { short_stack = h.short_stack; short_pushes = h.short_pushes }

answer-Short :
    (b : Bool) (s : Script) → Short s → Short (if b then push (0x01 ∷ []) s else push (0x00 ∷ []) s)
answer-Short true s h = push-Short _ s (omega arith) h
answer-Short false s h = push-Short _ s (omega arith) h

verdict-Short :
    (b : Bool) (s : Script) → Short s → Short (if b then record s { valid = false } else s)
verdict-Short true s h = invalid-Short s h
verdict-Short false s h = h

refusal-Short :
    (b : Bool) (s : Script) → Short s → Short (if b then s else record s { valid = false })
refusal-Short true s h = h
refusal-Short false s h = invalid-Short s h

module _ (crypto : Crypto) where
  execute-Short :
      (op : Opcode) (argument : ℕ) (s : Script)
      → (op ≡ op_stack → argument ≤ 75)
      → Short s
      → IfSome Short (execute crypto op argument s)
  unfolding execute
  execute-Short op_false argument s a h = push-Short _ s (omega arith) h
  execute-Short op_true argument s a h = push-Short _ s (omega arith) h
  execute-Short op_dup argument s a h =
      elim s.stack
          as (λ stack.
            All IsShort stack
            → IfSome Short (elim stack [ [] ↦ none | top ∷ rest ↦ some (push top s) ])) [
              | [] ↦ λ k. tt
              | top ∷ rest ↦ λ k. push-Short top s k.0 h
            ]
        h.short_stack
  execute-Short op_equal argument s a h =
      pop-Short s
        (λ first_top s₁. pop s₁ λ second_top s₂.
          some (if list_eq first_top second_top then push (0x01 ∷ []) s₂ else push (0x00 ∷ []) s₂))
        h
        λ first_top s₁ f h₁.
          pop-Short s₁
            (λ second_top s₂.
              some
                (if list_eq first_top second_top then push (0x01 ∷ []) s₂ else push (0x00 ∷ []) s₂))
            h₁ λ second_top s₂ g h₂. answer-Short (list_eq first_top second_top) s₂ h₂
  execute-Short op_verify argument s a h =
      pop-Short s
        (λ stack_top s₁.
          some (if list_eq stack_top (0x01 ∷ []) then record s₁ { valid = false } else s₁))
        h λ stack_top s₁ f h₁. verdict-Short (list_eq stack_top (0x01 ∷ [])) s₁ h₁
  execute-Short op_hash160 argument s a h =
      pop-Short s
        (λ to_hash s₁. elim (crypto.ripemd160 to_hash) [ [] ↦ some (push [] s₁) | b ∷ bs ↦ none ]) h
        λ to_hash s₁ f h₁.
          elim (crypto.ripemd160 to_hash)
            as (λ hash. IfSome Short (elim hash [ [] ↦ some (push [] s₁) | b ∷ bs ↦ none ])) [
              | [] ↦ push-Short [] s₁ (omega arith) h₁
              | b ∷ bs ↦ tt
            ]
  execute-Short op_checksig argument s a h =
      pop-Short s
        (λ pub_key s₁. pop s₁ λ signature s₂. some (
          if verify crypto (ecdsa_signature crypto signature) s₂.signing_hash pub_key
          then s₂
          else record s₂ { valid = false }))
        h
        λ pub_key s₁ f h₁.
          pop-Short s₁
            (λ signature s₂. some (
              if verify crypto (ecdsa_signature crypto signature) s₂.signing_hash pub_key
              then s₂
              else record s₂ { valid = false }))
            h₁
            λ signature s₂ g h₂.
              refusal-Short
                (verify crypto (ecdsa_signature crypto signature) s₂.signing_hash pub_key) s₂ h₂
  execute-Short op_stack argument s a h =
      elim (pushed_data argument (drop s.code_pointer s.script_instructions))
          as (λ o.
            IfSome (λ bytes. length bytes ≡ argument) o
            → IfSome Short (elim o [
              | none ↦ none
              | some bytes ↦
                  some (push bytes (record s { code_pointer = s.code_pointer + argument }))
            ])) [
              | none ↦ λ k. tt
              | some bytes ↦ λ k. record {
                short_stack = (omega (arith, k, a refl), h.short_stack);
                short_pushes = h.short_pushes;
              }
            ]
        (length-pushed_data argument (drop s.code_pointer s.script_instructions))
  execute-Short op_unknown argument s a h = record {
    short_stack = h.short_stack;
    short_pushes = h.short_pushes;
  }

  advance-Short : (o : Option Script) → IfSome Short o → IfSome Short (advance crypto o)
  advance-Short none h = tt
  advance-Short (some s) h = record { short_stack = h.short_stack; short_pushes = h.short_pushes }

  step-Short : (s : Script) → Short s → IfSome Short (step crypto s)
  unfolding step
  step-Short s h = elim (Option-cases (get_elem? s.script_instructions s.code_pointer)) [
    | inl past ↦ let e : step crypto s ≡ some s = rw (past, step) in subst (IfSome Short) (sym e) h
    | inr (instr, at) ↦ subst (IfSome Short) (sym (step_at crypto s instr at)) (
        advance-Short (execute crypto instr.operation instr.argument s) (
          execute-Short instr.operation instr.argument s
            (All-get_elem? HasShortPush s.script_instructions s.code_pointer instr h.short_pushes
              at)
            h))
  ]

  -- The script after n calls of `step`.
  unfoldable pub steps : ℕ → Script → Option Script
  steps zero s = some s
  steps (suc n) s = elim (step crypto s) [ none ↦ none | some s' ↦ steps n s' ]

  pub steps-Short : (n : ℕ) (s : Script) → Short s → IfSome Short (steps n s)
  unfolding steps
  steps-Short zero s h = h
  steps-Short (suc n) s h =
      elim (step crypto s)
          as (λ o. IfSome Short o → IfSome Short (elim o [ none ↦ none | some s' ↦ steps n s' ])) [
            | none ↦ λ k. tt
            | some s' ↦ λ k. steps-Short n s' k
          ]
        (step-Short s h)

parse_instruction-HasShortPush : (chr : ℕ) → HasShortPush (parse_instruction chr)
unfolding parse_instruction
parse_instruction-HasShortPush chr = ground arith

pub map-HasShortPush : (code : List ℕ) → All HasShortPush (map parse_instruction code)
map-HasShortPush [] = tt
map-HasShortPush (chr ∷ code) = (parse_instruction-HasShortPush chr, map-HasShortPush code)

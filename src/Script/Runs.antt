-- ===== src/Script/Runs.antt =====
-- Runs of a whole script, as LinkedTransaction::validateScript makes them.
use ensicoin_cpp.Crypto.{Crypto}
use ensicoin_cpp.Prelude.{
  ℕ, zero, suc, ◌+◌, ◌≤◌, ◌<◌, ◌≡◌, ◌≢◌, refl, sym, ap, ◌∙◌, Bool-cases, inl, inr, true, false,
  Option-cases, none, some, List, [], ◌∷◌, length, drop, map, get_elem?-past, get_elem?-some, All,
  All-get_elem?, append-nil, length-drop, length-map, subst, arith,
}
use ensicoin_cpp.Script.{
  Script, Instruction, Opcode, op_false, op_true, op_dup, op_equal, op_verify, op_hash160,
  op_checksig, op_stack, op_unknown, parse_instruction, step, execute, advance, done, run, accepted,
  rejected, undefined, running,
}
use ensicoin_cpp.Script.Machine.{step_at, step-op_stack}

-- No instruction is OP_STACK.
abbrev pub HasNoPush : Script → Type 0
HasNoPush s = All (λ i. i.operation ≢ op_stack) s.script_instructions

-- What a step leaves: the instructions and the signing hash; of the pointer, that it moves by one.
record Stepped (s s' : Script) : Type 0 where
  same_instructions : s'.script_instructions ≡ s.script_instructions
  same_hash : s'.signing_hash ≡ s.signing_hash
  moved : s'.code_pointer ≡ s.code_pointer + 1

module _ (crypto : Crypto) where
  advance-Stepped :
      (op : Opcode) (argument : ℕ) (s s' : Script)
      → op ≢ op_stack
      → advance crypto (execute crypto op argument s) ≡ some s'
      → Stepped s s'
  unfolding execute
  advance-Stepped op_false argument s s' h e = ground arith
  advance-Stepped op_true argument s s' h e = ground arith
  advance-Stepped op_dup argument s s' h e = ground arith
  advance-Stepped op_equal argument s s' h e = ground arith
  advance-Stepped op_verify argument s s' h e = ground arith
  advance-Stepped op_hash160 argument s s' h e = ground arith
  advance-Stepped op_checksig argument s s' h e = ground arith
  advance-Stepped op_stack argument s s' h e = absurd (h refl)
  advance-Stepped op_unknown argument s s' h e = ground arith

  step-Stepped :
      (s s' : Script)
      → HasNoPush s
      → s.code_pointer < length s.script_instructions
      → step crypto s ≡ some s'
      → Stepped s s'
  step-Stepped s s' np lt e =
      let (instr, at) = get_elem?-some s.script_instructions s.code_pointer lt in
      advance-Stepped instr.operation instr.argument s s'
        (All-get_elem? (λ (i : Instruction). i.operation ≢ op_stack) s.script_instructions
          s.code_pointer instr np at)
        (sym (step_at crypto s instr at) ∙ e)

  module _ (fuel : ℕ) (s : Script) where
    pub run-done : done s ≡ true → run crypto (suc fuel) s ≡ accepted s
    unfolding run
    run-done d = rw (d, run)

    pub run_undefined : done s ≡ false → step crypto s ≡ none → run crypto (suc fuel) s ≡ undefined
    unfolding run
    run_undefined d e = rw (d, e, run)

    pub run_invalid :
        (s' : Script)
        → done s ≡ false
        → step crypto s ≡ some s'
        → s'.valid ≡ false
        → run crypto (suc fuel) s ≡ rejected
    unfolding run
    run_invalid s' d e v = rw (d, e, run) (ground arith)

    pub run-step :
        (s' : Script)
        → done s ≡ false
        → step crypto s ≡ some s'
        → s'.valid ≡ true
        → run crypto (suc fuel) s ≡ run crypto fuel s'
    unfolding run
    run-step s' d e v = rw (d, e, run) (ground arith)

  -- Once the pointer is past the end of the vector, a script that is still valid runs for ever.
  pub run_past :
      (fuel : ℕ) (s : Script)
      → length s.script_instructions < s.code_pointer
      → s.valid ≡ true
      → run crypto fuel s ≡ running
  unfolding run step done
  run_past zero s h v = refl
  run_past (suc fuel) s h v = run-step fuel s s (ground arith) past v ∙ run_past fuel s h v
    where
      past : step crypto s ≡ some s
      past = rw (get_elem?-past s.script_instructions s.code_pointer (omega arith), step)

  pub run_short_push :
      (fuel : ℕ) (s : Script) (bs : List ℕ)
      → length bs < 0x4b
      → drop s.code_pointer s.script_instructions ≡ map parse_instruction (suc (length bs) ∷ bs)
      → s.valid ≡ true
      → run crypto fuel s ≡ running
  unfolding run done
  run_short_push zero s bs h e v = refl
  run_short_push (suc fuel) s bs h e v =
      run-step fuel s _ (ground (arith, left))
        (step-op_stack crypto s bs [] h (e ∙ sym (append-nil _))) v
      ∙ run_past fuel _ (omega (arith, left)) v
    where
      left : length s.script_instructions ≡ s.code_pointer + suc (length bs)
      left = omega (
        arith,
        length-drop s.code_pointer s.script_instructions,
        ap (length {A = Instruction}) e,
        length-map parse_instruction (suc (length bs) ∷ bs),
      )

  -- A script without OP_STACK is decided: with more rounds than it has instructions left, the run
  -- ends.
  pub run-ne-running :
      (fuel : ℕ) (s : Script)
      → HasNoPush s
      → s.code_pointer ≤ length s.script_instructions
      → length s.script_instructions < s.code_pointer + fuel
      → run crypto fuel s ≢ running
  run-ne-running zero s np le h = absurd (omega arith)
  run-ne-running (suc fuel) s np le h = elim (Bool-cases (done s)) [
    | inl d ↦ rw (run-done fuel s d) (λ e. cc)
    | inr d ↦ elim (Option-cases (step crypto s)) [
      | inl u ↦ rw (run_undefined fuel s d u) (λ e. cc)
      | inr (s', e) ↦ elim (Bool-cases s'.valid) [
        | inl v ↦
            let st : Stepped s s' = step-Stepped s s' np (not_at_end d) e in
            rw (run-step fuel s s' d e v) (
              run-ne-running fuel s'
                (subst (All (λ i. i.operation ≢ op_stack)) (sym st.same_instructions) np)
                (rw st.same_instructions (omega (arith, st.moved, not_at_end d)))
                (rw st.same_instructions (omega (arith, st.moved))))
        | inr v ↦ rw (run_invalid fuel s s' d e v) (λ e. cc)
      ]
    ]
  ]
    where
      not_at_end : done s ≡ false → s.code_pointer < length s.script_instructions
      not_at_end d = unfold done in ground arith

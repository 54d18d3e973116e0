-- ===== src/Tests/Machine.antt =====
-- Scripts run.
use ensicoin_cpp.Prelude.{true, ◌≡◌, refl, some, [], ◌∷◌, map, arith}
use ensicoin_cpp.Script.{
  Script, accepted, running, run, step, script_of, execute, done, parse_instruction,
}
use ensicoin_cpp.Script.Machine.{step-op_stack}
use ensicoin_cpp.Script.Reference.{script_at, verdict, ending, run_reference}
use ensicoin_cpp.Script.Runs.{run_short_push}
use ensicoin_cpp.Tests.Samples.{ones, dup_equal}

-- OP_TRUE, OP_DUP, OP_EQUAL leaves 0x01.
run-dup_equal :
    run ones 4 dup_equal ≡ accepted (record dup_equal { code_pointer = 3; stack = (1 ∷ []) ∷ [] })
unfolding run step execute done
run-dup_equal = refl

-- At a push of two bytes, behind which one is left.
abbrev short_push : Script
unfolding script_of
short_push = script_of (map parse_instruction (2 ∷ 80 ∷ [])) []

run_short_push_example : run ones 100 short_push ≡ running
unfolding short_push
run_short_push_example = run_short_push ones 100 short_push (80 ∷ []) (omega arith) refl refl

abbrev full_push : Script
unfolding script_of
full_push = script_of (map parse_instruction (2 ∷ 5 ∷ 80 ∷ [])) []

step-op_stack_example :
    step ones full_push ≡ some (record full_push { stack = (1 ∷ 1 ∷ []) ∷ []; code_pointer = 3 })
unfolding full_push step parse_instruction
step-op_stack_example =
    step-op_stack ones full_push (5 ∷ []) (parse_instruction 80 ∷ []) (omega arith) refl

run_reference_example :
    run ones 4 (script_at dup_equal.script_instructions [] 0 [] true)
    ≡ ending ones [] dup_equal.script_instructions
        (verdict ones [] dup_equal.script_instructions [])
run_reference_example =
    run_reference ones [] 4 dup_equal.script_instructions []
      ((λ e. cc), ((λ e. cc), ((λ e. cc), tt))) (omega arith)

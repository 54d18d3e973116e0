-- ===== src/Script/Reference.antt =====
-- What a script computes, without pointer, fuel and state: its instructions one after the other, each
-- by its effect on the stack.
use ensicoin_cpp.Crypto.{Crypto, ecdsa_signature, verify}
use ensicoin_cpp.Prelude.{
  ℕ, zero, suc, ◌+◌, ◌-◌, ◌≤◌, ◌<◌, ◌≡◌, ◌≢◌, refl, sym, ap, ◌∙◌, if◌then◌else◌, Bool, Bool-cases,
  inl, inr, true, false, not, Option, Option-cases, none, some, List, [], ◌∷◌, length, drop,
  list_eq, get_elem?-drop, All, length-drop, arith,
}
use ensicoin_cpp.Script.{
  Script, Instruction, Opcode, op_false, op_true, op_dup, op_equal, op_verify, op_hash160,
  op_checksig, op_stack, op_unknown, step, execute, advance, done, Run, run, accepted, rejected,
  undefined,
}
use ensicoin_cpp.Script.Machine.{step_at}
use ensicoin_cpp.Script.Runs.{run-done, run_undefined, run_invalid, run-step}

-- A stack, the top first.
abbrev pub Stack : Type 0
Stack = List (List ℕ)

-- The script that is left valid or not with a stack, at a place.
abbrev pub script_at : List Instruction → List ℕ → ℕ → Stack → Bool → Script
script_at instrs signing_hash code_pointer stack valid = record {
  script_instructions = instrs;
  code_pointer = code_pointer;
  stack = stack;
  valid = valid;
  signing_hash = signing_hash;
}

drop_next {ℓ} :
    {A : Type ℓ} (n : ℕ) (xs : List A) (x : A) (rest : List A)
    → drop n xs ≡ x ∷ rest
    → drop (suc n) xs ≡ rest
drop_next zero [] x rest e = cc
drop_next zero (y ∷ ys) x rest e = cc
drop_next (suc n) [] x rest e = cc
drop_next (suc n) (y ∷ ys) x rest e = drop_next n ys x rest e

pub data Verdict : Type 0 where
  accepts : Stack → Verdict
  rejects fails : Verdict

module _ (crypto : Crypto) (signing_hash : List ℕ) where
  -- What an instruction leaves, and whether the script is still valid; `none` where it has no meaning.
  unfoldable pub effect : Opcode → Stack → Option (Stack × Bool)
  effect op_false stack = some ((0 ∷ []) ∷ stack, true)
  effect op_true stack = some ((1 ∷ []) ∷ stack, true)
  effect op_dup (a ∷ stack) = some (a ∷ a ∷ stack, true)
  effect op_equal (a ∷ b ∷ stack) = some ((if list_eq a b then 1 ∷ [] else 0 ∷ []) ∷ stack, true)
  effect op_verify (a ∷ stack) = some (stack, not (list_eq a (1 ∷ [])))
  effect op_checksig (key ∷ signature ∷ stack) =
      some (stack, verify crypto (ecdsa_signature crypto signature) signing_hash key)
  effect op_unknown stack = some (stack, false)
  effect op stack = none

  unfoldable pub verdict : List Instruction → Stack → Verdict
  verdict [] stack = accepts stack
  verdict (instr ∷ instrs) stack = elim (effect instr.operation stack) [
    | none ↦ fails
    | some (stack', valid) ↦ if valid then verdict instrs stack' else rejects
  ]

  -- The end of a run with a verdict.
  abbrev pub ending : List Instruction → Verdict → Run
  ending instrs (accepts stack) =
      accepted (script_at instrs signing_hash (length instrs) stack true)
  ending instrs rejects = rejected
  ending instrs fails = undefined

  abbrev after : List Instruction → ℕ → Option (Stack × Bool) → Option Script
  after instrs p none = none
  after instrs p (some (stack, valid)) = some (script_at instrs signing_hash p stack valid)

  execute-effect :
      (op : Opcode) (argument : ℕ) (instrs : List Instruction) (p : ℕ) (stack : Stack)
      → op ≢ op_stack
      → execute crypto op argument (script_at instrs signing_hash p stack true)
        ≡ after instrs p (effect op stack)
  unfolding execute effect
  execute-effect op_false argument instrs p stack h = refl
  execute-effect op_true argument instrs p stack h = refl
  execute-effect op_dup argument instrs p [] h = refl
  execute-effect op_dup argument instrs p (a ∷ stack) h = refl
  execute-effect op_equal argument instrs p [] h = refl
  execute-effect op_equal argument instrs p (a ∷ []) h = refl
  execute-effect op_equal argument instrs p (a ∷ b ∷ stack) h = elim (Bool-cases (list_eq a b)) [
    | inl e ↦ rw e refl
    | inr e ↦ rw e refl
  ]
  execute-effect op_verify argument instrs p [] h = refl
  execute-effect op_verify argument instrs p (a ∷ stack) h =
      elim (Bool-cases (list_eq a (1 ∷ []))) [ inl e ↦ rw e refl | inr e ↦ rw e refl ]
  execute-effect op_hash160 argument instrs p [] h = refl
  execute-effect op_hash160 argument instrs p (a ∷ stack) h =
      no_digest (crypto.ripemd160 a) (crypto.length-ripemd160 a)
    where
      no_digest :
          (digest : List ℕ)
          → length digest ≡ 20
          → (elim digest as (λ x. Option Script) [
            | [] ↦ some (script_at instrs signing_hash p ([] ∷ stack) true)
            | b ∷ bs ↦ none
          ])
            ≡ none
      no_digest [] e = absurd (omega (arith, e))
      no_digest (b ∷ bs) e = refl
  execute-effect op_checksig argument instrs p [] h = refl
  execute-effect op_checksig argument instrs p (a ∷ []) h = refl
  execute-effect op_checksig argument instrs p (a ∷ b ∷ stack) h =
      elim (Bool-cases (verify crypto (ecdsa_signature crypto b) signing_hash a)) [
        | inl e ↦ rw e refl
        | inr e ↦ rw e refl
      ]
  execute-effect op_stack argument instrs p stack h = absurd (h refl)
  execute-effect op_unknown argument instrs p stack h = refl

  abbrev fresh_run : ℕ → List Instruction → ℕ → Stack → Run
  fresh_run fuel instrs p stack = run crypto fuel (script_at instrs signing_hash p stack true)

  -- One round, by the effect of the instruction.
  one_round :
      (fuel : ℕ) (instrs rest : List Instruction) (instr : Instruction) (p : ℕ) (stack : Stack)
      → instr.operation ≢ op_stack
      → drop p instrs ≡ instr ∷ rest
      → ((stack' : Stack)
          → fresh_run fuel instrs (p + 1) stack' ≡ ending instrs (verdict rest stack'))
      → fresh_run (suc fuel) instrs p stack ≡ ending instrs (verdict (instr ∷ rest) stack)
  unfolding verdict
  one_round fuel instrs rest instr p stack h d ih =
      elim (Option-cases (effect instr.operation stack)) [
        | inl nothing ↦
            rw (nothing, verdict)
              (run_undefined crypto fuel s going
                (stepped ∙ ap (advance crypto) (ap (after instrs p) nothing)))
        | inr ((stack', true), e) ↦
            rw (e, verdict)
              (run-step crypto fuel s _ going
                  (stepped ∙ ap (advance crypto) (ap (after instrs p) e)) refl
                ∙ ih stack')
        | inr ((stack', false), e) ↦
            rw (e, verdict)
              (run_invalid crypto fuel s _ going
                (stepped ∙ ap (advance crypto) (ap (after instrs p) e)) refl)
      ]
    where
      s : Script
      s = script_at instrs signing_hash p stack true

      length-at : length instrs - p ≡ suc (length rest)
      length-at = sym (length-drop p instrs) ∙ ap (length {A = Instruction}) d

      going : done s ≡ false
      going = unfold done in ground (arith, length-at)

      stepped : step crypto s ≡ advance crypto (after instrs p (effect instr.operation stack))
      stepped =
          step_at crypto s instr (get_elem?-drop p instrs instr rest d)
          ∙ ap (advance crypto) (execute-effect instr.operation instr.argument instrs p stack h)

  -- From any place on, a run of a script that is still valid and has no OP_STACK from there on, with
  -- more rounds than instructions left, ends as the reference says of these and of the stack.
  run-verdict :
      (fuel : ℕ) (instrs rest : List Instruction) (p : ℕ) (stack : Stack)
      → All (λ i. i.operation ≢ op_stack) rest
      → drop p instrs ≡ rest
      → p ≤ length instrs
      → length rest < fuel
      → fresh_run fuel instrs p stack ≡ ending instrs (verdict rest stack)
  unfolding verdict
  run-verdict zero instrs rest p stack h d le n = absurd (omega arith)
  run-verdict (suc fuel) instrs [] p stack h d le n =
      let ended : p ≡ length instrs =
        omega (arith, length-drop p instrs, ap (length {A = Instruction}) d) in
      run-done crypto fuel (script_at instrs signing_hash p stack true)
        (unfold done in ground (arith, ended))
      ∙ ap (λ (q : ℕ). accepted (script_at instrs signing_hash q stack true)) ended
  run-verdict (suc fuel) instrs (instr ∷ rest) p stack h d le n =
      one_round fuel instrs rest instr p stack h.0 d (λ stack'.
        run-verdict fuel instrs rest (p + 1) stack' h.1
          (ap (λ (k : ℕ). drop k instrs) (let e : p + 1 ≡ suc p = omega arith in e)
            ∙ drop_next p instrs instr rest d)
          (omega (arith, length-drop p instrs, ap (length {A = Instruction}) d)) (omega arith))

  -- A script without OP_STACK that has not begun, run with more rounds than it has instructions,
  -- does what the reference says: it is accepted with the stack that its instructions leave one after
  -- the other, rejected at the first of them that makes it invalid, and undefined at the first that
  -- has no meaning on its stack.
  pub run_reference :
      (fuel : ℕ) (instrs : List Instruction) (stack : Stack)
      → All (λ i. i.operation ≢ op_stack) instrs
      → length instrs < fuel
      → run crypto fuel (script_at instrs signing_hash 0 stack true)
        ≡ ending instrs (verdict instrs stack)
  run_reference fuel instrs stack h n =
      run-verdict fuel instrs instrs 0 stack h refl (omega arith) n

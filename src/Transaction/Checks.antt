-- ===== src/Transaction/Checks.antt =====
-- `check` of src/transaction/transaction.cpp.
use ensicoin_cpp.Constants.{max_block_size}
use ensicoin_cpp.Json.{Json, items_of, item}
use ensicoin_cpp.Prelude.{
  ℕ, ◌≤◌, ◌≡◌, ◌≢◌, ◌↔◌, refl, ap, ◌==◌, Bool, true, false, ◌||◌, List, [], ◌∷◌, map, length, All,
  arith,
}
use ensicoin_cpp.Script.{Script}
use ensicoin_cpp.Transaction.{
  InputTransaction, OutputTransaction, Transaction, input_json, output_json, transaction_json,
  check, any_without_value, is_empty,
}

any_without_value_iff :
    (outputs : List OutputTransaction)
    → (any_without_value outputs ≡ false) ↔ All (λ output. output.value ≢ 0) outputs
unfolding any_without_value
any_without_value_iff [] = (λ h. tt, λ h. refl)
any_without_value_iff (output ∷ outputs) = (
  λ h. (ground arith, (any_without_value_iff outputs).0 (ground arith)),
  λ h. ground (arith, (any_without_value_iff outputs).1 h.1),
)

is_empty_iff {ℓ} : {A : Type ℓ} (xs : List A) → (is_empty xs ≡ false) ↔ (xs ≢ [])
is_empty_iff [] = (λ h. cc, λ h. absurd (h refl))
is_empty_iff (x ∷ xs) = (λ h e. cc, λ h. refl)

-- A transaction passes `check` exactly if it has an input and an output, its JSON text is not longer
-- than a block may be, and no output has the value 0.
pub check_iff :
    (print_json : Json → List ℕ) (tx : Transaction)
    → (check print_json tx ≡ true) ↔ (
        (tx.inputs ≢ [])
        × (tx.outputs ≢ [])
        × (length (print_json (transaction_json tx)) ≤ max_block_size)
        × All (λ output. output.value ≢ 0) tx.outputs)
unfolding check
check_iff print_json tx = (
  λ h. (
    (is_empty_iff tx.inputs).0 (ground arith),
    (is_empty_iff tx.outputs).0 (ground arith),
    ground arith,
    (any_without_value_iff tx.outputs).0 (ground arith),
  ),
  λ h.
      let some_input : is_empty tx.inputs ≡ false = (is_empty_iff tx.inputs).1 h.0 in
      let some_output : is_empty tx.outputs ≡ false = (is_empty_iff tx.outputs).1 h.1 in
      let valued : any_without_value tx.outputs ≡ false =
        (any_without_value_iff tx.outputs).1 h.3 in
      let short : length (print_json (transaction_json tx)) ≤ max_block_size = h.2 in ground arith,
)

abbrev pub input_with : (Script → Script) → InputTransaction → InputTransaction
input_with f input = record input { script = f input.script }

abbrev pub output_with : (Script → Script) → OutputTransaction → OutputTransaction
output_with f output = record output { script = f output.script }

-- Every script of a transaction replaced.
abbrev pub with_scripts : (Script → Script) → Transaction → Transaction
with_scripts f tx = record tx {
  inputs = map (input_with f) tx.inputs;
  outputs = map (output_with f) tx.outputs;
}

inputs-with_scripts :
    (f : Script → Script) (inputs : List InputTransaction)
    → items_of input_json (map (input_with f) inputs) ≡ items_of input_json inputs
unfolding items_of input_json
inputs-with_scripts f [] = refl
inputs-with_scripts f (input ∷ inputs) = ap (item (input_json input)) (inputs-with_scripts f inputs)

outputs-with_scripts :
    (f : Script → Script) (outputs : List OutputTransaction)
    → items_of output_json (map (output_with f) outputs) ≡ items_of output_json outputs
unfolding items_of output_json
outputs-with_scripts f [] = refl
outputs-with_scripts f (output ∷ outputs) =
    ap (item (output_json output)) (outputs-with_scripts f outputs)

any_without_value-with_scripts :
    (f : Script → Script) (outputs : List OutputTransaction)
    → any_without_value (map (output_with f) outputs) ≡ any_without_value outputs
unfolding any_without_value
any_without_value-with_scripts f [] = refl
any_without_value-with_scripts f (output ∷ outputs) =
    ap (λ (b : Bool). (output.value == 0) || b) (any_without_value-with_scripts f outputs)

is_empty-map {ℓ} : {A : Type ℓ} (f : A → A) (xs : List A) → is_empty (map f xs) ≡ is_empty xs
is_empty-map f [] = refl
is_empty-map f (x ∷ xs) = refl

-- `check` does not see the scripts: whatever replaces them, however long, the answer is the same.
pub check-with_scripts :
    (print_json : Json → List ℕ) (f : Script → Script) (tx : Transaction)
    → check print_json (with_scripts f tx) ≡ check print_json tx
unfolding check transaction_json
check-with_scripts print_json f tx = rw (
  is_empty-map (input_with f) tx.inputs,
  is_empty-map (output_with f) tx.outputs,
  inputs-with_scripts f tx.inputs,
  outputs-with_scripts f tx.outputs,
  any_without_value-with_scripts f tx.outputs,
)

-- ===== src/LinkedTransaction/Validation.antt =====
-- `validate` and `validateScript` of src/linkedtransaction.cpp.
use ensicoin_cpp.HashMemory.{get, hash_exists}
use ensicoin_cpp.LinkedTransaction.{
  Env, LinkedTransaction, Pool, Db, pool_exists, count, insert_id, link, link_inputs, linked_hash,
  is_orphan, input_value, fetch_output, pool_script_of_output, validate_input, validate,
}
use ensicoin_cpp.Transaction.Ids.{id_eq→eq, id_eq_refl}
use ensicoin_cpp.Prelude.{
  ℕ, ◌≡◌, ◌≢◌, refl, sym, ◌∙◌, ◌&&◌, not, if◌then◌else◌, Option, Bool-cases, none, some, inl, inr,
  true, false, ◌||◌, List, [], ◌∷◌, arith,
}
use ensicoin_cpp.Prelude.Int.{ℤ}
use ensicoin_cpp.Prelude.Outcome.{Outcome, returns, throws, undefined, endless, ◌>>=◌}
use ensicoin_cpp.Transaction.{
  TransactionIdentifier, InputTransaction, Transaction, id_eq, check, inputs_id, output_value,
}
use ensicoin_cpp.Utxo.{utxo_exists}

count-insert_id :
    (id y : TransactionIdentifier) (set : List TransactionIdentifier)
    → count id set ≡ true
    → count id (insert_id y set) ≡ true
unfolding insert_id count
count-insert_id id y set h = ground arith

count-insert_id_self :
    (id : TransactionIdentifier) (set : List TransactionIdentifier)
    → count id (insert_id id set) ≡ true
unfolding insert_id count
count-insert_id_self id set = ground (arith, id_eq_refl id)

module _ (env : Env) (pool : Pool env) (db : Db env) where
  -- The sum of the inputs is 0 whenever there is one.
  pub input_value-zero :
      (l : LinkedTransaction) (v : ℕ)
      → input_value env pool db l ≡ returns v
      → v ≡ output_value l.tx
  unfolding input_value output_value
  input_value-zero l v h = ground arith

  -- What is left of `validate` for any inputs and outputs: it comes as far as the sum of the inputs,
  -- and is false.
  abbrev pub refused : LinkedTransaction → Outcome (Option LinkedTransaction)
  refused l =
      if check env.print_json l.tx
        && (not (is_orphan l) && not (pool_exists env pool (linked_hash env l)))
      then (do v ← input_value env pool db l; returns none)
      else returns none

  validate-refused :
      (height : ℤ) (l : LinkedTransaction) → validate env pool db height l ≡ refused l
  unfolding validate
  validate-refused height l = by_sum (input_value env pool db l) refl
    where
      by_sum :
          (r : Outcome ℕ)
          → input_value env pool db l ≡ r
          → validate env pool db height l ≡ refused l
      by_sum (returns v) e = ground (arith, input_value-zero l v e)
      by_sum throws e = ground arith
      by_sum undefined e = ground arith
      by_sum endless e = ground arith

  refused-ne-some : (l l' : LinkedTransaction) → refused l ≢ returns (some l')
  refused-ne-some l l' h = by_sum (input_value env pool db l) refl
    where
      by_sum : (r : Outcome ℕ) → input_value env pool db l ≡ r → ⊥
      by_sum (returns v) e = ground arith
      by_sum throws e = ground arith
      by_sum undefined e = ground arith
      by_sum endless e = ground arith

  -- `validate` never returns true: for every transaction, whatever its inputs and outputs, the mempool,
  -- the database and the height, it is false, unless the sum of the inputs, to which it comes where
  -- `check` passes and the transaction is no orphan and not in the mempool, does not return; it never
  -- comes to the heights or the scripts.
  pub validate-ne-true :
      (height : ℤ) (l l' : LinkedTransaction)
      → (validate env pool db height l ≡ refused l)
        × (validate env pool db height l ≢ returns (some l'))
  validate-ne-true height l l' =
      (validate-refused height l, λ h. refused-ne-some l l' (sym (validate-refused height l) ∙ h))

  absent :
      (hash : List ℕ) → pool_exists env pool hash ≡ false → get (linked_hash env) pool hash ≡ none
  unfolding hash_exists get
  absent hash h = ground arith

  linked_on_disk :
      (ids deps mempool_deps : List TransactionIdentifier) (id : TransactionIdentifier)
      → pool_exists env pool id.transaction_hash ≡ false
      → utxo_exists env.level env.hex env.stack db id ≡ true
      → (count id deps || count id ids) ≡ true
      → count id (link_inputs env pool db ids deps mempool_deps).0 ≡ true
  unfolding link_inputs count
  linked_on_disk [] deps mempool_deps id np d h = ground arith
  linked_on_disk (y ∷ ids) deps mempool_deps id np d h =
      linked_on_disk ids _ _ id np d (elim (Bool-cases (count id deps)) [
        | inl old ↦ ground (arith, count-insert_id id y deps old)
        | inr new ↦ elim (Bool-cases (id_eq y id)) [
          | inl same ↦
              let e : y ≡ id = id_eq→eq y id same in
              rw (e, np, d) (ground (arith, count-insert_id_self id deps))
          | inr other ↦ ground arith
        ]
      ])

  -- An input whose output is in the database and not in the mempool makes the validation of its
  -- script throw: it is looked up in the mempool.
  pub validate_input_throws :
      (tx : Transaction) (input : InputTransaction)
      → count input.previous_output (inputs_id tx) ≡ true
      → pool_exists env pool input.previous_output.transaction_hash ≡ false
      → utxo_exists env.level env.hex env.stack db input.previous_output ≡ true
      → validate_input env pool db (link env tx pool db) input ≡ throws
  unfolding validate_input fetch_output pool_script_of_output link
  validate_input_throws tx input c np d =
      let on_disk : count input.previous_output (link_inputs env pool db (inputs_id tx) [] []).0
          ≡ true =
        linked_on_disk (inputs_id tx) [] [] input.previous_output np d (unfold count in c) in
      ground (arith, absent input.previous_output.transaction_hash np)

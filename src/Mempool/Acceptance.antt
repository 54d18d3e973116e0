-- ===== src/Mempool/Acceptance.antt =====
-- What addTransaction of src/mempool.cpp accepts.
use ensicoin_cpp.HashMemory.{hash_exists, lookup}
use ensicoin_cpp.LinkedTransaction.{
  Env, LinkedTransaction, link, link_inputs, is_orphan, validate, input_value, sum_pool,
  get_orphan_deps, linked_hash, Pool, Db,
}
use ensicoin_cpp.LinkedTransaction.Linking.{is_linkable}
use ensicoin_cpp.LinkedTransaction.Orphans.{is_orphan-link}
use ensicoin_cpp.LinkedTransaction.Validation.{validate-ne-true}
use ensicoin_cpp.Mempool.{Mempool, add_transaction, add_orphan, add_regular, orphan_exists}
use ensicoin_cpp.Prelude.{
  ℕ, ◌≡◌, refl, sym, subst, ◌&&◌, if◌then◌else◌, not, ap, Bool, false, Option, none, some, List, [],
  ◌∷◌, arith,
}
use ensicoin_cpp.Prelude.Outcome.{Outcome, returns, throws, undefined, endless}
use ensicoin_cpp.Prelude.Int.{ℤ}
use ensicoin_cpp.Transaction.{TransactionIdentifier, Transaction, check, inputs_id, output_value}

module _ (env : Env) where
  -- A call that returns leaves the pool of valid transactions and the database as they were.
  add_regular-keeps :
      (fuel : ℕ) (l : LinkedTransaction) (m m' : Mempool env) (added : Bool)
      → add_regular env fuel l m ≡ returns (m', added)
      → (m' ≡ m) × (added ≡ false)
  unfolding add_regular
  add_regular-keeps fuel l m m' added h =
      by_result (validate env m.main_pool m.utxos m.current_height l) refl
    where
      by_result :
          (r : Outcome (Option LinkedTransaction))
          → validate env m.main_pool m.utxos m.current_height l ≡ r
          → (m' ≡ m) × (added ≡ false)
      by_result (returns none) e = ground arith
      by_result (returns (some l')) e =
          absurd ((validate-ne-true env m.main_pool m.utxos m.current_height l l').1 e)
      by_result throws e = ground arith
      by_result undefined e = ground arith
      by_result endless e = ground arith

  -- A transaction that is no orphan is never taken in: where the call returns, it returns false and
  -- nothing has changed.
  pub add_transaction_regular :
      (fuel : ℕ) (m m' : Mempool env) (tx : Transaction) (added : Bool)
      → is_orphan (link env tx m.main_pool m.utxos) ≡ false
      → add_transaction env fuel m tx ≡ returns (m', added)
      → (m' ≡ m) × (added ≡ false)
  unfolding add_transaction
  add_transaction_regular fuel m m' tx added o h =
      ground (arith, add_regular-keeps fuel (link env tx m.main_pool m.utxos) m m' added)

  -- With an empty pool no input is found in it.
  link_inputs-empty :
      (db : Db env) (ids deps mempool_deps : List TransactionIdentifier)
      → (link_inputs env [] db ids deps mempool_deps).1 ≡ mempool_deps
  unfolding link_inputs hash_exists lookup
  link_inputs-empty db [] deps mempool_deps = refl
  link_inputs-empty db (id ∷ ids) deps mempool_deps = link_inputs-empty db ids _ mempool_deps

  input_value-empty :
      (db : Db env) (tx : Transaction) → input_value env [] db (link env tx [] db) ≡ returns 0
  unfolding input_value link sum_pool
  input_value-empty db tx = ground (
    arith,
    ap (λ (ids : List TransactionIdentifier). sum_pool env [] 0 ids)
        (link_inputs-empty db (inputs_id tx) [] []),
  )

  validate-empty :
      (db : Db env) (height : ℤ) (tx : Transaction)
      → validate env [] db height (link env tx [] db) ≡ returns none
  unfolding validate output_value
  validate-empty db height tx = ground (arith, input_value-empty db tx)

  -- With an empty pool nothing is ever added. A transaction that passes `check`, has an input that
  -- is not in the database or repeats an earlier one, and is not among the orphans makes the call
  -- undefined; any other one is refused, and nothing changes.
  pub add_transaction-on_empty :
      (fuel : ℕ) (m : Mempool env) (tx : Transaction)
      → m.main_pool ≡ []
      → add_transaction env fuel m tx ≡ (
          if check env.print_json tx
            && (not (is_linkable env m.main_pool m.utxos [] (inputs_id tx))
                && not (orphan_exists env m (linked_hash env (link env tx m.main_pool m.utxos))))
          then undefined
          else returns (m, false))
  unfolding add_transaction add_regular add_orphan get_orphan_deps orphan_exists
  add_transaction-on_empty fuel m tx h =
      ground (arith, validated, is_orphan-link env m.main_pool m.utxos tx)
    where
      validated :
          validate env m.main_pool m.utxos m.current_height (link env tx m.main_pool m.utxos)
          ≡ returns none
      validated =
          subst
            (λ (pool : Pool env).
              validate env pool m.utxos m.current_height (link env tx pool m.utxos) ≡ returns none)
            (sym h) (validate-empty m.utxos m.current_height tx)

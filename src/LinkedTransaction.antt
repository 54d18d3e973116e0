-- ===== src/LinkedTransaction.antt =====
-- include/linkedtransaction.hpp and src/linkedtransaction.cpp: a transaction with the outputs that
-- it spends. Its pointers to the mempool and the database are arguments here.
pub mod Linking
pub mod Orphans
pub mod Validation
use ensicoin_cpp.Crypto.{Crypto}
use ensicoin_cpp.HashMemory.{HashMemory, hash_exists, get}
use ensicoin_cpp.Json.{Json}
use ensicoin_cpp.LevelDb.{LevelDb}
use ensicoin_cpp.Networkable.{HexDecoder}
use ensicoin_cpp.Prelude.{
  ℕ, zero, suc, ◌+◌, ◌%◌, ◌^◌, leb, ltb, ◌==◌, if◌then◌else◌, Bool, true, false, ◌&&◌, ◌||◌, not,
  Option, none, some, List, [], ◌∷◌, length,
}
use ensicoin_cpp.Prelude.Int.{ℤ}
use ensicoin_cpp.Prelude.Outcome.{Outcome, returns, undefined, ◌>>=◌, or_throw, or_undefined}
use ensicoin_cpp.Script.{Script, Instruction, chain, set_s_hash}
use ensicoin_cpp.Transaction.{
  TransactionIdentifier, InputTransaction, Transaction, id_eq, inputs_id, check, output_value,
  transaction_hash, value_of_output, script_of_output, signing_hash,
}
use ensicoin_cpp.Utxo.{UtxoData, utxo_exists, get_data}

-- What the node runs on: LevelDB, Crypto++, the JSON text that RapidJSON prints, and what stands
-- in uninitialised storage, on the stack and where an entry of the database is parsed.
pub record Env : Type 1 where
  pub level : LevelDb
  pub hex : HexDecoder
  pub crypto : Crypto
  pub print_json : Json → List ℕ
  pub stack : List ℕ
  pub fresh : ℕ → List ℕ

-- The two std::unordered_set<UTXO> are lists without repetition.
pub record LinkedTransaction : Type 0 where
  pub tx : Transaction
  pub dependencies : List TransactionIdentifier
  pub mempool_deps : List TransactionIdentifier

-- `set.count(id) != 0`.
unfoldable pub count : TransactionIdentifier → List TransactionIdentifier → Bool
count id [] = false
count id (x ∷ xs) = id_eq x id || count id xs

unfoldable pub insert_id :
    TransactionIdentifier → List TransactionIdentifier → List TransactionIdentifier
insert_id id set = if count id set then set else id ∷ set

-- `dependencies.size() + mempoolDeps.size() != inputs.size()`.
unfoldable pub is_orphan : LinkedTransaction → Bool
is_orphan l = not (length l.dependencies + length l.mempool_deps == length l.tx.inputs)

-- getInputsId returns a vector by value, so that begin() and end() in `copy_if` are iterators of two
-- vectors and no range.
unfoldable pub get_orphan_deps : LinkedTransaction → Outcome (List TransactionIdentifier)
get_orphan_deps l = undefined

-- `int + int`, on bit patterns: undefined where the sum is no int.
unfoldable pub int_add : ℕ → ℕ → Outcome ℕ
int_add s v =
    if ltb s (2 ^ 31) && ltb v (2 ^ 31) && not (ltb (s + v) (2 ^ 31))
    then undefined
    else if not (ltb s (2 ^ 31)) && not (ltb v (2 ^ 31)) && ltb (s + v) (2 ^ 32 + 2 ^ 31)
    then undefined
    else returns ((s + v) % 2 ^ 32)

module _ (env : Env) where
  unfoldable pub linked_hash : LinkedTransaction → List ℕ
  linked_hash l = transaction_hash env.hex env.stack env.crypto l.tx

  -- The transactions of the mempool, and the database of unspent outputs.
  abbrev pub Pool : Type 0
  Pool = HashMemory linked_hash

  abbrev pub Db : Type 0
  Db = env.level.State

  abbrev pub pool_exists : Pool → List ℕ → Bool
  pool_exists pool hash = hash_exists linked_hash pool hash

  -- The loop of the constructor.
  unfoldable pub link_inputs :
      Pool
      → Db
      → List TransactionIdentifier
      → List TransactionIdentifier
      → List TransactionIdentifier
      → List TransactionIdentifier × List TransactionIdentifier
  link_inputs pool db [] deps mempool_deps = (deps, mempool_deps)
  link_inputs pool db (id ∷ ids) deps mempool_deps =
      let in_pool = pool_exists pool id.transaction_hash in
      let on_disk = utxo_exists env.level env.hex env.stack db id in
      link_inputs pool db ids
        (if in_pool then deps else if on_disk then insert_id id deps else deps)
        (if in_pool then insert_id id mempool_deps else mempool_deps)

  unfoldable pub link : Transaction → Pool → Db → LinkedTransaction
  link tx pool db =
      let (deps, mempool_deps) = link_inputs pool db (inputs_id tx) [] [] in
      record { tx = tx; dependencies = deps; mempool_deps = mempool_deps }

  -- Mempool::valueOfOutput, scriptOfOutput and signingHash.
  unfoldable pub pool_value_of_output : Pool → TransactionIdentifier → Outcome ℕ
  pool_value_of_output pool id = do
    l ← or_throw (get linked_hash pool id.transaction_hash)
    or_undefined (value_of_output l.tx id.index)

  unfoldable pub pool_script_of_output : Pool → TransactionIdentifier → Outcome Script
  pool_script_of_output pool id = do
    l ← or_throw (get linked_hash pool id.transaction_hash)
    or_undefined (script_of_output l.tx id.index)

  unfoldable pub pool_signing_hash : Pool → List ℕ → Outcome (List ℕ)
  pool_signing_hash pool hash = do
    l ← or_throw (get linked_hash pool hash)
    returns (signing_hash l.tx)

  -- The two std::accumulate of inputValue, with `s` an int.
  unfoldable pub sum_disk : Db → ℕ → List TransactionIdentifier → ℕ
  sum_disk db s [] = s
  sum_disk db s (id ∷ ids) =
      sum_disk db ((s + (get_data env.level env.hex env.stack env.fresh db id).value) % 2 ^ 32) ids

  unfoldable pub sum_pool : Pool → ℕ → List TransactionIdentifier → Outcome ℕ
  sum_pool pool s [] = returns s
  sum_pool pool s (id ∷ ids) = do
    v ← pool_value_of_output pool id
    s' ← int_add s v
    sum_pool pool s' ids

  -- The results of std::accumulate are not used: `sum` is returned as it was.
  unfoldable pub input_value : Pool → Db → LinkedTransaction → Outcome ℕ
  input_value pool db l =
      if is_orphan l
      then returns 0
      else (let sum : ℕ = 0 in
          let accumulated = sum_disk db sum l.dependencies in
          do accumulated' ← sum_pool pool sum l.mempool_deps; returns sum)

  -- Where an input's script and signing hash come from: the database if the input is NOT among the
  -- dependencies that were found there, and the mempool if it is.
  unfoldable pub fetch_output :
      Pool → Db → LinkedTransaction → TransactionIdentifier → Outcome (Script × List ℕ)
  fetch_output pool db l id =
      if not (count id l.dependencies)
      then (let data_ = get_data env.level env.hex env.stack env.fresh db id in
          returns (data_.script, data_.signing_hash))
      else (do
        out_script ← pool_script_of_output pool id
        shash ← pool_signing_hash pool id.transaction_hash
        returns (out_script, shash))

  -- The loop over the instructions of an input to which others have been chained: the code pointer
  -- points into the instructions of the script that the input was copied from, or where those of the
  -- input were before the insertion.
  run_chained : List Instruction → Outcome (Option InputTransaction)
  run_chained code = undefined

  -- One round of the loop of validateScript, on one input; `none` is `return false`.
  unfoldable pub validate_input :
      Pool → Db → LinkedTransaction → InputTransaction → Outcome (Option InputTransaction)
  unfolding run_chained
  validate_input pool db l input = do
    (out_script, shash) ← fetch_output pool db l input.previous_output
    run_chained (chain input.script (set_s_hash shash out_script))

  unfoldable pub validate_inputs :
      Pool
      → Db
      → LinkedTransaction
      → List InputTransaction
      → Outcome (Option (List InputTransaction))
  validate_inputs pool db l [] = returns (some [])
  validate_inputs pool db l (input ∷ inputs) = do
    first ← validate_input pool db l input
    (elim first [
      | none ↦ returns none
      | some input' ↦ do
        others ← validate_inputs pool db l inputs
        returns (elim others [ none ↦ none | some inputs' ↦ some (input' ∷ inputs') ])
    ])

  unfoldable pub validate_script :
      Pool → Db → LinkedTransaction → Outcome (Option LinkedTransaction)
  validate_script pool db l = do
    inputs ← validate_inputs pool db l l.tx.inputs
    returns (elim inputs [
      | none ↦ none
      | some inputs' ↦ some (record l { tx = record l.tx { inputs = inputs' } })
    ])

  -- `any_of` over begin() and end() of two copies of the list, as in getOrphanDeps.
  any_unspendable : Db → ℤ → List TransactionIdentifier → Outcome Bool
  any_unspendable db height ids = undefined

  -- `none` is false; true comes with the transaction as validateScript leaves it.
  unfoldable pub validate : Pool → Db → ℤ → LinkedTransaction → Outcome (Option LinkedTransaction)
  unfolding any_unspendable
  validate pool db height l =
      if not (check env.print_json l.tx)
      then returns none
      else if is_orphan l
      then returns none
      else if pool_exists pool (linked_hash l)
      then returns none
      else (do
        total_in ← input_value pool db l
        (if leb total_in (output_value l.tx) then returns none else (do
          unspendable ← any_unspendable db height (inputs_id l.tx)
          (if unspendable then returns none else validate_script pool db l))))

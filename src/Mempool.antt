-- ===== src/Mempool.antt =====
-- include/mempool.hpp and src/mempool.cpp: the transactions that are in no block.
pub mod Acceptance
pub mod Registration
pub mod Stuck
use ensicoin_cpp.HashMemory.{hash_exists, add, get, erase, lookup, insert}
use ensicoin_cpp.LinkedTransaction.{
  Env, LinkedTransaction, Pool, Db, linked_hash, link, is_orphan, get_orphan_deps, validate,
}
use ensicoin_cpp.Prelude.{
  ℕ, zero, suc, ◌+◌, ◌^◌, ltb, if◌then◌else◌, Bool, true, false, not, Option, none, some, List, [],
  ◌∷◌,
}
use ensicoin_cpp.Prelude.Int.{ℤ, pos, negsuc}
use ensicoin_cpp.Prelude.Outcome.{Outcome, returns, undefined, endless, ◌>>=◌, or_throw}
use ensicoin_cpp.Transaction.{TransactionIdentifier, Transaction, check, output_count, id_byte_repr}

-- `currentHeight++` and `currentHeight--`, undefined at the ends of int.
unfoldable pub increment : ℤ → Outcome ℤ
increment (pos n) = if ltb (n + 1) (2 ^ 31) then returns (pos (n + 1)) else undefined
increment (negsuc zero) = returns (pos 0)
increment (negsuc (suc n)) = returns (negsuc n)

unfoldable pub decrement : ℤ → Outcome ℤ
decrement (pos zero) = returns (negsuc 0)
decrement (pos (suc n)) = returns (pos n)
decrement (negsuc n) = if ltb (n + 1) (2 ^ 31) then returns (negsuc (n + 1)) else undefined

pub data TxType : Type 0 where
  orphan regular unknown : TxType

module _ (env : Env) where
  -- `main_pool` holds the valid transactions, `orphans` those with inputs that are not found, and
  -- `orphan_using_utxo` maps the bytes of such an input to the hash of the orphan.
  -- The source leaves `currentHeight` uninitialised: any height stands for it.
  pub record Mempool : Type 0 where
    pub utxos : Db env
    pub current_height : ℤ
    pub main_pool : Pool env
    pub orphans : Pool env
    pub orphan_using_utxo : List (List ℕ × List ℕ)

  unfoldable pub exists : Mempool → List ℕ → Bool
  exists m tx_hash = hash_exists (linked_hash env) m.main_pool tx_hash

  unfoldable pub orphan_exists : Mempool → List ℕ → Bool
  orphan_exists m tx_hash = hash_exists (linked_hash env) m.orphans tx_hash

  unfoldable pub increment_height : Mempool → Outcome Mempool
  increment_height m = do
    height ← increment m.current_height
    returns (record m { current_height = height })

  unfoldable pub decrement_height : Mempool → Outcome Mempool
  decrement_height m = do
    height ← decrement m.current_height
    returns (record m { current_height = height })

  unfoldable pub type : Mempool → List ℕ → TxType
  unfolding exists orphan_exists
  type m tx_hash =
      if exists m tx_hash then regular else if orphan_exists m tx_hash then orphan else unknown

  add_main : LinkedTransaction → Mempool → Mempool
  add_main l m = record m { main_pool = (add (linked_hash env) m.main_pool l).0 }

  -- updateOrphan; `register` is the call of registerTransaction.
  unfoldable pub update_orphan :
      (LinkedTransaction → Mempool → Outcome Mempool) → List ℕ → Mempool → Outcome Mempool
  unfolding add_main
  update_orphan register hash m = do
    l ← or_throw (get (linked_hash env) m.orphans hash)
    (if not (is_orphan l)
        then register l (add_main l (record m { orphans = erase hash m.orphans }))
        else returns m)

  -- `orphanUsingUTXO[key]`, which is the empty string for a new key.
  abbrev pub orphan_at : List ℕ → Mempool → List ℕ
  orphan_at key m = elim (lookup key m.orphan_using_utxo) [ none ↦ [] | some hash ↦ hash ]

  -- The loop of registerTransaction from the i-th output on, with n outputs left.
  unfoldable pub register_outputs :
      (LinkedTransaction → Mempool → Outcome Mempool) → List ℕ → ℕ → ℕ → Mempool → Outcome Mempool
  register_outputs register hash i zero m = returns m
  register_outputs register hash i (suc n) m =
      let key = id_byte_repr env.hex env.stack (record { transaction_hash = hash; index = i }) in
      do
        m' ←
            update_orphan register (orphan_at key m)
              (record m { orphan_using_utxo = erase key m.orphan_using_utxo })
        register_outputs register hash (i + 1) n m'

  -- Each call out of updateOrphan takes one orphan away, so more rounds than there are orphans are
  -- enough.
  unfoldable pub register_transaction : ℕ → LinkedTransaction → Mempool → Outcome Mempool
  register_transaction zero l m = endless
  register_transaction (suc fuel) l m =
      register_outputs (register_transaction fuel) (linked_hash env l) 0 (output_count l.tx) m

  -- `for (dep : getOrphanDeps()) orphanUsingUTXO[dep.byteRepr()] = hash()`.
  unfoldable pub note_deps :
      List ℕ → List TransactionIdentifier → List (List ℕ × List ℕ) → List (List ℕ × List ℕ)
  note_deps hash [] using = using
  note_deps hash (dep ∷ deps) using =
      note_deps hash deps (insert (id_byte_repr env.hex env.stack dep) hash using)

  -- addTransaction, in two parts: what is done with an orphan, and with another transaction.
  unfoldable pub add_orphan : LinkedTransaction → Mempool → Outcome (Mempool × Bool)
  add_orphan l m =
      if hash_exists (linked_hash env) m.orphans (linked_hash env l)
      then returns (m, false)
      else (do
        deps ← get_orphan_deps l
        returns (
          record m {
            orphans = (add (linked_hash env) m.orphans l).0;
            orphan_using_utxo = note_deps (linked_hash env l) deps m.orphan_using_utxo;
          },
          true,
        ))

  add_regular : ℕ → LinkedTransaction → Mempool → Outcome (Mempool × Bool)
  unfolding add_main
  add_regular fuel l m =
      if hash_exists (linked_hash env) m.main_pool (linked_hash env l)
      then returns (m, false)
      else (do
        validated ← validate env m.main_pool m.utxos m.current_height l
        (elim validated [
          | none ↦ returns (m, false)
          | some l' ↦ do m' ← register_transaction fuel l' (add_main l' m); returns (m', true)
        ]))

  -- The result is the mempool and what addTransaction returns.
  unfoldable pub add_transaction : ℕ → Mempool → Transaction → Outcome (Mempool × Bool)
  unfolding add_orphan add_regular
  add_transaction fuel m tx =
      let l = link env tx m.main_pool m.utxos in
      if not (check env.print_json tx)
      then returns (m, false)
      else if is_orphan l
      then add_orphan l m
      else add_regular fuel l m

-- ===== src/Mempool/Stuck.antt =====
-- Orphans of src/mempool.cpp are linked once, when they come: none of them is ever released.
pub mod Calls
use ensicoin_cpp.HashMemory.{add, erase, get, hash_exists, insert, lookup, lookup-insert}
use ensicoin_cpp.LinkedTransaction.{Env, LinkedTransaction, is_orphan, link, linked_hash, validate}
use ensicoin_cpp.LinkedTransaction.Validation.{validate-ne-true}
use ensicoin_cpp.Mempool.{
  Mempool, add_orphan, add_regular, add_transaction, decrement_height, increment_height, orphan_at,
  register_outputs, register_transaction, update_orphan,
}
use ensicoin_cpp.Prelude.{
  ℕ, zero, suc, ◌+◌, ◌≡◌, ◌⊎◌, refl, sym, ap, ◌∙◌, Bool, Bool-cases, inl, inr, true, false, not,
  if◌then◌else◌, Option, Option-cases, none, some, List, [], ◌∷◌, All, list_eq, list_eq_iff, arith,
}
use ensicoin_cpp.Prelude.Outcome.{Outcome, returns, throws, undefined, endless, ◌>>=◌, or_throw}
use ensicoin_cpp.Transaction.{Transaction, check, id_byte_repr, output_count}

module _ (env : Env) where
  -- Every orphan is one by its own sets, as it was when it was added.
  abbrev pub IsStuck : Mempool env → Type 0
  IsStuck m = All (λ e. is_orphan e.1 ≡ true) m.orphans

  -- The entries that are left when those of n outputs from the i-th on are erased.
  unfoldable pub forget_outputs : List ℕ → ℕ → ℕ → List (List ℕ × List ℕ) → List (List ℕ × List ℕ)
  forget_outputs hash i zero using = using
  forget_outputs hash i (suc n) using =
      forget_outputs hash (i + 1) n (
        erase (id_byte_repr env.hex env.stack (record { transaction_hash = hash; index = i }))
          using)

  found-is_orphan :
      (hash : List ℕ) (m : List (List ℕ × LinkedTransaction)) (l : LinkedTransaction)
      → All (λ e. is_orphan e.1 ≡ true) m
      → lookup hash m ≡ some l
      → is_orphan l ≡ true
  unfolding lookup
  found-is_orphan hash [] l h e = cc
  found-is_orphan hash ((k, t) ∷ m) l h e = elim (Bool-cases (list_eq k hash)) [
    | inl same ↦ ground (arith, h.0)
    | inr other ↦ found-is_orphan hash m l h.1 (ground arith)
  ]

  module _ (register : LinkedTransaction → Mempool env → Outcome (Mempool env)) where
    update_orphan-IsStuck :
        (hash : List ℕ) (m : Mempool env)
        → IsStuck m
        → (update_orphan env register hash m ≡ throws)
          ⊎ (update_orphan env register hash m ≡ returns m)
    unfolding update_orphan get
    update_orphan-IsStuck hash m s = elim (Option-cases (lookup hash m.orphans)) [
      | inl nobody ↦ inl (rw nobody refl)
      | inr (l, e) ↦ inr (rw (e, found-is_orphan hash m.orphans l s e) refl)
    ]

    register_outputs-IsStuck :
        (hash : List ℕ) (i n : ℕ) (m : Mempool env)
        → IsStuck m
        → (register_outputs env register hash i n m ≡ throws)
          ⊎ (register_outputs env register hash i n m
              ≡ returns
                  (record m { orphan_using_utxo = forget_outputs hash i n m.orphan_using_utxo }))
    unfolding register_outputs forget_outputs
    register_outputs-IsStuck hash i zero m s = inr refl
    register_outputs-IsStuck hash i (suc n) m s =
        elim (update_orphan-IsStuck (orphan_at env key m) m' s) [
          | inl t ↦ inl (rw t refl)
          | inr r ↦ elim (register_outputs-IsStuck hash (i + 1) n m' s) [
            | inl t ↦ inl (rw r t)
            | inr r' ↦ inr (rw r r')
          ]
        ]
      where
        key : List ℕ
        key = id_byte_repr env.hex env.stack (record { transaction_hash = hash; index = i })

        m' : Mempool env
        m' = record m { orphan_using_utxo = erase key m.orphan_using_utxo }

  -- Where every orphan is one by its own sets, registerTransaction throws, or all that it does is to
  -- forget which orphans wait for the outputs of the transaction: no orphan is released, and nothing
  -- enters the pool.
  pub register_transaction-IsStuck :
      (fuel : ℕ) (l : LinkedTransaction) (m : Mempool env)
      → IsStuck m
      → (register_transaction env (suc fuel) l m ≡ throws)
        ⊎ (register_transaction env (suc fuel) l m
            ≡ returns (record m {
              orphan_using_utxo =
                  forget_outputs (linked_hash env l) 0 (output_count l.tx) m.orphan_using_utxo;
            }))
  unfolding register_transaction
  register_transaction-IsStuck fuel l m s =
      register_outputs-IsStuck (register_transaction env fuel) (linked_hash env l) 0
        (output_count l.tx) m s

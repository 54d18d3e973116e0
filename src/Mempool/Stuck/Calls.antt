-- ===== src/Mempool/Stuck/Calls.antt =====
-- Runs of the calls that change the mempool of src/mempool.cpp.
use ensicoin_cpp.HashMemory.{hash_exists}
use ensicoin_cpp.LinkedTransaction.{
  Env, LinkedTransaction, is_orphan, link, linked_hash, validate, get_orphan_deps,
}
use ensicoin_cpp.LinkedTransaction.Validation.{validate-ne-true}
use ensicoin_cpp.Mempool.{
  Mempool, increment, decrement, add_orphan, add_regular, add_transaction, decrement_height,
  increment_height, register_transaction,
}
use ensicoin_cpp.Mempool.Stuck.{IsStuck, register_transaction-IsStuck}
use ensicoin_cpp.Prelude.{
  ℕ, zero, suc, ◌≡◌, refl, ◌∙◌, subst, Bool-cases, inl, inr, false, Option, none, some, List, [],
  ◌∷◌,
}
use ensicoin_cpp.Prelude.Int.{ℤ}
use ensicoin_cpp.Prelude.Outcome.{Outcome, returns, throws, undefined, endless, ◌>>=◌}
use ensicoin_cpp.Transaction.{Transaction, check}

module _ (env : Env) where
  -- The calls that change a mempool; the first two with the fuel that they are given.
  pub data Call : Type 0 where
    adds : ℕ → Transaction → Call
    registers : ℕ → LinkedTransaction → Call
    raises lowers : Call

  unfoldable pub call : Call → Mempool env → Outcome (Mempool env)
  call (adds fuel tx) m = do (m', added) ← add_transaction env fuel m tx; returns m'
  call (registers fuel l) m = register_transaction env fuel l m
  call raises m = increment_height env m
  call lowers m = decrement_height env m

  unfoldable pub run_calls : List Call → Mempool env → Outcome (Mempool env)
  run_calls [] m = returns m
  run_calls (c ∷ cs) m = do m' ← call c m; run_calls cs m'

  -- The pool, the database and the orphans are as they were.
  pub record Keeps (m m' : Mempool env) : Type 0 where
    pub stuck : IsStuck env m'
    pub same_pool : m'.main_pool ≡ m.main_pool
    pub same_utxos : m'.utxos ≡ m.utxos
    pub same_orphans : m'.orphans ≡ m.orphans

  -- Where a call returns.
  abbrev Kept : Mempool env → Outcome (Mempool env) → Type 0
  Kept m (returns m') = Keeps m m'
  Kept m throws = Unit
  Kept m undefined = Unit
  Kept m endless = Unit

  Keeps-trans : (m m₁ m₂ : Mempool env) → Keeps m m₁ → Keeps m₁ m₂ → Keeps m m₂
  Keeps-trans m m₁ m₂ k k' = record {
    stuck = k'.stuck;
    same_pool = k'.same_pool ∙ k.same_pool;
    same_utxos = k'.same_utxos ∙ k.same_utxos;
    same_orphans = k'.same_orphans ∙ k.same_orphans;
  }

  Keeps-refl : (m : Mempool env) → IsStuck env m → Keeps m m
  Keeps-refl m s = record { stuck = s; same_pool = refl; same_utxos = refl; same_orphans = refl }

  add_orphan-Keeps :
      (l : LinkedTransaction) (m : Mempool env)
      → IsStuck env m
      → Kept m (add_orphan env l m >>= λ p. returns p.0)
  unfolding add_orphan get_orphan_deps
  add_orphan-Keeps l m s =
      elim (Bool-cases (hash_exists (linked_hash env) m.orphans (linked_hash env l))) [
        | inl there ↦ rw there (Keeps-refl m s)
        | inr new ↦ rw new tt
      ]

  -- A height comes out, or nothing.
  with_height-Keeps :
      (r : Outcome ℤ) (m : Mempool env)
      → IsStuck env m
      → Kept m (r >>= λ height. returns (record m { current_height = height }))
  with_height-Keeps (returns height) m s = record {
    stuck = s;
    same_pool = refl;
    same_utxos = refl;
    same_orphans = refl;
  }
  with_height-Keeps throws m s = tt
  with_height-Keeps undefined m s = tt
  with_height-Keeps endless m s = tt

  add_regular-Keeps :
      (fuel : ℕ) (l : LinkedTransaction) (m : Mempool env)
      → IsStuck env m
      → Kept m (add_regular env fuel l m >>= λ p. returns p.0)
  unfolding add_regular
  add_regular-Keeps fuel l m s =
      elim (Bool-cases (hash_exists (linked_hash env) m.main_pool (linked_hash env l))) [
        | inl there ↦ rw there (Keeps-refl m s)
        | inr new ↦ by_result new (validate env m.main_pool m.utxos m.current_height l) refl
      ]
    where
      by_result :
          hash_exists (linked_hash env) m.main_pool (linked_hash env l) ≡ false
          → (r : Outcome (Option LinkedTransaction))
          → validate env m.main_pool m.utxos m.current_height l ≡ r
          → Kept m (add_regular env fuel l m >>= λ p. returns p.0)
      by_result n (returns none) e = rw (n, e) (Keeps-refl m s)
      by_result n (returns (some l')) e =
          absurd ((validate-ne-true env m.main_pool m.utxos m.current_height l l').1 e)
      by_result n throws e = rw (n, e) tt
      by_result n undefined e = rw (n, e) tt
      by_result n endless e = rw (n, e) tt

  call-Keeps : (c : Call) (m : Mempool env) → IsStuck env m → Kept m (call c m)
  unfolding call add_transaction increment_height decrement_height
  call-Keeps (adds fuel tx) m s = elim (Bool-cases (check env.print_json tx)) [
    | inr bad ↦ rw bad (Keeps-refl m s)
    | inl good ↦ elim (Bool-cases (is_orphan (link env tx m.main_pool m.utxos))) [
      | inl o ↦ rw (good, o) (add_orphan-Keeps (link env tx m.main_pool m.utxos) m s)
      | inr o ↦ rw (good, o) (add_regular-Keeps fuel (link env tx m.main_pool m.utxos) m s)
    ]
  ]
  call-Keeps (registers zero l) m s = unfold register_transaction in tt
  call-Keeps (registers (suc fuel) l) m s = elim (register_transaction-IsStuck env fuel l m s) [
    | inl t ↦ rw t tt
    | inr r ↦ rw r (record { stuck = s; same_pool = refl; same_utxos = refl; same_orphans = refl })
  ]
  call-Keeps raises m s = with_height-Keeps (increment m.current_height) m s
  call-Keeps lowers m s = with_height-Keeps (decrement m.current_height) m s

  Kept-trans : (m m₁ : Mempool env) (r : Outcome (Mempool env)) → Keeps m m₁ → Kept m₁ r → Kept m r
  Kept-trans m m₁ (returns m₂) k k' = Keeps-trans m m₁ m₂ k k'
  Kept-trans m m₁ throws k k' = tt
  Kept-trans m m₁ undefined k k' = tt
  Kept-trans m m₁ endless k k' = tt

  Kept-then :
      (m : Mempool env) (r : Outcome (Mempool env)) (f : Mempool env → Outcome (Mempool env))
      → Kept m r
      → ((m' : Mempool env) → IsStuck env m' → Kept m' (f m'))
      → Kept m (r >>= f)
  Kept-then m (returns m') f k g = Kept-trans m m' (f m') k (g m' k.stuck)
  Kept-then m throws f k g = tt
  Kept-then m undefined f k g = tt
  Kept-then m endless f k g = tt

  run_calls-Kept : (cs : List Call) (m : Mempool env) → IsStuck env m → Kept m (run_calls cs m)
  unfolding run_calls
  run_calls-Kept [] m s = Keeps-refl m s
  run_calls-Kept (c ∷ cs) m s =
      Kept-then m (call c m) (run_calls cs) (call-Keeps c m s) (λ m' s'. run_calls-Kept cs m' s')

  pub run_calls-Keeps :
      (cs : List Call) (m m' : Mempool env)
      → IsStuck env m
      → run_calls cs m ≡ returns m'
      → Keeps m m'
  run_calls-Keeps cs m m' s e = subst (Kept m) e (run_calls-Kept cs m s)

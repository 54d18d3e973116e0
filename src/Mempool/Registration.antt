-- ===== src/Mempool/Registration.antt =====
-- registerTransaction of src/mempool.cpp, which calls itself through updateOrphan, ends.
use ensicoin_cpp.HashMemory.{erase, lookup, get}
use ensicoin_cpp.LinkedTransaction.{Env, LinkedTransaction, linked_hash, is_orphan}
use ensicoin_cpp.Mempool.{Mempool, add_main, update_orphan, register_outputs, register_transaction}
use ensicoin_cpp.Prelude.{
  ℕ, zero, suc, ◌+◌, ◌≤◌, ◌<◌, ◌≡◌, ◌≢◌, subst, Bool-cases, inl, inr, Option-cases, some, List, [],
  ◌∷◌, length, list_eq, arith,
}
use ensicoin_cpp.Prelude.Outcome.{Outcome, returns, throws, undefined, endless, ◌>>=◌}
use ensicoin_cpp.Transaction.{output_count}

module _ {V : Type 0} where
  length-erase_le : (k : List ℕ) (m : List (List ℕ × V)) → length (erase k m) ≤ length m
  unfolding erase
  length-erase_le k [] = omega arith
  length-erase_le k ((j, w) ∷ m) = ground (arith, length-erase_le k m)

  length-erase_lt :
      (k : List ℕ) (m : List (List ℕ × V)) (v : V)
      → lookup k m ≡ some v
      → length (erase k m) < length m
  unfolding erase lookup
  length-erase_lt k [] v h = ground arith
  length-erase_lt k ((j, w) ∷ m) v h = elim (Bool-cases (list_eq j k)) [
    | inl same ↦ ground (arith, length-erase_le k m)
    | inr other ↦ ground (arith, length-erase_lt k m v)
  ]

module _ (env : Env) where
  -- The call ends, and where it returns, at most n orphans are left.
  abbrev Ends : ℕ → Outcome (Mempool env) → Type 0
  Ends n (returns m) = length m.orphans ≤ n
  Ends n throws = Unit
  Ends n undefined = Unit
  Ends n endless = ⊥

  Ends-le : (n k : ℕ) (r : Outcome (Mempool env)) → k ≤ n → Ends k r → Ends n r
  Ends-le n k (returns m) le h = omega arith
  Ends-le n k throws le h = tt
  Ends-le n k undefined le h = tt
  Ends-le n k endless le h = h

  Ends-then :
      (n : ℕ) (r : Outcome (Mempool env)) (f : Mempool env → Outcome (Mempool env))
      → Ends n r
      → ((m : Mempool env) → length m.orphans ≤ n → Ends n (f m))
      → Ends n (r >>= f)
  Ends-then n (returns m) f h g = g m h
  Ends-then n throws f h g = tt
  Ends-then n undefined f h g = tt
  Ends-then n endless f h g = h

  module _ (register : LinkedTransaction → Mempool env → Outcome (Mempool env)) (bound : ℕ)
      (ends : (l : LinkedTransaction) (m : Mempool env)
        → length m.orphans < bound
        → Ends (length m.orphans) (register l m)) where
    update_orphan-Ends :
        (hash : List ℕ) (m : Mempool env)
        → length m.orphans ≤ bound
        → Ends (length m.orphans) (update_orphan env register hash m)
    unfolding update_orphan get add_main
    update_orphan-Ends hash m le = elim (Option-cases (lookup hash m.orphans)) [
      | inl none_there ↦ rw none_there tt
      | inr (l, e) ↦ elim (Bool-cases (is_orphan l)) [
        | inl o ↦ rw (e, o) (let same : length m.orphans ≤ length m.orphans = omega arith in same)
        | inr o ↦
            let fewer : length (erase hash m.orphans) < length m.orphans =
              length-erase_lt hash m.orphans l e in
            rw (e, o)
              (Ends-le (length m.orphans) (length (erase hash m.orphans)) _ (omega arith) (
                ends l (add_main env l (record m { orphans = erase hash m.orphans }))
                  (omega arith)))
      ]
    ]

    register_outputs-Ends :
        (hash : List ℕ) (i n : ℕ) (m : Mempool env)
        → length m.orphans ≤ bound
        → Ends (length m.orphans) (register_outputs env register hash i n m)
    unfolding register_outputs
    register_outputs-Ends hash i zero m le = omega arith
    register_outputs-Ends hash i (suc n) m le =
        Ends-then (length m.orphans) _ _
          (update_orphan-Ends _ (record m { orphan_using_utxo = _ }) le)
          (λ m' le'.
            Ends-le (length m.orphans) (length m'.orphans) _ le'
              (register_outputs-Ends hash (i + 1) n m' (omega arith)))

  register_transaction-Ends :
      (fuel : ℕ) (l : LinkedTransaction) (m : Mempool env)
      → length m.orphans < fuel
      → Ends (length m.orphans) (register_transaction env fuel l m)
  unfolding register_transaction
  register_transaction-Ends zero l m h = absurd (omega arith)
  register_transaction-Ends (suc fuel) l m h =
      register_outputs-Ends (register_transaction env fuel) fuel
        (λ l' m' lt. register_transaction-Ends fuel l' m' lt) (linked_hash env l) 0
        (output_count l.tx) m (omega arith)

  -- With more fuel than there are orphans, registerTransaction comes to an end: its calls of itself
  -- do not use up the fuel.
  pub register_transaction-ne-endless :
      (fuel : ℕ) (l : LinkedTransaction) (m : Mempool env)
      → length m.orphans < fuel
      → register_transaction env fuel l m ≢ endless
  register_transaction-ne-endless fuel l m h e =
      subst (Ends (length m.orphans)) e (register_transaction-Ends fuel l m h)

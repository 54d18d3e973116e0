-- ===== src/LinkedTransaction/Orphans.antt =====
-- Which transactions are orphans.
use ensicoin_cpp.LinkedTransaction.{Env, Pool, Db, count, is_orphan, link, link_inputs}
use ensicoin_cpp.LinkedTransaction.Linking.{
  Source, in_pool, on_disk, missing, insert_id_old, insert_id_new, source_of, Holds, Holds-pool,
  Holds-disk, linked, step_in_pool, step_on_disk, step_missing, linkable_new, linkable_old,
  linkable_missing, behind, is_linkable,
}
use ensicoin_cpp.Prelude.{
  ℕ, suc, ◌+◌, ◌≡◌, ◌⊎◌, refl, sym, ap, ◌∙◌, ◌==◌, Bool-cases, inl, inr, not, List, [], ◌∷◌, length,
  length-map, arith,
}
use ensicoin_cpp.Transaction.{TransactionIdentifier, InputTransaction, Transaction, inputs_id}

module _ (env : Env) (pool : Pool env) (db : Db env) where
  Counts :
      List TransactionIdentifier
      → List TransactionIdentifier
      → List TransactionIdentifier
      → List TransactionIdentifier
      → Type 0
  Counts ids seen deps mempool_deps =
      (linked env pool db (link_inputs env pool db ids deps mempool_deps)
        == linked env pool db (deps, mempool_deps) + length ids)
      ≡ is_linkable env pool db seen ids

  count_in_pool :
      (id : TransactionIdentifier) (ids seen deps mempool_deps : List TransactionIdentifier)
      → source_of env pool db id ≡ in_pool
      → Holds env pool db seen deps mempool_deps
      → (Holds env pool db (id ∷ seen) deps (id ∷ mempool_deps)
          → Counts ids (id ∷ seen) deps (id ∷ mempool_deps))
      → Counts (id ∷ ids) seen deps mempool_deps
  unfolding Counts
  count_in_pool id ids seen deps mempool_deps e h ih = elim (Bool-cases (count id seen)) [
    | inl old ↦
        behind env pool db id ids seen deps mempool_deps
          (step_in_pool env pool db id ids seen deps mempool_deps e
            ∙ ap (link_inputs env pool db ids deps)
                (insert_id_old id mempool_deps (h.mempool id e ∙ old)))
          (linkable_old env pool db id ids seen deps mempool_deps old)
    | inr new ↦
        ap
          (λ (r : List TransactionIdentifier × List TransactionIdentifier).
            linked env pool db r == linked env pool db (deps, mempool_deps) + suc (length ids))
          (step_in_pool env pool db id ids seen deps mempool_deps e
            ∙ ap (link_inputs env pool db ids deps)
                (insert_id_new id mempool_deps (h.mempool id e ∙ new)))
        ∙ ap
            (λ (n : ℕ).
              linked env pool db (link_inputs env pool db ids deps (id ∷ mempool_deps)) == n)
            (omega arith)
        ∙ ih (Holds-pool env pool db id seen deps mempool_deps e h)
        ∙ sym (linkable_new env pool db id ids seen deps mempool_deps (λ m. cc) new)
  ]

  count_on_disk :
      (id : TransactionIdentifier) (ids seen deps mempool_deps : List TransactionIdentifier)
      → source_of env pool db id ≡ on_disk
      → Holds env pool db seen deps mempool_deps
      → (Holds env pool db (id ∷ seen) (id ∷ deps) mempool_deps
          → Counts ids (id ∷ seen) (id ∷ deps) mempool_deps)
      → Counts (id ∷ ids) seen deps mempool_deps
  unfolding Counts
  count_on_disk id ids seen deps mempool_deps e h ih = elim (Bool-cases (count id seen)) [
    | inl old ↦
        behind env pool db id ids seen deps mempool_deps
          (step_on_disk env pool db id ids seen deps mempool_deps e
            ∙ ap (λ (d : List TransactionIdentifier). link_inputs env pool db ids d mempool_deps)
                (insert_id_old id deps (h.disk id e ∙ old)))
          (linkable_old env pool db id ids seen deps mempool_deps old)
    | inr new ↦
        ap
          (λ (r : List TransactionIdentifier × List TransactionIdentifier).
            linked env pool db r == linked env pool db (deps, mempool_deps) + suc (length ids))
          (step_on_disk env pool db id ids seen deps mempool_deps e
            ∙ ap (λ (d : List TransactionIdentifier). link_inputs env pool db ids d mempool_deps)
                (insert_id_new id deps (h.disk id e ∙ new)))
        ∙ ap
            (λ (n : ℕ).
              linked env pool db (link_inputs env pool db ids (id ∷ deps) mempool_deps) == n)
            (omega arith)
        ∙ ih (Holds-disk env pool db id seen deps mempool_deps e h)
        ∙ sym (linkable_new env pool db id ids seen deps mempool_deps (λ m. cc) new)
  ]

  source_cases : (x : Source) → (x ≡ in_pool) ⊎ ((x ≡ on_disk) ⊎ (x ≡ missing))
  source_cases in_pool = inl refl
  source_cases on_disk = inr (inl refl)
  source_cases missing = inr (inr refl)

  link_inputs-Counts :
      (ids seen deps mempool_deps : List TransactionIdentifier)
      → Holds env pool db seen deps mempool_deps
      → Counts ids seen deps mempool_deps
  unfolding Counts
  link_inputs-Counts [] seen deps mempool_deps h = unfold link_inputs is_linkable in ground arith
  link_inputs-Counts (id ∷ ids) seen deps mempool_deps h =
      elim (source_cases (source_of env pool db id)) [
        | inl e ↦
            count_in_pool id ids seen deps mempool_deps e h
              (link_inputs-Counts ids (id ∷ seen) deps (id ∷ mempool_deps))
        | inr (inl e) ↦
            count_on_disk id ids seen deps mempool_deps e h
              (link_inputs-Counts ids (id ∷ seen) (id ∷ deps) mempool_deps)
        | inr (inr e) ↦
            behind env pool db id ids seen deps mempool_deps
              (step_missing env pool db id ids seen deps mempool_deps e)
              (linkable_missing env pool db id ids seen deps mempool_deps e)
      ]

  -- A transaction is no orphan exactly if each of its inputs is found, in the mempool or in the
  -- database, and no two inputs are the same: a repeated input makes an orphan of it.
  pub is_orphan-link :
      (tx : Transaction)
      → is_orphan (link env tx pool db) ≡ not (is_linkable env pool db [] (inputs_id tx))
  unfolding is_orphan link inputs_id Counts
  is_orphan-link tx = ap not (
      ap (λ (n : ℕ). linked env pool db (link_inputs env pool db (inputs_id tx) [] []) == n)
        (let e : length tx.inputs ≡ 0 + 0 + length (inputs_id tx) =
            omega
              (arith, length-map (λ (input : InputTransaction). input.previous_output) tx.inputs) in
          e)
      ∙ link_inputs-Counts (inputs_id tx) [] [] []
          (record { disk = λ y d. refl; mempool = λ y d. refl }))

-- ===== src/LinkedTransaction/Linking.antt =====
-- One input linked after the other, by where its output is found.
use ensicoin_cpp.LinkedTransaction.{Env, Pool, Db, pool_exists, count, insert_id, link_inputs}
use ensicoin_cpp.Prelude.{
  ℕ, suc, ◌+◌, ◌≤◌, ◌≡◌, ◌≢◌, sym, ap, ◌∙◌, ◌==◌, if◌then◌else◌, Bool, true, false, ◌&&◌, ◌||◌, not,
  List, [], ◌∷◌, length, arith,
}
use ensicoin_cpp.Transaction.{TransactionIdentifier, id_eq}
use ensicoin_cpp.Transaction.Ids.{id_eq→eq}
use ensicoin_cpp.Utxo.{utxo_exists}

length-insert_id :
    (id : TransactionIdentifier) (set : List TransactionIdentifier)
    → length (insert_id id set) ≤ suc (length set)
unfolding insert_id
length-insert_id id set = ground arith

pub insert_id_old :
    (id : TransactionIdentifier) (set : List TransactionIdentifier)
    → count id set ≡ true
    → insert_id id set ≡ set
unfolding insert_id
insert_id_old id set h = rw h

pub insert_id_new :
    (id : TransactionIdentifier) (set : List TransactionIdentifier)
    → count id set ≡ false
    → insert_id id set ≡ id ∷ set
unfolding insert_id
insert_id_new id set h = rw h

short : (r a n : ℕ) → r ≤ a + n → (r == a + suc n) ≡ false
short r a n h = ground arith

pub data Source : Type 0 where
  in_pool on_disk missing : Source

module _ (env : Env) (pool : Pool env) (db : Db env) where
  -- Where an output is found; the mempool is asked first.
  pub source_of : TransactionIdentifier → Source
  source_of id =
      if pool_exists env pool id.transaction_hash
      then in_pool
      else if utxo_exists env.level env.hex env.stack db id
      then on_disk
      else missing

  -- Every input is found, and none repeats an earlier one.
  unfoldable pub is_linkable : List TransactionIdentifier → List TransactionIdentifier → Bool
  unfolding source_of
  is_linkable seen [] = true
  is_linkable seen (id ∷ ids) =
      let rest = is_linkable (id ∷ seen) ids in
      (pool_exists env pool id.transaction_hash || utxo_exists env.level env.hex env.stack db id)
      && (not (count id seen) && rest)

  -- The two sets hold what was seen, each the part from its source.
  pub record Holds (seen deps mempool_deps : List TransactionIdentifier) : Type 0 where
    pub disk : (id : TransactionIdentifier) → source_of id ≡ on_disk → count id deps ≡ count id seen
    pub mempool :
        (id : TransactionIdentifier)
        → source_of id ≡ in_pool
        → count id mempool_deps ≡ count id seen

  -- The number of outputs linked.
  abbrev pub linked : List TransactionIdentifier × List TransactionIdentifier → ℕ
  linked (deps, mempool_deps) = length deps + length mempool_deps

  pub link_inputs-le :
      (ids deps mempool_deps : List TransactionIdentifier)
      → linked (link_inputs env pool db ids deps mempool_deps)
        ≤ linked (deps, mempool_deps) + length ids
  unfolding link_inputs
  link_inputs-le [] deps mempool_deps = omega arith
  link_inputs-le (id ∷ ids) deps mempool_deps = ground (
    arith,
    length-insert_id id deps,
    length-insert_id id mempool_deps,
    link_inputs-le ids
        (if pool_exists env pool id.transaction_hash
          then deps
          else if utxo_exists env.level env.hex env.stack db id
          then insert_id id deps
          else deps)
        (if pool_exists env pool id.transaction_hash
          then insert_id id mempool_deps
          else mempool_deps),
  )

  pub Holds-pool :
      (id : TransactionIdentifier) (seen deps mempool_deps : List TransactionIdentifier)
      → source_of id ≡ in_pool
      → Holds seen deps mempool_deps
      → Holds (id ∷ seen) deps (id ∷ mempool_deps)
  unfolding count
  Holds-pool id seen deps mempool_deps e h = record {
    disk = λ y d. ground (arith, h.disk y d, apart y d);
    mempool = λ y d. ap (λ (b : Bool). id_eq id y || b) (h.mempool y d);
  }
    where
      apart : (y : TransactionIdentifier) → source_of y ≡ on_disk → id_eq id y ≢ true
      apart y d t = cc (ap source_of (id_eq→eq id y t))

  pub Holds-disk :
      (id : TransactionIdentifier) (seen deps mempool_deps : List TransactionIdentifier)
      → source_of id ≡ on_disk
      → Holds seen deps mempool_deps
      → Holds (id ∷ seen) (id ∷ deps) mempool_deps
  unfolding count
  Holds-disk id seen deps mempool_deps e h = record {
    disk = λ y d. ap (λ (b : Bool). id_eq id y || b) (h.disk y d);
    mempool = λ y d. ground (arith, h.mempool y d, apart y d);
  }
    where
      apart : (y : TransactionIdentifier) → source_of y ≡ in_pool → id_eq id y ≢ true
      apart y d t = cc (ap source_of (id_eq→eq id y t))

  -- One round of the loop, by where the output is found, and what the specification says of it.
  module _ (id : TransactionIdentifier)
      (ids seen deps mempool_deps : List TransactionIdentifier) where
    pub step_in_pool :
        source_of id ≡ in_pool
        → link_inputs env pool db (id ∷ ids) deps mempool_deps
          ≡ link_inputs env pool db ids deps (insert_id id mempool_deps)
    unfolding link_inputs source_of
    step_in_pool e = ground arith

    pub step_on_disk :
        source_of id ≡ on_disk
        → link_inputs env pool db (id ∷ ids) deps mempool_deps
          ≡ link_inputs env pool db ids (insert_id id deps) mempool_deps
    unfolding link_inputs source_of
    step_on_disk e = ground arith

    pub step_missing :
        source_of id ≡ missing
        → link_inputs env pool db (id ∷ ids) deps mempool_deps
          ≡ link_inputs env pool db ids deps mempool_deps
    unfolding link_inputs source_of
    step_missing e = ground arith

    pub linkable_new :
        source_of id ≢ missing
        → count id seen ≡ false
        → is_linkable seen (id ∷ ids) ≡ is_linkable (id ∷ seen) ids
    unfolding is_linkable source_of
    linkable_new e n = ground arith

    pub linkable_old : count id seen ≡ true → is_linkable seen (id ∷ ids) ≡ false
    unfolding is_linkable
    linkable_old o = ground arith

    pub linkable_missing : source_of id ≡ missing → is_linkable seen (id ∷ ids) ≡ false
    unfolding is_linkable source_of
    linkable_missing e = ground arith

    -- Where nothing new is linked, the count falls behind for good.
    pub behind :
        link_inputs env pool db (id ∷ ids) deps mempool_deps
          ≡ link_inputs env pool db ids deps mempool_deps
        → is_linkable seen (id ∷ ids) ≡ false
        → (linked (link_inputs env pool db (id ∷ ids) deps mempool_deps)
            == linked (deps, mempool_deps) + length (id ∷ ids))
          ≡ is_linkable seen (id ∷ ids)
    behind e l =
        ap
          (λ (r : List TransactionIdentifier × List TransactionIdentifier).
            linked r == linked (deps, mempool_deps) + suc (length ids))
          e
        ∙ short _ (linked (deps, mempool_deps)) (length ids) (link_inputs-le ids deps mempool_deps)
        ∙ sym l

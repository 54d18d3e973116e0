-- ===== src/Tests/Orphans.antt =====
-- Orphans in the mempool.
use ensicoin_cpp.HashMemory.{hash_exists, lookup}
use ensicoin_cpp.LinkedTransaction.{link, linked_hash}
use ensicoin_cpp.LinkedTransaction.Linking.{is_linkable}
use ensicoin_cpp.Mempool.{
  Mempool, add_orphan, add_transaction, increment, increment_height, orphan_exists,
}
use ensicoin_cpp.Mempool.Acceptance.{add_transaction-on_empty}
use ensicoin_cpp.Mempool.Stuck.Calls.{Keeps, adds, raises, call, run_calls, run_calls-Keeps}
use ensicoin_cpp.Prelude.{
  ◌≡◌, refl, ◌&&◌, not, if◌then◌else◌, List, [], ◌∷◌, ℕ, list_eq_refl, true, false,
}
use ensicoin_cpp.Prelude.Int.{pos}
use ensicoin_cpp.Prelude.Outcome.{returns, undefined}
use ensicoin_cpp.Tests.Ledger.{passes_check, payment-orphan}
use ensicoin_cpp.Tests.Samples.{node, payment, nothing_pooled}
use ensicoin_cpp.Transaction.{check, inputs_id, transaction_hash}
use ensicoin_cpp.Utxo.{utxo_exists}

abbrev payment_hash : List ℕ
payment_hash = linked_hash node (link node payment [] [])

-- A mempool that holds an orphan.
abbrev one_orphan : Mempool node
one_orphan = record nothing_pooled { orphans = (payment_hash, link node payment [] []) ∷ [] }

known_orphan : orphan_exists node one_orphan payment_hash ≡ true
unfolding orphan_exists hash_exists lookup linked_hash transaction_hash
known_orphan = rw (list_eq_refl payment_hash) refl

-- The orphan once more, and a block.
abbrev raised : Mempool node
raised = record one_orphan { current_height = pos 21 }

raised_once : run_calls node (adds 100 payment ∷ raises ∷ []) one_orphan ≡ returns raised
unfolding run_calls call add_transaction add_orphan orphan_exists increment_height increment
raised_once = rw (passes_check, payment-orphan, known_orphan) refl

run_calls-Keeps_example : Keeps node one_orphan raised
run_calls-Keeps_example =
    run_calls-Keeps node (adds 100 payment ∷ raises ∷ []) one_orphan raised (payment-orphan, tt)
      raised_once

add_transaction-on_empty_example : add_transaction node 100 one_orphan payment ≡ (
    if check node.print_json payment
      && (not (is_linkable node [] [] [] (inputs_id payment))
          && not (orphan_exists node one_orphan payment_hash))
    then undefined
    else returns (one_orphan, false))
add_transaction-on_empty_example = add_transaction-on_empty node 100 one_orphan payment refl

-- The first orphan of a mempool is undefined behaviour.
first_orphan : add_transaction node 100 nothing_pooled payment ≡ undefined
unfolding is_linkable inputs_id hash_exists lookup orphan_exists check utxo_exists
first_orphan = add_transaction-on_empty node 100 nothing_pooled payment refl

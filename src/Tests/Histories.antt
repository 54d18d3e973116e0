-- ===== src/Tests/Histories.antt =====
-- Runs of calls on the database of unspent outputs.
use ensicoin_cpp.Prelude.{◌≡◌, List, [], ◌∷◌}
use ensicoin_cpp.Tests.Ledger.{seven-IsSendable, eight-IsSendable, unspent-IsStorable, one_stored}
use ensicoin_cpp.Tests.Samples.{hex_pairs, entries, seven, eight, unspent}
use ensicoin_cpp.Utxo.Refinement.{
  Operation, adds, spends, apply_all, changes, unspent_in, apply_all-unspent_in,
}

abbrev calls : List Operation
calls = adds eight unspent ∷ spends seven ∷ []

apply_all-unspent_in_example :
    unspent_in entries hex_pairs [] (apply_all entries hex_pairs [] calls one_stored) eight
    ≡ changes calls (unspent_in entries hex_pairs [] one_stored) eight
apply_all-unspent_in_example =
    apply_all-unspent_in entries hex_pairs [] calls one_stored eight
      ((eight-IsSendable, unspent-IsStorable), (seven-IsSendable, tt)) eight-IsSendable

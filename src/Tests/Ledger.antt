-- ===== src/Tests/Ledger.antt =====
-- Transactions, unspent outputs and the mempool.
use ensicoin_cpp.HashMemory.{hash_exists, lookup}
use ensicoin_cpp.LinkedTransaction.{count, is_orphan, link, validate}
use ensicoin_cpp.LinkedTransaction.Linking.{is_linkable}
use ensicoin_cpp.LinkedTransaction.Orphans.{is_orphan-link}
use ensicoin_cpp.LinkedTransaction.Validation.{refused, validate-ne-true}
use ensicoin_cpp.Mempool.{register_transaction}
use ensicoin_cpp.Mempool.Registration.{register_transaction-ne-endless}
use ensicoin_cpp.NetworkBuffer.{buffer_of}
use ensicoin_cpp.Networkable.Strings.{zeroed}
use ensicoin_cpp.Networkable.{fixed_str}
use ensicoin_cpp.Node.Trial.{test_id}
use ensicoin_cpp.Prelude.{
  Option, get_elem?, ap, replicate, ℕ, ◌≡◌, ◌≢◌, refl, not, true, some, List, [], ◌∷◌, ◌++◌, arith,
}
use ensicoin_cpp.Prelude.Int.{pos}
use ensicoin_cpp.Prelude.Outcome.{returns, endless}
use ensicoin_cpp.Script.{parse_instruction, script_of}
use ensicoin_cpp.Tests.Samples.{
  hex_pairs, entries, node, seven, eight, seven_hash, payment, unspent, dup_equal, nothing_pooled,
}
use ensicoin_cpp.Tests.Wire.{All-replicate}
use ensicoin_cpp.Transaction.{
  id_byte_repr, transaction_from_buffer, transaction_byte_repr, inputs_id, check,
}
use ensicoin_cpp.Transaction.RoundTrip.{
  IsSendableHash, IsSendableId, IsSendableScript, IsSendableTransaction, transaction-RoundTrips,
}
use ensicoin_cpp.Transaction.Unambiguous.{transaction_byte_repr_unambiguous}
use ensicoin_cpp.Utxo.{add_utxo, utxo_exists}
use ensicoin_cpp.Utxo.Entries.{IsStorable}

pub seven_hash-IsSendable : IsSendableHash seven_hash
seven_hash-IsSendable = record { text = All-replicate 32 7 (omega arith); full = refl }

pub seven-IsSendable : IsSendableId seven
seven-IsSendable = record { hash = seven_hash-IsSendable; fits = omega arith; unskipped = refl }

pub eight-IsSendable : IsSendableId eight
eight-IsSendable = record {
  hash = record { text = All-replicate 32 8 (omega arith); full = refl };
  fits = omega arith;
  unskipped = refl;
}

dup_equal-IsSendable : IsSendableScript dup_equal
unfolding script_of parse_instruction
dup_equal-IsSendable = record {
  bytes = 0x50 ∷ 0x64 ∷ 0x78 ∷ [];
  sendable = record {
    text = (omega arith, (omega arith, (omega arith, tt)));
    short = omega arith;
    unskipped = refl;
  };
  parsed = refl;
}

pub payment-IsSendable : IsSendableTransaction payment
payment-IsSendable = record {
  version = omega arith;
  flag_count = record { fits = omega arith; unskipped = refl };
  flags = (record { text = (omega arith, tt); short = omega arith; unskipped = refl }, tt);
  input_count = record { fits = omega arith; unskipped = refl };
  inputs = ((seven-IsSendable, dup_equal-IsSendable), tt);
  output_count = record { fits = omega arith; unskipped = refl };
  outputs = ((omega arith, dup_equal-IsSendable), tt);
}

transaction-RoundTrips_example :
    transaction_from_buffer
      (buffer_of zeroed (transaction_byte_repr hex_pairs [] payment ++ 6 ∷ []))
    ≡ (payment, buffer_of zeroed (6 ∷ []))
transaction-RoundTrips_example =
    transaction-RoundTrips hex_pairs [] payment payment-IsSendable (6 ∷ [])

pub unspent-IsStorable : IsStorable unspent
unspent-IsStorable = record {
  value = omega arith;
  height = omega arith;
  signing_hash = seven_hash-IsSendable;
  script = dup_equal-IsSendable;
}

abbrev pub one_stored : List (List ℕ × List ℕ)
one_stored = add_utxo entries hex_pairs [] seven unspent []

is_orphan-link_example :
    is_orphan (link node payment [] one_stored)
    ≡ not (is_linkable node [] one_stored [] (inputs_id payment))
is_orphan-link_example = is_orphan-link node [] one_stored payment

validate-ne-true_example :
    (validate node [] one_stored (pos 90) (link node payment [] one_stored)
      ≡ refused node [] one_stored (link node payment [] one_stored))
    × (validate node [] one_stored (pos 90) (link node payment [] one_stored)
        ≢ returns (some (link node payment [] one_stored)))
validate-ne-true_example =
    validate-ne-true node [] one_stored (pos 90) (link node payment [] one_stored)
      (link node payment [] one_stored)

pub passes_check : check (λ j. []) payment ≡ true
unfolding check
passes_check = refl

pub payment-orphan : is_orphan (link node payment [] []) ≡ true
unfolding is_linkable inputs_id hash_exists lookup count utxo_exists
payment-orphan = is_orphan-link node [] [] payment

register_transaction-ne-endless_example :
    register_transaction node 1 (link node payment [] []) nothing_pooled ≢ endless
register_transaction-ne-endless_example =
    register_transaction-ne-endless node 1 (link node payment [] []) nothing_pooled (omega arith)

abbrev behind : List ℕ
behind = 6 ∷ []

transaction_byte_repr_unambiguous_example : (payment ≡ payment) × (behind ≡ behind)
transaction_byte_repr_unambiguous_example =
    transaction_byte_repr_unambiguous hex_pairs [] [] payment payment behind behind
      payment-IsSendable payment-IsSendable refl

-- The bytes of the reference in the constructor of Node, of which a hash is taken, depend on what stood
-- in the storage before.
test_id_uninitialised :
    id_byte_repr hex_pairs (replicate 32 1) test_id
    ≢ id_byte_repr hex_pairs (replicate 32 2) test_id
unfolding test_id id_byte_repr fixed_str
test_id_uninitialised e =
    let apart : ◌≡◌ {A = Option ℕ} (some 1) (some 2) =
      ap (λ (bytes : List ℕ). get_elem? bytes 20) e in
    absurd (ground arith)

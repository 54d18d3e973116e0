-- ===== src/Node/Trial.antt =====
-- The values that the constructor of Node in src/node.cpp makes to try the network out. The
-- announcement is not sent.
use ensicoin_cpp.Crypto.{Crypto}
use ensicoin_cpp.Message.{Message, inv_message}
use ensicoin_cpp.Networkable.{HexDecoder, tx_res}
use ensicoin_cpp.Prelude.{ℕ, ◌-◌, ◌^◌, List, [], ◌∷◌, codes}
use ensicoin_cpp.Script.{script_of}
use ensicoin_cpp.Transaction.{
  TransactionIdentifier, InputTransaction, OutputTransaction, Transaction, transaction_hash,
}

unfoldable pub test_id : TransactionIdentifier
test_id = record { transaction_hash = codes "obiwan kenobi"; index = 42 }

unfoldable pub test_input : InputTransaction
test_input = record { previous_output = test_id; script = script_of [] (codes "KABAK") }

unfoldable pub test_output : OutputTransaction
test_output = record { value = 42; script = script_of [] (codes "BAKAAK") }

-- The version is -1.
unfoldable pub test_transaction : Transaction
test_transaction = record {
  version = 2 ^ 32 - 1;
  transaction_flags = codes "I AM A FLAG" ∷ codes "A FLAGGY FLAG" ∷ [];
  inputs = test_input ∷ test_input ∷ [];
  outputs = test_output ∷ test_output ∷ [];
}

-- `stack` is what stands in the arrays of the hashes, which have room for 32 bytes.
unfoldable pub inv_test : HexDecoder → List ℕ → Crypto → Message
inv_test hex stack crypto =
    inv_message hex
      (record { type = tx_res; hash = transaction_hash hex stack crypto test_transaction } ∷ [])

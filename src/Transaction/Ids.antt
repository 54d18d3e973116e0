-- ===== src/Transaction/Ids.antt =====
-- `operator==` of TransactionIdentifier in include/transaction.hpp.
use ensicoin_cpp.Prelude.{◌≡◌, true, ==_iff, ==_refl, list_eq_iff, list_eq_refl, arith}
use ensicoin_cpp.Transaction.{TransactionIdentifier, id_eq}

pub id_eq→eq : (a b : TransactionIdentifier) → id_eq a b ≡ true → a ≡ b
unfolding id_eq
id_eq→eq a b h =
    ground
      (arith, (list_eq_iff a.transaction_hash b.transaction_hash).0, (==_iff a.index b.index).0)

pub id_eq_refl : (a : TransactionIdentifier) → id_eq a a ≡ true
unfolding id_eq
id_eq_refl a = rw (list_eq_refl a.transaction_hash, ==_refl a.index)

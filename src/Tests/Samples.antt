-- ===== src/Tests/Samples.antt =====
-- Concrete stand-ins for the code that the program calls, and sample values.
use ensicoin_cpp.Crypto.{Crypto}
use ensicoin_cpp.HashMemory.{lookup, insert, erase, lookup-insert, lookup-erase}
use ensicoin_cpp.LevelDb.{LevelDb}
use ensicoin_cpp.LinkedTransaction.{Env}
use ensicoin_cpp.Mempool.{Mempool}
use ensicoin_cpp.Networkable.{HexDecoder, hex_digit}
use ensicoin_cpp.Prelude.{
  Option, none, some, ◌++◌, length, length-append, take, drop, take-append, drop-append, ℕ, ◌+◌,
  ◌-◌, ◌*◌, ◌<◌, ◌≡◌, ◌≢◌, refl, ◌∙◌, ltb, if◌then◌else◌, true, false, List, [], ◌∷◌, replicate,
  list_eq, list_eq_refl, list_eq_iff, arith,
}
use ensicoin_cpp.Prelude.Int.{pos}
use ensicoin_cpp.Script.{Script, op_true, op_dup, op_equal}
use ensicoin_cpp.Socket.{Socket}
use ensicoin_cpp.Transaction.{
  TransactionIdentifier, InputTransaction, OutputTransaction, Transaction,
}
use ensicoin_cpp.Utxo.{UtxoData}

abbrev pub digit_value : ℕ → ℕ
digit_value c = if ltb c 58 then c - 48 else c - 87

abbrev pub decode_pairs : List ℕ → List ℕ
decode_pairs [] = []
decode_pairs (a ∷ []) = []
decode_pairs (a ∷ b ∷ rest) = (digit_value a * 16 + digit_value b) ∷ decode_pairs rest

pub value-digit : (d : ℕ) → d < 16 → digit_value (hex_digit d) ≡ d
value-digit d h = ground arith

-- Pairs of digits as bytes.
abbrev pub hex_pairs : HexDecoder
hex_pairs = record {
  decode = decode_pairs;
  decode-nil = refl;
  decode-digits = λ a b rest ha hb. rw (value-digit a ha, value-digit b hb);
}

-- Digests of nothing but ones, and signatures that are all accepted.
abbrev pub ones : Crypto
ones = record {
  ripemd160 = λ s. replicate 20 1;
  sha256 = λ s. replicate 32 1;
  hex_decoder = hex_pairs;
  verify_message = λ x y message signature. true;
  length-ripemd160 = λ s. refl;
  length-sha256 = λ s. refl;
}

pub self : (k : List ℕ) {A : Type 0} (a b : A) → (if list_eq k k then a else b) ≡ a
self k a b = rw (list_eq_refl k)

pub other : (k j : List ℕ) {A : Type 0} (a b : A) → k ≢ j → (if list_eq k j then a else b) ≡ b
other k j a b ne = ground (arith, list_eq_iff k j)

-- The entries as an association list.
abbrev pub entries : LevelDb
entries = record {
  State = List (List ℕ × List ℕ);
  get = λ s k. lookup k s;
  put = insert;
  delete = erase;
  get-put_self = λ k v s. lookup-insert k k v s ∙ self k _ _;
  get-put_ne = λ k j v s ne. lookup-insert k j v s ∙ other k j _ _ ne;
  get-delete_self = λ k s. lookup-erase k k s ∙ self k _ _;
  get-delete_ne = λ k j s ne. lookup-erase k j s ∙ other k j _ _ ne;
}

abbrev pub node : Env
node = record {
  level = entries;
  hex = hex_pairs;
  crypto = ones;
  print_json = λ j. [];
  stack = [];
  fresh = λ k. [];
}

abbrev pub seven_hash : List ℕ
seven_hash = replicate 32 7

abbrev pub seven : TransactionIdentifier
seven = record { transaction_hash = seven_hash; index = 3 }

abbrev pub eight : TransactionIdentifier
eight = record { transaction_hash = replicate 32 8; index = 3 }

-- OP_TRUE, OP_DUP, OP_EQUAL.
abbrev pub dup_equal : Script
dup_equal = record {
  script_instructions =
      record { operation = op_true; argument = 0 }
      ∷ record { operation = op_dup; argument = 0 }
      ∷ record { operation = op_equal; argument = 0 }
      ∷ [];
  code_pointer = 0;
  stack = [];
  valid = true;
  signing_hash = [];
}

abbrev pub spending : InputTransaction
spending = record { previous_output = seven; script = dup_equal }

abbrev pub paying : OutputTransaction
paying = record { value = 5; script = dup_equal }

-- One input, one output, one flag.
abbrev pub payment : Transaction
payment = record {
  version = 1;
  transaction_flags = (97 ∷ []) ∷ [];
  inputs = spending ∷ [];
  outputs = paying ∷ [];
}

abbrev pub unspent : UtxoData
unspent = record {
  value = 5;
  coinbase = true;
  height = 12;
  signing_hash = seven_hash;
  from_mempool = false;
  script = dup_equal;
}

abbrev pub nothing_pooled : Mempool node
nothing_pooled = record {
  utxos = [];
  current_height = pos 20;
  main_pool = [];
  orphans = [];
  orphan_using_utxo = [];
}

pub read_exactly : ℕ → List ℕ → Option (List ℕ × List ℕ)
read_exactly n bytes = if ltb (length bytes) n then none else some (take n bytes, drop n bytes)

pub read_enough : (xs ys : List ℕ) → read_exactly (length xs) (xs ++ ys) ≡ some (xs, ys)
unfolding read_exactly
read_enough xs ys =
    let enough : ltb (length (xs ++ ys)) (length xs) ≡ false =
      ground (arith, length-append xs ys) in
    rw (enough, take-append xs ys, drop-append xs ys)

pub read_short : (n : ℕ) (bytes : List ℕ) → length bytes < n → read_exactly n bytes ≡ none
unfolding read_exactly
read_short n bytes h = let short : ltb (length bytes) n ≡ true = ground arith in rw short

-- The bytes that have come are a list.
abbrev pub list_socket : Socket
list_socket = record {
  transfer_exactly = read_exactly;
  transfer_exactly-enough = read_enough;
  transfer_exactly-short = read_short;
}

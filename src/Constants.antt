-- ===== src/Constants.antt =====
-- include/constants.hpp and src/constants.cpp.
use ensicoin_cpp.Prelude.{ℕ, ◌*◌, List, [], ◌∷◌, ◌++◌, replicate, codes}

abbrev pub max_block_size : ℕ
max_block_size = 2 * 1024

-- VERSION, MAGIC and HASH_LENGTH.
abbrev pub protocol_version : ℕ
protocol_version = 0

abbrev pub magic_number : ℕ
magic_number = 422021

abbrev pub hash_length : ℕ
hash_length = 32

-- IP_bytes.
abbrev pub ip_bytes : List ℕ
ip_bytes = replicate 12 0 ++ 109 ∷ 13 ∷ 67 ∷ 208 ∷ []

-- The paths, for the value of HOME, without which the program ends before `main`.
abbrev pub data_path : List ℕ → List ℕ
data_path home = home ++ codes "/.ensicoincpp"

abbrev pub utxo_db : List ℕ → List ℕ
utxo_db home = data_path home ++ codes "/utxo"

abbrev pub blockchain_db : List ℕ → List ℕ
blockchain_db home = data_path home ++ codes "/blockchain"

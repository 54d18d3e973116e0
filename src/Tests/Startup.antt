-- ===== src/Tests/Startup.antt =====
-- The start of the program, and what it prints.
use ensicoin_cpp.Constants.{data_path, blockchain_db, utxo_db}
use ensicoin_cpp.LevelDb.Opening.{Opening, opened, refused, open_blockchain, open_utxos}
use ensicoin_cpp.LevelDb.Opening.Failures.{complaint, open_blockchain-complaints}
use ensicoin_cpp.Logger.{Logger, trace_level, info_level, warn_level, fatal_level, create}
use ensicoin_cpp.Logger.Lines.{Call, sets, logs, call_all, line, lines, joined, call_all-lines}
use ensicoin_cpp.Node.{has_name}
use ensicoin_cpp.Prelude.{
  ℕ, ◌≡◌, ◌⊎◌, inl, inr, refl, true, false, if◌then◌else◌, Bool-cases, list_eq, list_eq_refl, arith,
  Option, none, some, List, [], ◌∷◌, ◌++◌, codes,
}
use ensicoin_cpp.Networkable.{print_hex}
use ensicoin_cpp.Util.{Ostream, hex, insert_hex, print_bytes, print_binary_string}
use ensicoin_cpp.Program.{FileSystem, main}
use ensicoin_cpp.Program.Start.{IsMade, main_cases}

-- A date, a call that is printed and one that is not.
abbrev calls : List Call
calls =
    sets info_level
    ∷ logs warn_level (codes "Mon") (codes "a" ∷ codes "b" ∷ [])
    ∷ logs trace_level (codes "Mon") []
    ∷ []

call_all-lines_example :
    (call_all calls (create trace_level)).cout
    ≡ (create trace_level).cout ++ lines (create trace_level).level calls
call_all-lines_example = call_all-lines calls (create trace_level)

only_warned : lines trace_level calls ≡ line warn_level (codes "Mon") (codes "a" ∷ codes "b" ∷ [])
unfolding lines line joined
only_warned = refl

-- What there is, as a list of paths. 17 is EEXIST.
make : List ℕ → List (List ℕ) → Option ℕ × List (List ℕ)
make path s = if has_name path s then (some 17, s) else (none, path ∷ s)

make_there : (path : List ℕ) (s : List (List ℕ)) → has_name path (make path s).1 ≡ true
unfolding make has_name
make_there path s = elim (Bool-cases (has_name path s)) [
  | inl there ↦ rw there there
  | inr new ↦ rw new (rw (list_eq_refl path) refl)
]

make_keeps :
    (path old : List ℕ) (s : List (List ℕ))
    → has_name old s ≡ true
    → has_name old (make path s).1 ≡ true
unfolding make has_name
make_keeps path old s h = elim (Bool-cases (has_name path s)) [
  | inl there ↦ rw there h
  | inr new ↦ rw new (ground (arith, h))
]

abbrev directories : FileSystem
directories = record {
  State = List (List ℕ);
  mkdir = make;
  eexist = 17;
  strerror_r = λ errno. [];
  exists = has_name;
  mkdir_made = λ path s made. make_there path s;
  mkdir_found = λ path s found. make_there path s;
  mkdir_keeps = make_keeps;
}

-- The state after a first start, which the second one finds.
abbrev started : List (List ℕ)
started = (main directories (codes "/root") [] (λ logger s. (logger, s)) []).1.1

main_cases_example :
    ((IsMade directories (make (data_path (codes "/root")) started).0
        × IsMade directories
            (make (blockchain_db (codes "/root")) (make (data_path (codes "/root")) started).1).0)
      × (s' : List (List ℕ)) × (main directories
            (codes "/root")
            []
            (λ logger s. (logger, s))
            started
          ≡ (0, (create trace_level, s')))
      × (has_name (data_path (codes "/root")) s' ≡ true)
      × (has_name (blockchain_db (codes "/root")) s' ≡ true))
    ⊎ ((¬ (
          IsMade directories (make (data_path (codes "/root")) started).0
          × IsMade directories
              (make
                (blockchain_db (codes "/root"))
                (make (data_path (codes "/root")) started).1).0))
        × (s' : List (List ℕ)) × (logger : Logger) × (args : List (List ℕ)) × (main directories
              (codes "/root")
              []
              (λ logger s. (logger, s))
              started
            ≡ (1, (logger, s')))
        × (logger.cout ≡ line fatal_level [] args))
main_cases_example = main_cases directories (codes "/root") [] (λ logger s. (logger, s)) started

-- Of four databases, that of the chain does not open.
no_chain : List ℕ → Opening ℕ
no_chain path =
    if list_eq path (blockchain_db (codes "/root") ++ codes "/chain")
    then refused (codes "IO error")
    else opened 1

open_blockchain-complaints_example :
    ((open_blockchain [] no_chain (codes "/root") (create trace_level)).1.cout
      ≡ (create trace_level).cout
        ++ (complaint []
              (codes "can't open block DB : ")
              (no_chain (blockchain_db (codes "/root") ++ codes "/blocks"))
            ++ (complaint []
                  (codes "can't open chain DB : ")
                  (no_chain (blockchain_db (codes "/root") ++ codes "/chain"))
                ++ complaint []
                    (codes "can't open info DB : ")
                    (no_chain (blockchain_db (codes "/root") ++ codes "/stat")))))
    × ((open_utxos [] no_chain (codes "/root") (create trace_level)).1.cout
        ≡ (create trace_level).cout
          ++ complaint [] (codes "can't open utxo db : ") (no_chain (utxo_db (codes "/root"))))
open_blockchain-complaints_example =
    open_blockchain-complaints [] no_chain (codes "/root") (create trace_level)

chain_missing :
    (open_blockchain [] no_chain (codes "/root") (create trace_level)).0
    ≡ record { blocks_db = some 1; chain_db = none; stat_db = some 1 }
unfolding open_blockchain no_chain
chain_missing = refl

-- Two bytes to look at: "0a|ff|", and the newline on the other stream.
abbrev empty_stream : Ostream
empty_stream = record { text = []; is_hex = false; fill = 32 }

two_bytes_shown : print_binary_string (10 ∷ 255 ∷ []) empty_stream empty_stream ≡ (
  record { text = codes "0a|ff|"; is_hex = true; fill = 48 },
  record empty_stream { text = 10 ∷ [] },
)
unfolding print_binary_string print_bytes insert_hex hex print_hex
two_bytes_shown = refl

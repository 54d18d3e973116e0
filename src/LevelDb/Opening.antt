-- ===== src/LevelDb/Opening.antt =====
-- The constructors of Blockchain (src/blockchain.cpp) and UTXOManager (src/utxo.cpp), which open the
-- databases.
pub mod Failures
use ensicoin_cpp.Constants.{blockchain_db, utxo_db}
use ensicoin_cpp.Logger.{Logger, fatal}
use ensicoin_cpp.Prelude.{ℕ, Option, none, some, List, [], ◌∷◌, ◌++◌, codes}

-- What leveldb::DB::Open gives: the database, or the text of a status that is not ok.
pub data Opening {ℓ} (State : Type ℓ) : Type ℓ where
  opened : State → Opening State
  refused : (status : List ℕ) → Opening State

-- The pointers to the databases; that of one that was not opened is null (`none`).
pub record Blockchain (State : Type 0) : Type 0 where
  pub blocks_db : Option State
  pub chain_db : Option State
  pub stat_db : Option State

abbrev pub database {ℓ} : {State : Type ℓ} → Opening State → Option State
database (opened db) = some db
database (refused status) = none

module _ {State : Type 0} (mbstr : List ℕ) where
  -- `if (!status.ok()) logger->fatal(message, status.ToString())`
  unfoldable pub note_status : List ℕ → Opening State → Logger → Logger
  note_status message (opened db) logger = logger
  note_status message (refused status) logger = fatal mbstr (message ∷ status ∷ []) logger

  module _ (open_db : List ℕ → Opening State) (home : List ℕ) where
    unfoldable pub open_blockchain : Logger → Blockchain State × Logger
    open_blockchain logger =
        let blocks = open_db (blockchain_db home ++ codes "/blocks") in
        let chain = open_db (blockchain_db home ++ codes "/chain") in
        let stat = open_db (blockchain_db home ++ codes "/stat") in
        (
          record {
            blocks_db = database blocks;
            chain_db = database chain;
            stat_db = database stat;
          },
          note_status (codes "can't open info DB : ") stat (
              note_status (codes "can't open chain DB : ") chain
                (note_status (codes "can't open block DB : ") blocks logger)),
        )

    unfoldable pub open_utxos : Logger → Option State × Logger
    open_utxos logger =
        let db = open_db (utxo_db home) in
        (database db, note_status (codes "can't open utxo db : ") db logger)

-- ===== src/LevelDb/Opening/Failures.antt =====
-- What the constructors of src/blockchain.cpp and src/utxo.cpp do about databases that do not open.
use ensicoin_cpp.Constants.{blockchain_db, utxo_db}
use ensicoin_cpp.LevelDb.Opening.{
  Opening, opened, refused, note_status, open_blockchain, open_utxos,
}
use ensicoin_cpp.Logger.{Logger, fatal_level}
use ensicoin_cpp.Logger.Lines.{line, fatal-cout}
use ensicoin_cpp.Prelude.{ℕ, ◌≡◌, sym, List, [], ◌∷◌, ◌++◌, append-nil, append_assoc, codes}

-- The line for a database that did not open, and none for one that did.
unfoldable pub complaint : {State : Type 0} → (mbstr message : List ℕ) → Opening State → List ℕ
complaint mbstr message (opened db) = []
complaint mbstr message (refused status) = line fatal_level mbstr (message ∷ status ∷ [])

module _ {State : Type 0} (mbstr : List ℕ) where
  note_status-complaint :
      (message : List ℕ) (o : Opening State) (logger : Logger)
      → (note_status mbstr message o logger).cout ≡ logger.cout ++ complaint mbstr message o
  unfolding note_status complaint
  note_status-complaint message (opened db) logger = sym (append-nil logger.cout)
  note_status-complaint message (refused status) logger =
      fatal-cout mbstr (message ∷ status ∷ []) logger

  three :
      (m₁ m₂ m₃ : List ℕ) (o₁ o₂ o₃ : Opening State) (logger : Logger)
      → (note_status mbstr m₃ o₃ (note_status mbstr m₂ o₂ (note_status mbstr m₁ o₁ logger))).cout
        ≡ logger.cout ++ (complaint mbstr m₁ o₁ ++ (complaint mbstr m₂ o₂ ++ complaint mbstr m₃ o₃))
  three m₁ m₂ m₃ o₁ o₂ o₃ logger = simp (note_status-complaint, append_assoc)

  -- A database that does not open ends nothing: the constructors of Blockchain and UTXOManager print
  -- one line of the level FATAL for each, in the order in which they open them and whatever the level
  -- of the logger, and nothing else.
  pub open_blockchain-complaints :
      (open_db : List ℕ → Opening State) (home : List ℕ) (logger : Logger)
      → ((open_blockchain mbstr open_db home logger).1.cout
          ≡ logger.cout
            ++ (complaint mbstr
                  (codes "can't open block DB : ")
                  (open_db (blockchain_db home ++ codes "/blocks"))
                ++ (complaint mbstr
                      (codes "can't open chain DB : ")
                      (open_db (blockchain_db home ++ codes "/chain"))
                    ++ complaint mbstr
                        (codes "can't open info DB : ")
                        (open_db (blockchain_db home ++ codes "/stat")))))
        × ((open_utxos mbstr open_db home logger).1.cout
            ≡ logger.cout
              ++ complaint mbstr (codes "can't open utxo db : ") (open_db (utxo_db home)))
  unfolding open_blockchain open_utxos
  open_blockchain-complaints open_db home logger = (
    three (codes "can't open block DB : ") (codes "can't open chain DB : ")
        (codes "can't open info DB : ") (open_db (blockchain_db home ++ codes "/blocks"))
        (open_db (blockchain_db home ++ codes "/chain"))
        (open_db (blockchain_db home ++ codes "/stat")) logger,
    note_status-complaint (codes "can't open utxo db : ") (open_db (utxo_db home)) logger,
  )

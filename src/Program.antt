-- ===== src/Program.antt =====
-- src/main.cpp: the start of the program. The file system is a parameter, and so is what the node
-- does once it is made, until `io_context.run()` returns.
pub mod Start
use ensicoin_cpp.Constants.{data_path, blockchain_db}
use ensicoin_cpp.Logger.{Logger, trace_level, create, fatal}
use ensicoin_cpp.Prelude.{
  ℕ, ◌≡◌, ◌==◌, if◌then◌else◌, Bool, true, false, not, Option, none, some, List, [], ◌∷◌, codes,
}

-- `mkdir` gives `none` where it returns 0, and else the value of errno. A path for which it returns
-- 0 or that it finds there already (EEXIST) exists afterwards, and it removes none.
pub record FileSystem : Type 1 where
  pub State : Type 0
  pub mkdir : List ℕ → State → Option ℕ × State
  pub eexist : ℕ
  pub strerror_r : ℕ → List ℕ
  pub exists : List ℕ → State → Bool
  pub mkdir_made :
      (path : List ℕ) (s : State) → (mkdir path s).0 ≡ none → exists path (mkdir path s).1 ≡ true
  pub mkdir_found :
      (path : List ℕ) (s : State)
      → (mkdir path s).0 ≡ some eexist
      → exists path (mkdir path s).1 ≡ true
  pub mkdir_keeps :
      (path old : List ℕ) (s : State) → exists old s ≡ true → exists old (mkdir path s).1 ≡ true

module _ (fs : FileSystem) where
  -- `status != 0 && errno != EEXIST`
  unfoldable pub failed : Option ℕ → Bool
  failed none = false
  failed (some errno) = not (errno == fs.eexist)

  unfoldable pub reason : Option ℕ → List ℕ
  reason none = []
  reason (some errno) = fs.strerror_r errno

  -- `home` is the value of HOME, and `mbstr` the date that the logger prints.
  unfoldable pub main :
      (home mbstr : List ℕ)
      → (Logger → fs.State → Logger × fs.State)
      → fs.State
      → ℕ × (Logger × fs.State)
  main home mbstr run_node s =
      let logger = create trace_level in
      let made = fs.mkdir (data_path home) s in
      let made_chain = fs.mkdir (blockchain_db home) made.1 in
      if failed made.0
      then (
        1,
        (
          fatal mbstr (codes "Error when creating main directory : " ∷ reason made.0 ∷ []) logger,
          made.1,
        ),
      )
      else if failed made_chain.0
      then (
        1,
        (
          fatal mbstr
              (codes "Error when creating blockchain directory : " ∷ reason made_chain.0 ∷ [])
              logger,
          made_chain.1,
        ),
      )
      else (0, run_node logger made_chain.1)

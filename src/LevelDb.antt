-- ===== src/LevelDb.antt =====
-- LevelDB, which the program calls: a map from byte strings, by the laws that its documentation
-- gives for calls that succeed.
pub mod Opening
use ensicoin_cpp.Prelude.{◌≡◌, ◌≢◌, ℕ, Option, none, some, List}

pub record LevelDb : Type 1 where
  pub State : Type 0
  pub get : State → List ℕ → Option (List ℕ)
  pub put : List ℕ → List ℕ → State → State
  pub delete : List ℕ → State → State
  pub get-put_self : (k v : List ℕ) (s : State) → get (put k v s) k ≡ some v
  pub get-put_ne : (k j v : List ℕ) (s : State) → k ≢ j → get (put k v s) j ≡ get s j
  pub get-delete_self : (k : List ℕ) (s : State) → get (delete k s) k ≡ none
  pub get-delete_ne : (k j : List ℕ) (s : State) → k ≢ j → get (delete k s) j ≡ get s j

-- ===== src/HashMemory.antt =====
-- include/hashmemory.hpp, a map from hashes, and std::map from strings, both as association lists.
use ensicoin_cpp.Prelude.{
  ◌≡◌, refl, ℕ, Bool, true, false, if◌then◌else◌, Option, none, some, List, [], ◌∷◌, list_eq,
  list_eq_iff, arith,
}

module _ {V : Type 0} where
  unfoldable pub lookup : List ℕ → List (List ℕ × V) → Option V
  lookup k [] = none
  lookup k ((j, v) ∷ m) = if list_eq j k then some v else lookup k m

  -- `memory[k] = v`.
  unfoldable pub insert : List ℕ → V → List (List ℕ × V) → List (List ℕ × V)
  insert k v [] = (k, v) ∷ []
  insert k v ((j, w) ∷ m) = if list_eq j k then (k, v) ∷ m else (j, w) ∷ insert k v m

  -- `memory.erase(k)`.
  unfoldable pub erase : List ℕ → List (List ℕ × V) → List (List ℕ × V)
  erase k [] = []
  erase k ((j, w) ∷ m) = if list_eq j k then erase k m else (j, w) ∷ erase k m

  pub lookup-insert :
      (k j : List ℕ) (v : V) (m : List (List ℕ × V))
      → lookup j (insert k v m) ≡ (if list_eq k j then some v else lookup j m)
  unfolding lookup insert
  lookup-insert k j v [] = refl
  lookup-insert k j v ((i, w) ∷ m) =
      ground (arith, list_eq_iff k j, list_eq_iff i k, list_eq_iff i j, lookup-insert k j v m)

  pub lookup-erase :
      (k j : List ℕ) (m : List (List ℕ × V))
      → lookup j (erase k m) ≡ (if list_eq k j then none else lookup j m)
  unfolding lookup erase
  lookup-erase k j [] = ground arith
  lookup-erase k j ((i, w) ∷ m) =
      ground (arith, list_eq_iff k j, list_eq_iff i k, list_eq_iff i j, lookup-erase k j m)

-- HashMemory<T> over elements whose `hash()` is `hash`.
module _ {T : Type 0} (hash : T → List ℕ) where
  abbrev pub HashMemory : Type 0
  HashMemory = List (List ℕ × T)

  unfoldable pub hash_exists : HashMemory → List ℕ → Bool
  hash_exists memory elem_hash = elim (lookup elem_hash memory) [ none ↦ false | some t ↦ true ]

  -- `add` returns false, and changes nothing, if the hash is there.
  unfoldable pub add : HashMemory → T → HashMemory × Bool
  add memory element =
      if hash_exists memory (hash element)
      then (memory, false)
      else (insert (hash element) element memory, true)

  -- `get` throws (`none`) where the hash is not there.
  unfoldable pub get : HashMemory → List ℕ → Option T
  get memory elem_hash = lookup elem_hash memory

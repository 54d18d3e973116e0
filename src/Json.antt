-- ===== src/Json.antt =====
-- The documents that src/jsonable.cpp prints: the values of RapidJSON that the program builds with
-- AddMember and PushBack. What `str()` prints for one is the program's call of RapidJSON, and an
-- argument where it is used.
use ensicoin_cpp.Prelude.{ℕ, List, [], ◌∷◌}
use ensicoin_cpp.Prelude.Int.{ℤ}

mutual
  pub data Json : Type 0 where
    text : List ℕ → Json
    int : ℤ → Json
    uint : ℕ → Json
    array : Items → Json
    object : Members → Json

  pub data Items : Type 0 where
    no_items : Items
    item : Json → Items → Items

  pub data Members : Type 0 where
    no_members : Members
    member : List ℕ → Json → Members → Members

unfoldable pub items_of : {A : Type 0} → (A → Json) → List A → Items
items_of json [] = no_items
items_of json (x ∷ xs) = item (json x) (items_of json xs)

-- The members in the order in which they are added.
unfoldable pub members_of : List (List ℕ × Json) → Members
members_of [] = no_members
members_of ((name, value) ∷ members) = member name value (members_of members)

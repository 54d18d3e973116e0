-- ===== src/Utxo/Refinement.antt =====
-- UTXOManager of src/utxo.cpp against what it promises: a map from outputs to their data.
use ensicoin_cpp.LevelDb.{LevelDb}
use ensicoin_cpp.Networkable.{HexDecoder}
use ensicoin_cpp.Networkable.Strings.{zeroed}
use ensicoin_cpp.Prelude.{
  ℕ, ◌≡◌, ◌≢◌, refl, ap, ◌∙◌, Bool-cases, false, inl, inr, if◌then◌else◌, Option, none, some, List,
  [], ◌∷◌, All, arith,
}
use ensicoin_cpp.Transaction.{TransactionIdentifier, id_eq}
use ensicoin_cpp.Transaction.Ids.{id_eq→eq, id_eq_refl}
use ensicoin_cpp.Transaction.RoundTrip.{IsSendableId}
use ensicoin_cpp.Utxo.{UtxoData, utxo_exists, get_data, add_utxo, spend}
use ensicoin_cpp.Utxo.Entries.{IsStorable, add_utxo_self, add_utxo_ne, spend_self, spend_ne}

-- The calls that change the database.
pub data Operation : Type 0 where
  adds : TransactionIdentifier → UtxoData → Operation
  spends : TransactionIdentifier → Operation

abbrev pub IsAllowed : Operation → Type 0
IsAllowed (adds id d) = IsSendableId id × IsStorable d
IsAllowed (spends id) = IsSendableId id

-- What they are to do: to a map from outputs.
abbrev pub Unspent : Type 0
Unspent = TransactionIdentifier → Option UtxoData

unfoldable pub change : Operation → Unspent → Unspent
change (adds id d) m j = if id_eq id j then some d else m j
change (spends id) m j = if id_eq id j then none else m j

unfoldable pub changes : List Operation → Unspent → Unspent
changes [] m = m
changes (op ∷ ops) m = changes ops (change op m)

change-at :
    (op : Operation) (m m' : Unspent) (j : TransactionIdentifier)
    → m j ≡ m' j
    → change op m j ≡ change op m' j
unfolding change
change-at (adds id d) m m' j e = rw e
change-at (spends id) m m' j e = rw e

changes-at :
    (ops : List Operation) (m m' : Unspent) (j : TransactionIdentifier)
    → m j ≡ m' j
    → changes ops m j ≡ changes ops m' j
unfolding changes
changes-at [] m m' j e = e
changes-at (op ∷ ops) m m' j e =
    changes-at ops (change op m) (change op m') j (change-at op m m' j e)

apart : (id j : TransactionIdentifier) → id_eq id j ≡ false → id ≢ j
apart id j n e = ground (arith, ap (id_eq id) e, id_eq_refl id)

module _ (level : LevelDb) (hex : HexDecoder) (stack : List ℕ) where
  unfoldable pub apply : Operation → level.State → level.State
  apply (adds id d) db = add_utxo level hex stack id d db
  apply (spends id) db = spend level hex stack id db

  unfoldable pub apply_all : List Operation → level.State → level.State
  apply_all [] db = db
  apply_all (op ∷ ops) db = apply_all ops (apply op db)

  -- The map that a database stands for: what `exists` and `getData` tell of it.
  abbrev pub unspent_in : level.State → Unspent
  unspent_in db j =
      if utxo_exists level hex stack db j then some (get_data level hex stack zeroed db j) else none

  apply-unspent_in :
      (op : Operation) (db : level.State) (j : TransactionIdentifier)
      → IsAllowed op
      → IsSendableId j
      → unspent_in (apply op db) j ≡ change op (unspent_in db) j
  unfolding apply change
  apply-unspent_in (adds id d) db j h hj = elim (Bool-cases (id_eq id j)) [
    | inl same ↦
        let (found, there) = add_utxo_self level hex stack db id d h.1 in
        rw (← id_eq→eq id j same, id_eq_refl id, there, found)
    | inr other ↦
        let (as_before, there) = add_utxo_ne level hex stack db id j d h.0 hj (apart id j other) in
        rw (other, there, as_before)
  ]
  apply-unspent_in (spends id) db j h hj = elim (Bool-cases (id_eq id j)) [
    | inl same ↦ rw (← id_eq→eq id j same, id_eq_refl id, spend_self level hex stack db id)
    | inr other ↦
        let (as_before, there) = spend_ne level hex stack db id j h hj (apart id j other) in
        rw (other, there, as_before)
  ]

  -- The database implements the map: after any calls of `add` and `spend` whose references and entries
  -- the format can carry, `exists` and `getData` tell of an output that the format can carry what the
  -- map that they told before holds for it after the same changes; the storage is zeroed.
  pub apply_all-unspent_in :
      (ops : List Operation) (db : level.State) (j : TransactionIdentifier)
      → All IsAllowed ops
      → IsSendableId j
      → unspent_in (apply_all ops db) j ≡ changes ops (unspent_in db) j
  unfolding apply_all changes
  apply_all-unspent_in [] db j h hj = refl
  apply_all-unspent_in (op ∷ ops) db j h hj =
      apply_all-unspent_in ops (apply op db) j h.1 hj
      ∙ changes-at ops (unspent_in (apply op db)) (change op (unspent_in db)) j
          (apply-unspent_in op db j h.0 hj)

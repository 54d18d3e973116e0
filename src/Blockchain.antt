-- ===== src/Blockchain.antt =====
-- include/blockchain.hpp and src/blockchain.cpp: the database of blocks, and the index over it. The
-- source declares registerBlock, deleteBlock, popBlock and pushBlock and defines none of them.
use ensicoin_cpp.Block.{Block, BlockTarget, block_from_buffer}
use ensicoin_cpp.HashMemory.{lookup}
use ensicoin_cpp.LevelDb.{LevelDb}
use ensicoin_cpp.NetworkBuffer.{buffer_of}
use ensicoin_cpp.Prelude.{ℕ, zero, suc, Bool, true, false, none, some, List, [], ◌∷◌, ◌++◌}
use ensicoin_cpp.Prelude.Outcome.{Outcome, returns, undefined, ◌>>=◌}

-- `db` is blocksDB, and `fresh` what stands in uninitialised storage when a block is parsed.
module _ (level : LevelDb) where
  unfoldable pub block_exists : level.State → List ℕ → Bool
  block_exists db hash = elim (level.get db hash) [ none ↦ false | some bytes ↦ true ]

  -- A missing block is logged, and the empty string is parsed in its place.
  unfoldable pub get_block : (ℕ → List ℕ) → level.State → List ℕ → Block
  get_block fresh db hash =
      let str_data : List ℕ = elim (level.get db hash) [ none ↦ [] | some bytes ↦ bytes ] in
      (block_from_buffer (buffer_of fresh str_data)).0

  -- BlockIndex, with `cachedBlocks` as an association list.
  pub record BlockIndex : Type 0 where
    pub blocks : level.State
    pub cached_blocks : List (List ℕ × Block)

  unfoldable pub index_exists : BlockIndex → List ℕ → Bool
  index_exists index hash = block_exists index.blocks hash

  -- A block that is not cached is read, and then the function ends without a `return`.
  unfoldable pub retrieve : (ℕ → List ℕ) → BlockIndex → List ℕ → Outcome Block
  retrieve fresh index hash = elim (lookup hash index.cached_blocks) [
    | some block ↦ returns block
    | none ↦ let block = get_block fresh index.blocks hash in undefined
  ]

  -- The loop of getWindowFrom with the given rounds left.
  unfoldable pub window_loop :
      (ℕ → List ℕ) → BlockIndex → ℕ → List ℕ → List BlockTarget → Outcome (List BlockTarget)
  window_loop fresh index zero current_hash out = returns out
  window_loop fresh index (suc rounds) current_hash out = do
    block ← retrieve fresh index current_hash
    window_loop fresh index rounds block.header.hash_prev_block (out ++ block.header.target ∷ [])

  -- `count` is 0.
  unfoldable pub get_window_from : (ℕ → List ℕ) → BlockIndex → List ℕ → Outcome (List BlockTarget)
  unfolding window_loop
  get_window_from fresh index latest_block =
      let count : ℕ = 0 in window_loop fresh index count latest_block []

  -- `update` of BlockTarget fetches the window and leaves the target as it is.
  unfoldable pub update_target :
      (ℕ → List ℕ) → BlockIndex → ℕ → List ℕ → BlockTarget → Outcome BlockTarget
  update_target fresh index time_taken current_hash target = do
    block_window ← get_window_from fresh index current_hash
    returns target

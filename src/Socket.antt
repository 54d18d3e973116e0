-- ===== src/Socket.antt =====
-- The reads that src/connection.cpp starts with asio::async_read and asio::transfer_exactly, as an
-- interface.
use ensicoin_cpp.Prelude.{ℕ, ◌<◌, ◌≡◌, Option, none, some, List, ◌++◌, length}

-- Of the bytes that have come, a read of exactly n takes the first n and leaves the others, and it is
-- not complete (`none`) while they are too few.
pub record Socket : Type 0 where
  pub transfer_exactly : ℕ → List ℕ → Option (List ℕ × List ℕ)
  pub transfer_exactly-enough :
      (xs ys : List ℕ) → transfer_exactly (length xs) (xs ++ ys) ≡ some (xs, ys)
  pub transfer_exactly-short :
      (n : ℕ) (bytes : List ℕ) → length bytes < n → transfer_exactly n bytes ≡ none

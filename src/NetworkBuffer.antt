-- ===== src/NetworkBuffer.antt =====
-- include/networkbuffer.hpp and src/networkbuffer.cpp: the bytes received from a peer and the reads
-- on them.
pub mod Reads
pub mod Strings
use ensicoin_cpp.Prelude.{
  ℕ, zero, suc, ◌+◌, ◌-◌, ◌*◌, ◌%◌, ◌^◌, bit_or, ltb, leb, ◌==◌, if◌then◌else◌, Bool, true, false,
  ◌||◌, ◌&&◌, Option, none, some, List, [], ◌∷◌, ◌++◌, length, get_or, take, drop,
}

-- The std::stringstream: the bytes not yet read, and whether a read has failed (eofbit and failbit),
-- after which every further read gives nothing.
-- `fresh k` is what stands in the k-th next piece of uninitialised storage that the program gets (a
-- `new char[]` or a std::array), and behind it; all bytes past those listed are 0.
pub record NetworkBuffer : Type 0 where
  pub rest : List ℕ
  pub failed : Bool
  pub fresh : ℕ → List ℕ

-- The constructor from a string, and from storage.
abbrev pub buffer_of : (ℕ → List ℕ) → List ℕ → NetworkBuffer
buffer_of fresh bytes = record { rest = bytes; failed = false; fresh = fresh }

unfoldable pub append_raw_data : NetworkBuffer → List ℕ → NetworkBuffer
append_raw_data b raw = record b { rest = if b.failed then b.rest else b.rest ++ raw }

-- A read returns its value and the buffer as it leaves it.
abbrev pub Reader {ℓ} : Type ℓ → Type ℓ
Reader A = NetworkBuffer → A × NetworkBuffer

infixl 5 ◌>>=◌
abbrev pub ◌>>=◌ {ℓ κ} : {A : Type ℓ} {B : Type κ} → Reader A → (A → Reader B) → Reader B
◌>>=◌ m f b = let (a, b') = m b in f a b'

abbrev pub pure {ℓ} : {A : Type ℓ} → A → Reader A
pure a b = (a, b)

-- `buffer.read(p, n)`: up to n bytes, the number of which is gcount.
unfoldable pub read : ℕ → Reader (List ℕ)
read n b =
    if b.failed
    then ([], b)
    else if leb n (length b.rest)
    then (take n b.rest, record b { rest = drop n b.rest })
    else (b.rest, record b { rest = []; failed = true })

-- The next piece of uninitialised storage.
unfoldable pub new_storage : Reader (List ℕ)
new_storage b = (b.fresh 0, record b { fresh = λ k. b.fresh (suc k) })

-- std::isspace in the "C" locale.
abbrev pub is_space : ℕ → Bool
is_space c = (c == 32) || (leb 9 c && leb c 13)

unfoldable pub skip_spaces : List ℕ → List ℕ
skip_spaces [] = []
skip_spaces (c ∷ cs) = if is_space c then skip_spaces cs else c ∷ cs

next_char : List ℕ → Reader (Option ℕ)
next_char [] b = (none, record b { rest = []; failed = true })
next_char (c ∷ cs) b = (some c, record b { rest = cs })

-- `buffer >> c`, which skips white space first, as skipws is set on a new stream.
unfoldable pub read_char : Reader (Option ℕ)
unfolding next_char
read_char b = if b.failed then (none, b) else next_char (skip_spaces b.rest) b

unfoldable pub read_uint16 : Reader ℕ
unfolding read
read_uint16 = do
  bytes ← read 2
  pure (if length bytes == 2 then bit_or (get_or bytes 0 0 * 2 ^ 8) (get_or bytes 1 0) else 0)

unfoldable pub read_uint32 : Reader ℕ
unfolding read
read_uint32 = do
  bytes ← read 4
  pure (
      if length bytes == 4
      then bit_or
          (bit_or (bit_or (get_or bytes 0 0 * 2 ^ 24) (get_or bytes 1 0 * 2 ^ 16))
            (get_or bytes 2 0 * 2 ^ 8))
          (get_or bytes 3 0)
      else 0)

-- `value |= (uint64_t)(byte) << 8 * (7 - i)`, from the i-th byte on.
unfoldable pub or_bytes : ℕ → ℕ → List ℕ → ℕ
or_bytes i value [] = value
or_bytes i value (b ∷ bs) = or_bytes (i + 1) (bit_or value (b * 2 ^ (8 * (7 - i)))) bs

unfoldable pub read_uint64 : Reader ℕ
unfolding read
read_uint64 = do bytes ← read 8; pure (if length bytes == 8 then or_bytes 0 0 bytes else 0)

-- What follows the first byte; the source writes the reads of 2, 4 and 8 bytes out once more.
read_var_uint_after : Option ℕ → Reader ℕ
read_var_uint_after none = pure 0
read_var_uint_after (some start) =
    if ltb start 0xfd
    then pure start
    else if start == 0xfd
    then read_uint16
    else if start == 0xfe
    then read_uint32
    else read_uint64

unfoldable pub read_var_uint : Reader ℕ
unfolding read_var_uint_after
read_var_uint = do start ← read_char; read_var_uint_after start

-- A `char*` appended to a std::string: the bytes before the first 0.
unfoldable pub c_string : List ℕ → List ℕ
c_string [] = []
c_string (c ∷ cs) = let more = c_string cs in if c == 0 then [] else c ∷ more

-- The bytes read stand at the front of the array, and the rest of it stays.
abbrev pub overwrite : List ℕ → List ℕ → List ℕ
overwrite bytes storage = bytes ++ drop (length bytes) storage

-- The loop of readStr with what follows it. Each round reads 4096 bytes or is the last, so more
-- rounds than there are bytes left are enough.
unfoldable pub read_str_loop : ℕ → ℕ → ℕ → List ℕ → List ℕ → Reader (List ℕ)
read_str_loop zero size read_length str storage b = ([], b)
read_str_loop (suc fuel) size read_length str storage b =
    let left = size - read_length in
    let (chunk, b') = read (if ltb 4096 left then 4096 else left) b in
    let storage' = overwrite chunk storage in
    let str' = str ++ c_string storage' in
    let more = read_str_loop fuel size ((read_length + 4096) % 2 ^ 32) str' storage' b' in
    if ltb 4096 left
    then (if length chunk == 4096 then more else ([], b'))
    else (if length chunk == left then (str', b') else ([], b'))

unfoldable pub read_str : ℕ → Reader (List ℕ)
unfolding new_storage
read_str size b =
    let (storage, b') = new_storage b in read_str_loop (suc (length b.rest)) size 0 [] storage b'

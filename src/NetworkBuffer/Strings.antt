-- ===== src/NetworkBuffer/Strings.antt =====
-- readStr of src/networkbuffer.cpp: the bytes read go through an array that is appended to the
-- result as a `char*`.
use ensicoin_cpp.Prelude.{
  ℕ, zero, suc, ◌+◌, ◌-◌, ◌%◌, ◌^◌, ◌≤◌, ◌<◌, ◌≡◌, refl, sym, ap, ◌∙◌, ltb, ◌==◌, ==_refl, ==_iff,
  if-then_eq, if◌then◌else◌, Bool-cases, ltb→lt, lt→ltb, inl, inr, false, List, [], ◌∷◌, ◌++◌,
  length, length-append, length-drop, append_assoc, drop, All, arith,
}
use ensicoin_cpp.NetworkBuffer.{
  NetworkBuffer, buffer_of, read, c_string, overwrite, read_str, read_str_loop,
}
use ensicoin_cpp.NetworkBuffer.Reads.{read-append}

-- Bytes none of which is 0.
abbrev pub IsText : List ℕ → Type 0
IsText s = All (λ c. 0 < c) s

pub c_string-append : (xs ys : List ℕ) → IsText xs → c_string (xs ++ ys) ≡ xs ++ c_string ys
unfolding c_string
c_string-append [] ys h = refl
c_string-append (x ∷ xs) ys h = ground (arith, c_string-append xs ys)

pub c_string-cut : (xs ys : List ℕ) → IsText xs → c_string (xs ++ 0 ∷ ys) ≡ xs
unfolding c_string
c_string-cut [] ys h = refl
c_string-cut (x ∷ xs) ys h = ground (arith, c_string-cut xs ys)

pub c_string_text : (xs : List ℕ) → IsText xs → c_string xs ≡ xs
unfolding c_string
c_string_text [] h = refl
c_string_text (x ∷ xs) h = ground (arith, c_string_text xs)

-- The rounds of the loop, from what `read` gives.
module _ (fuel size read_length : ℕ) (str storage : List ℕ) (b : NetworkBuffer) where
  last_round :
      (left : ℕ) (chunk : List ℕ) (b' : NetworkBuffer)
      → size - read_length ≡ left
      → left ≤ 4096
      → read left b ≡ (chunk, b')
      → read_str_loop (suc fuel) size read_length str storage b ≡ (
          if length chunk == left
          then (str ++ c_string (overwrite chunk storage), b')
          else ([], b'))
  unfolding read_str_loop
  last_round left chunk b' e le r = rw (e, let no : ltb 4096 left ≡ false = ground arith in no, r)

  full_round :
      (chunk : List ℕ) (b' : NetworkBuffer)
      → 4096 < size - read_length
      → read 4096 b ≡ (chunk, b')
      → read_str_loop (suc fuel) size read_length str storage b ≡ (
          if length chunk == 4096
          then read_str_loop fuel size
              ((read_length + 4096) % 2 ^ 32)
              (str ++ c_string (overwrite chunk storage))
              (overwrite chunk storage)
              b'
          else ([], b'))
  unfolding read_str_loop
  full_round chunk b' lt r = rw (lt→ltb 4096 (size - read_length) lt, r)

module _ (fresh : ℕ → List ℕ) (rest : List ℕ) where
  -- The exact result for a string of at most 4096 bytes: what the array holds up to its first 0.
  pub read_str-append :
      (bs : List ℕ)
      → length bs ≤ 4096
      → read_str (length bs) (buffer_of fresh (bs ++ rest))
        ≡ (c_string (overwrite bs (fresh 0)), buffer_of (λ k. fresh (suc k)) rest)
  unfolding read_str
  read_str-append bs h =
      last_round _ _ 0 [] (fresh 0) _ (length bs) bs (buffer_of (λ k. fresh (suc k)) rest)
        (omega arith) h (read-append (λ k. fresh (suc k)) rest bs)
      ∙ rw (==_refl (length bs))

  -- A string of at most 4096 bytes is cut before its first 0, whatever the storage holds.
  pub read_str-cut :
      (xs ys : List ℕ)
      → IsText xs
      → length (xs ++ 0 ∷ ys) ≤ 4096
      → read_str (length (xs ++ 0 ∷ ys)) (buffer_of fresh ((xs ++ 0 ∷ ys) ++ rest))
        ≡ (xs, buffer_of (λ k. fresh (suc k)) rest)
  read_str-cut xs ys t h =
      read_str-append (xs ++ 0 ∷ ys) h
      ∙ ap (λ (s : List ℕ). (s, buffer_of (λ k. fresh (suc k)) rest))
          (ap c_string (append_assoc xs (0 ∷ ys) _) ∙ c_string-cut xs _ t)

  -- A string of at most 4096 bytes, none of them 0, is read back with the bytes that the storage
  -- holds behind it, up to the next 0.
  pub read_str_text :
      (bs : List ℕ)
      → IsText bs
      → length bs ≤ 4096
      → read_str (length bs) (buffer_of fresh (bs ++ rest))
        ≡ (bs ++ c_string (drop (length bs) (fresh 0)), buffer_of (λ k. fresh (suc k)) rest)
  read_str_text bs t h =
      read_str-append bs h
      ∙ ap (λ (s : List ℕ). (s, buffer_of (λ k. fresh (suc k)) rest))
          (c_string-append bs (drop (length bs) (fresh 0)) t)

  -- A string of 4097 to 8192 bytes, none of them 0, is read with its first part a second time at its
  -- end: the array still holds the bytes of the first round behind those of the second.
  pub read_str_two_rounds :
      (bs cs : List ℕ)
      → IsText bs
      → IsText cs
      → length bs ≡ 4096
      → 0 < length cs
      → length cs ≤ 4096
      → read_str (length bs + length cs) (buffer_of fresh (bs ++ (cs ++ rest))) ≡ (
        (bs ++ c_string (drop 4096 (fresh 0))) ++ c_string (overwrite cs (overwrite bs (fresh 0))),
        buffer_of (λ k. fresh (suc k)) rest,
      )
  unfolding read_str
  read_str_two_rounds bs cs tb tc eb pos le =
      full_round (length all) _ 0 [] (fresh 0) _ bs (buffer_of (λ k. fresh (suc k)) (cs ++ rest))
        (omega arith) (rw (← eb) (read-append (λ k. fresh (suc k)) (cs ++ rest) bs))
      ∙ rw (eb, some_fuel)
          (last_round (length all - 1) _ 4096 _ _ _ (length cs) cs
              (buffer_of (λ k. fresh (suc k)) rest) (omega arith) le
              (read-append (λ k. fresh (suc k)) rest cs)
            ∙ rw (==_refl (length cs)) (rw eb at first_part))
    where
      all : List ℕ
      all = bs ++ (cs ++ rest)

      again : List ℕ
      again = c_string (overwrite cs (overwrite bs (fresh 0)))

      first_part :
          ◌≡◌ {A = List ℕ × NetworkBuffer}
            (c_string (overwrite bs (fresh 0)) ++ again, buffer_of (λ k. fresh (suc k)) rest)
            (
              (bs ++ c_string (drop (length bs) (fresh 0))) ++ again,
              buffer_of (λ k. fresh (suc k)) rest,
            )
      first_part =
          ap (λ (s : List ℕ). (s ++ again, buffer_of (λ k. fresh (suc k)) rest))
            (c_string-append bs (drop (length bs) (fresh 0)) tb)

      some_fuel : length all ≡ suc (length all - 1)
      some_fuel = omega (arith, length-append bs (cs ++ rest))

-- Reading moves towards the end of the bytes.
pub read-shrinks :
    (n : ℕ) (b : NetworkBuffer)
    → length (read n b).0 ≡ n
    → length (read n b).1.rest + n ≡ length b.rest
unfolding read
read-shrinks n b e = ground (arith, length-drop n b.rest)

-- The loop of readStr ends: any two numbers of rounds above the number of bytes left give the same
-- result, so neither runs out.
pub read_str_loop-fuel :
    (f g size read_length : ℕ) (str storage : List ℕ) (b : NetworkBuffer)
    → length b.rest < f
    → length b.rest < g
    → read_str_loop f size read_length str storage b
      ≡ read_str_loop g size read_length str storage b
read_str_loop-fuel zero g size read_length str storage b hf hg = absurd (omega arith)
read_str_loop-fuel (suc f) zero size read_length str storage b hf hg = absurd (omega arith)
read_str_loop-fuel (suc f) (suc g) size read_length str storage b hf hg =
    elim (Bool-cases (ltb 4096 (size - read_length))) [
      | inl more ↦
          let lt : 4096 < size - read_length = ltb→lt 4096 (size - read_length) more in
          full_round f size read_length str storage b _ _ lt refl
          ∙ if-then_eq (length chunk == 4096) _ _ _ (λ full.
            let left : length b'.rest + 4096 ≡ length b.rest =
              read-shrinks 4096 b ((==_iff (length chunk) 4096).0 full) in
            read_str_loop-fuel f g size ((read_length + 4096) % 2 ^ 32)
              (str ++ c_string (overwrite chunk storage)) (overwrite chunk storage) b' (omega arith)
              (omega arith))
          ∙ sym (full_round g size read_length str storage b _ _ lt refl)
      | inr done ↦
          let le : size - read_length ≤ 4096 = ground arith in
          last_round f size read_length str storage b _ _ _ refl le refl
          ∙ sym (last_round g size read_length str storage b _ _ _ refl le refl)
    ]
  where
    chunk : List ℕ
    chunk = (read 4096 b).0

    b' : NetworkBuffer
    b' = (read 4096 b).1

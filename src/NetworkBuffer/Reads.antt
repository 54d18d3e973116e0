-- ===== src/NetworkBuffer/Reads.antt =====
-- The reads of src/networkbuffer.cpp on a buffer that starts with the bytes wanted.
use ensicoin_cpp.Prelude.{
  ℕ, zero, suc, ◌+◌, ◌-◌, ◌*◌, ◌^◌, ◌≤◌, ◌<◌, bit_or, ◌≡◌, refl, ap, ◌∙◌, le→leb, true, false, List,
  [], ◌∷◌, ◌++◌, length, All, length-append, take-append, drop-append, shifted-bit_or, pow_suc,
  some, IsByte, be_value, arith,
}
use ensicoin_cpp.NetworkBuffer.{
  buffer_of, read, read_uint16, read_uint32, read_uint64, or_bytes, read_char, next_char,
  skip_spaces, is_space,
}
use native.Mathlib.Nat.{mul-le-mul_right}
use native.Mathlib.Numerals.{towards_suc}

-- The bytes of read_uint32, or-ed into place.
or_four :
    (b₀ b₁ b₂ b₃ : ℕ)
    → b₁ < 256
    → b₂ < 256
    → b₃ < 256
    → bit_or (bit_or (bit_or (b₀ * 2 ^ 24) (b₁ * 2 ^ 16)) (b₂ * 2 ^ 8)) b₃
      ≡ be_value 0 (b₀ ∷ b₁ ∷ b₂ ∷ b₃ ∷ [])
or_four b₀ b₁ b₂ b₃ h₁ h₂ h₃ =
    ap (λ (v : ℕ). bit_or (bit_or v (b₂ * 2 ^ 8)) b₃)
      (shifted-bit_or 24 b₀ (b₁ * 2 ^ 16) (omega arith)
        ∙ let e : b₀ * 2 ^ 24 + b₁ * 2 ^ 16 ≡ (b₀ * 256 + b₁) * 2 ^ 16 = omega arith in e)
    ∙ ap (λ (v : ℕ). bit_or v b₃)
        (shifted-bit_or 16 (b₀ * 256 + b₁) (b₂ * 2 ^ 8) (omega arith)
          ∙ let e : (b₀ * 256 + b₁) * 2 ^ 16 + b₂ * 2 ^ 8 ≡ ((b₀ * 256 + b₁) * 256 + b₂) * 2 ^ 8 =
              omega arith in
            e)
    ∙ shifted-bit_or 8 ((b₀ * 256 + b₁) * 256 + b₂) b₃ (omega arith)
    ∙ omega arith

pow_byte : (m : ℕ) → 2 ^ (8 * suc m) ≡ 256 * 2 ^ (8 * m)
pow_byte m = rw (let e : 8 * suc m ≡ 8 * m + 8 = omega arith in e) (simp towards_suc (omega arith))

pow_pos : (k : ℕ) → 0 < 2 ^ k
pow_pos zero = omega arith
pow_pos (suc k) = omega (arith, pow_suc k, pow_pos k)

shift_byte : (x b m : ℕ) → x * 2 ^ (8 * suc m) + b * 2 ^ (8 * m) ≡ (x * 256 + b) * 2 ^ (8 * m)
shift_byte x b m = omega (arith, ap (λ (t : ℕ). x * t) (pow_byte m))

-- The loop of read_uint64 from the i-th byte on, where the bytes before have the value x.
or_bytes-be_value :
    (bs : List ℕ) (i x : ℕ)
    → i + length bs ≡ 8
    → All IsByte bs
    → or_bytes i (x * 2 ^ (8 * length bs)) bs ≡ be_value x bs
unfolding or_bytes
or_bytes-be_value [] i x e h = omega arith
or_bytes-be_value (b ∷ bs) i x e h =
    ap (λ (k : ℕ). or_bytes (i + 1) (bit_or (x * 2 ^ (8 * suc (length bs))) (b * 2 ^ (8 * k))) bs)
      (let left : 7 - i ≡ length bs = omega arith in left)
    ∙ ap (λ (v : ℕ). or_bytes (i + 1) v bs)
        (shifted-bit_or (8 * suc (length bs)) x (b * 2 ^ (8 * length bs)) fits
          ∙ shift_byte x b (length bs))
    ∙ or_bytes-be_value bs (i + 1) (x * 256 + b) (omega arith) h.1
  where
    fits : b * 2 ^ (8 * length bs) < 2 ^ (8 * suc (length bs))
    fits = omega (
      arith,
      pow_byte (length bs),
      mul-le-mul_right (2 ^ (8 * length bs)) (let le : suc b ≤ 256 = h.0 in le),
      pow_pos (8 * length bs),
    )

skip_spaces-space :
    (c : ℕ) (cs : List ℕ) → is_space c ≡ true → skip_spaces (c ∷ cs) ≡ skip_spaces cs
unfolding skip_spaces
skip_spaces-space c cs h = rw h

module _ (fresh : ℕ → List ℕ) (rest : List ℕ) where
  pub read-append :
      (bs : List ℕ) → read (length bs) (buffer_of fresh (bs ++ rest)) ≡ (bs, buffer_of fresh rest)
  unfolding read
  read-append bs = rw (
    le→leb (length bs) (length (bs ++ rest)) (omega (arith, length-append bs rest)),
    take-append bs rest,
    drop-append bs rest,
  )

  pub read_uint16-append :
      (bs : List ℕ)
      → length bs ≡ 2
      → All IsByte bs
      → read_uint16 (buffer_of fresh (bs ++ rest)) ≡ (be_value 0 bs, buffer_of fresh rest)
  unfolding read_uint16
  read_uint16-append [] e h = absurd (omega arith)
  read_uint16-append (b ∷ []) e h = absurd (omega arith)
  read_uint16-append (b₀ ∷ b₁ ∷ []) e h = rw (read-append (b₀ ∷ b₁ ∷ [])) (
      ap (λ (v : ℕ). (v, buffer_of fresh rest))
        (shifted-bit_or 8 b₀ b₁ (omega arith) ∙ omega arith))
  read_uint16-append (b₀ ∷ b₁ ∷ b₂ ∷ bs) e h = absurd (omega arith)

  pub read_uint32-append :
      (bs : List ℕ)
      → length bs ≡ 4
      → All IsByte bs
      → read_uint32 (buffer_of fresh (bs ++ rest)) ≡ (be_value 0 bs, buffer_of fresh rest)
  unfolding read_uint32
  read_uint32-append [] e h = absurd (omega arith)
  read_uint32-append (b₀ ∷ []) e h = absurd (omega arith)
  read_uint32-append (b₀ ∷ b₁ ∷ []) e h = absurd (omega arith)
  read_uint32-append (b₀ ∷ b₁ ∷ b₂ ∷ []) e h = absurd (omega arith)
  read_uint32-append (b₀ ∷ b₁ ∷ b₂ ∷ b₃ ∷ []) e h =
      rw (read-append (b₀ ∷ b₁ ∷ b₂ ∷ b₃ ∷ []))
        (ap (λ (v : ℕ). (v, buffer_of fresh rest)) (or_four b₀ b₁ b₂ b₃ h.1.0 h.1.1.0 h.1.1.1.0))
  read_uint32-append (b₀ ∷ b₁ ∷ b₂ ∷ b₃ ∷ b₄ ∷ bs) e h = absurd (omega arith)

  pub read_uint64-append :
      (bs : List ℕ)
      → length bs ≡ 8
      → All IsByte bs
      → read_uint64 (buffer_of fresh (bs ++ rest)) ≡ (be_value 0 bs, buffer_of fresh rest)
  unfolding read_uint64
  read_uint64-append bs e h =
      rw (read_eight, e)
        (ap (λ (v : ℕ). (v, buffer_of fresh rest))
          (rw zero_shift at (or_bytes-be_value bs 0 0 (omega (arith, e)) h)))
    where
      zero_shift : 0 * 2 ^ (8 * length bs) ≡ 0
      zero_shift = omega arith

      read_eight : read 8 (buffer_of fresh (bs ++ rest)) ≡ (bs, buffer_of fresh rest)
      read_eight = rw (← e) (read-append bs)

  pub read_char-cons :
      (c : ℕ)
      → is_space c ≡ false
      → read_char (buffer_of fresh (c ∷ rest)) ≡ (some c, buffer_of fresh rest)
  unfolding read_char skip_spaces
  read_char-cons c h = ground arith

  pub read_char-space :
      (c : ℕ)
      → is_space c ≡ true
      → read_char (buffer_of fresh (c ∷ rest)) ≡ read_char (buffer_of fresh rest)
  unfolding read_char
  read_char-space c h = skip (skip_spaces rest) (skip_spaces-space c rest h)
    where
      skip :
          (cs : List ℕ)
          → skip_spaces (c ∷ rest) ≡ cs
          → next_char (skip_spaces (c ∷ rest)) (buffer_of fresh (c ∷ rest))
            ≡ next_char cs (buffer_of fresh rest)
      skip [] e = rw e refl
      skip (d ∷ ds) e = rw e refl

-- ===== src/Networkable/Strings.antt =====
-- Round trips of Var_str, FixedStr and Var_Array.
use ensicoin_cpp.Prelude.{
  map, ℕ, zero, suc, ◌^◌, ◌≤◌, ◌<◌, ◌≡◌, refl, ap, ◌∙◌, false, List, [], ◌∷◌, ◌++◌, length,
  append_assoc, append-nil, drop, drop-nil, All, arith,
}
use ensicoin_cpp.NetworkBuffer.{
  NetworkBuffer, Reader, buffer_of, read_var_uint, read_str, is_space, c_string, new_storage,
}
use ensicoin_cpp.NetworkBuffer.Strings.{IsText, read_str_text}
use ensicoin_cpp.Networkable.{
  HexDecoder, fixed_str, fixed_str_from_buffer, var_uint_byte_repr, var_str_byte_repr,
  var_str_from_buffer, elements_byte_repr, read_elements, var_array_byte_repr,
  var_array_from_buffer,
}
use ensicoin_cpp.Networkable.Integers.{read_var_uint-byte_repr}

-- Storage that holds nothing but 0.
abbrev pub zeroed : ℕ → List ℕ
zeroed k = []

-- What `element` writes for x, `reader` reads back on zeroed storage, and leaves what follows.
abbrev pub RoundTrips : {A : Type 0} → Reader A → (A → List ℕ) → A → Type 0
RoundTrips reader element x =
    (rest : List ℕ) → reader (buffer_of zeroed (element x ++ rest)) ≡ (x, buffer_of zeroed rest)

-- What `element` writes for x, `reader` reads as f x.
abbrev pub ReadsAs : {A : Type 0} → Reader A → (A → List ℕ) → (A → A) → A → Type 0
ReadsAs reader element f x =
    (rest : List ℕ) → reader (buffer_of zeroed (element x ++ rest)) ≡ (f x, buffer_of zeroed rest)

pub read_str-zeroed :
    (s rest : List ℕ)
    → IsText s
    → length s ≤ 4096
    → read_str (length s) (buffer_of zeroed (s ++ rest)) ≡ (s, buffer_of zeroed rest)
unfolding c_string
read_str-zeroed s rest t h =
    read_str_text zeroed rest s t h ∙ ap (λ (x : List ℕ). (x, buffer_of zeroed rest)) nothing_behind
  where
    nothing_behind : s ++ c_string (drop (length s) []) ≡ s
    nothing_behind = rw (drop-nil (length s)) (append-nil s)

pub fixed_str_exact : (s ys : List ℕ) → fixed_str (length s) (s ++ ys) ≡ s
unfolding fixed_str
fixed_str_exact [] ys = refl
fixed_str_exact (c ∷ cs) ys = ap (◌∷◌ c) (fixed_str_exact cs ys)

-- An array of as many bytes as the string, none of which is 0, is read back on zeroed storage.
pub fixed_str_from_buffer-text :
    (s rest : List ℕ)
    → IsText s
    → length s ≤ 4096
    → fixed_str_from_buffer (length s) (buffer_of zeroed (s ++ rest)) ≡ (s, buffer_of zeroed rest)
unfolding fixed_str_from_buffer new_storage
fixed_str_from_buffer-text s rest t h =
    rw (read_str-zeroed s rest t h)
      (ap (λ (x : List ℕ). (x, buffer_of zeroed rest)) (fixed_str_exact s (drop (length s) [])))

module _ (hex : HexDecoder) where
  -- A Var_str of at most 4096 bytes, none of them 0, whose length is no code of white space is read
  -- back, and what follows it is left; the storage is zeroed.
  pub var_str-RoundTrips :
      (s : List ℕ)
      → IsText s
      → length s ≤ 4096
      → is_space (length s) ≡ false
      → RoundTrips var_str_from_buffer (var_str_byte_repr hex) s
  unfolding var_str_from_buffer var_str_byte_repr
  var_str-RoundTrips s t h n rest =
      rw
        (
          append_assoc (var_uint_byte_repr hex (length s)) s rest,
          read_var_uint-byte_repr hex zeroed (s ++ rest) (length s) (omega arith) n,
        )
        (read_str-zeroed s rest t h)

  module _ {A : Type 0} (reader : Reader A) (element : A → List ℕ) where
    read_elements-append :
        (f : A → A) (xs : List A) (rest : List ℕ)
        → All (ReadsAs reader element f) xs
        → read_elements reader
            (length xs)
            (buffer_of zeroed (elements_byte_repr hex element xs ++ rest))
          ≡ (map f xs, buffer_of zeroed rest)
    unfolding read_elements elements_byte_repr
    read_elements-append f [] rest h = refl
    read_elements-append f (x ∷ xs) rest h = rw (
      append_assoc (element x) (elements_byte_repr hex element xs) rest,
      h.0 (elements_byte_repr hex element xs ++ rest),
      read_elements-append f xs rest h.1,
    )

    -- An array whose elements are read as others is read as the array of these.
    pub var_array-ReadsAs :
        (f : A → A) (xs : List A)
        → All (ReadsAs reader element f) xs
        → length xs < 2 ^ 64
        → is_space (length xs) ≡ false
        → ReadsAs (var_array_from_buffer reader) (var_array_byte_repr hex element) (map f) xs
    unfolding var_array_from_buffer var_array_byte_repr
    var_array-ReadsAs f xs h n sp rest =
        rw
          (
            append_assoc (var_uint_byte_repr hex (length xs)) (elements_byte_repr hex element xs)
                rest,
            read_var_uint-byte_repr hex zeroed (elements_byte_repr hex element xs ++ rest)
                (length xs) n sp,
          )
          (read_elements-append f xs rest h)

    -- A Var_Array is read back, and what follows it is left, if every element is and their number is
    -- below 2 ^ 64 and no code of white space; the storage is zeroed.
    pub var_array-RoundTrips :
        (xs : List A)
        → All (RoundTrips reader element) xs
        → length xs < 2 ^ 64
        → is_space (length xs) ≡ false
        → RoundTrips (var_array_from_buffer reader) (var_array_byte_repr hex element) xs
    var_array-RoundTrips xs h n sp rest =
        var_array-ReadsAs (λ x. x) xs h n sp rest
        ∙ ap (λ (ys : List A). (ys, buffer_of zeroed rest)) (map-same xs)
      where
        map-same : (ys : List A) → map (λ x. x) ys ≡ ys
        map-same [] = refl
        map-same (y ∷ ys) = ap (◌∷◌ y) (map-same ys)

length-read_elements :
    {A : Type 0} (reader : Reader A) (n : ℕ) (b : NetworkBuffer)
    → length (read_elements reader n b).0 ≡ n
unfolding read_elements
length-read_elements reader zero b = refl
length-read_elements reader (suc n) b = ap suc (length-read_elements reader n (reader b).1)

-- A Var_Array has as many elements as its first bytes say, however few bytes the buffer holds.
pub length-var_array :
    {A : Type 0} (reader : Reader A) (b : NetworkBuffer)
    → length (var_array_from_buffer reader b).0 ≡ (read_var_uint b).0
unfolding var_array_from_buffer
length-var_array reader b = length-read_elements reader (read_var_uint b).0 (read_var_uint b).1

-- ===== src/Util.antt =====
-- include/util.hpp and src/util.cpp: bytes printed to look at them.
use ensicoin_cpp.Networkable.{print_hex, pad_left}
use ensicoin_cpp.Prelude.{ℕ, Bool, true, List, [], ◌∷◌, ◌++◌}

pub record HexCharStruct : Type 0 where
  pub c : ℕ

-- A stream: what has been written to it, whether std::hex has been set on it, and its fill character.
pub record Ostream : Type 0 where
  pub text : List ℕ
  pub is_hex : Bool
  pub fill : ℕ

unfoldable pub hex : ℕ → HexCharStruct
hex c = record { c = c }

-- `operator<<`. The width is the only setting that does not stay.
unfoldable pub insert_hex : Ostream → HexCharStruct → Ostream
insert_hex o hs = record {
  text = o.text ++ pad_left 2 (print_hex 16 hs.c);
  is_hex = true;
  fill = 48;
}

-- The loop of printBinaryString; 124 is '|'.
unfoldable pub print_bytes : List ℕ → Ostream → Ostream
unfolding insert_hex hex
print_bytes [] cerr = cerr
print_bytes (c ∷ bs) cerr =
    let shown = insert_hex cerr (hex c) in
    print_bytes bs (record shown { text = shown.text ++ 124 ∷ [] })

-- The bytes go to std::cerr and the newline to std::cout.
unfoldable pub print_binary_string : List ℕ → Ostream → Ostream → Ostream × Ostream
unfolding print_bytes
print_binary_string bs cerr cout =
    (print_bytes bs cerr, record cout { text = cout.text ++ 10 ∷ [] })

-- ===== src/Logger.antt =====
-- include/logger.hpp: what the program prints of what it does.
pub mod Lines
use ensicoin_cpp.Prelude.{ℕ, leb, if◌then◌else◌, Bool, true, false, List, [], ◌∷◌, ◌++◌, codes}

-- `log_level`, and the numbers of its enumerators.
pub data LogLevel : Type 0 where
  trace_level info_level warn_level error_level fatal_level : LogLevel

abbrev pub level_number : LogLevel → ℕ
level_number trace_level = 0
level_number info_level = 1
level_number warn_level = 2
level_number error_level = 3
level_number fatal_level = 4

-- `cout` is the text that the logger has written to std::cout.
pub record Logger : Type 0 where
  pub level : LogLevel
  pub cout : List ℕ

-- The constructor.
unfoldable pub create : LogLevel → Logger
create initial_level = record { level = initial_level; cout = [] }

unfoldable pub set_level : LogLevel → Logger → Logger
set_level new_level logger = record logger { level = new_level }

-- An argument is the text that `os << argument` writes.
unfoldable pub generate : List (List ℕ) → List ℕ → List ℕ
generate [] os = os
generate (first_arg ∷ args) os = generate args (os ++ first_arg)

-- "\x1B[1m\x1B[37mTRACE\x1B[0m" with the given colour and name.
abbrev pub level_repr : List ℕ → List ℕ
level_repr name = 27 ∷ codes "[1m" ++ 27 ∷ codes "[" ++ name ++ 27 ∷ codes "[0m"

-- `mbstr` is the date and the time, as std::strftime writes them.
unfoldable pub prefix : List ℕ → List ℕ → List (List ℕ) → Logger → Logger
unfolding generate
prefix mbstr repr args logger = record logger {
  cout = generate args (logger.cout ++ mbstr ++ codes " [" ++ repr ++ codes "] ") ++ 10 ∷ [];
}

module _ (mbstr : List ℕ) where
  unfoldable pub trace : List (List ℕ) → Logger → Logger
  unfolding prefix
  trace args logger =
      if leb (level_number logger.level) (level_number trace_level)
      then prefix mbstr (level_repr (codes "37mTRACE")) args logger
      else logger

  unfoldable pub info : List (List ℕ) → Logger → Logger
  unfolding prefix
  info args logger =
      if leb (level_number logger.level) (level_number info_level)
      then prefix mbstr (level_repr (codes "92mINFO")) args logger
      else logger

  unfoldable pub warn : List (List ℕ) → Logger → Logger
  unfolding prefix
  warn args logger =
      if leb (level_number logger.level) (level_number warn_level)
      then prefix mbstr (level_repr (codes "33mWARN")) args logger
      else logger

  unfoldable pub error : List (List ℕ) → Logger → Logger
  unfolding prefix
  error args logger =
      if leb (level_number logger.level) (level_number error_level)
      then prefix mbstr (level_repr (codes "31mERROR")) args logger
      else logger

  unfoldable pub fatal : List (List ℕ) → Logger → Logger
  unfolding prefix
  fatal args logger = prefix mbstr (level_repr (codes "91mFATAL")) args logger

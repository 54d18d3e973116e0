-- ===== src/Logger/Lines.antt =====
-- The lines that the loggers of include/logger.hpp print.
use ensicoin_cpp.Logger.{
  Logger, LogLevel, trace_level, info_level, warn_level, error_level, fatal_level, level_number,
  set_level, generate, prefix, level_repr, trace, info, warn, error, fatal,
}
use ensicoin_cpp.Prelude.{
  ℕ, ◌≡◌, refl, sym, ap, ◌∙◌, leb, if◌then◌else◌, Bool-cases, inl, inr, true, List, [], ◌∷◌, ◌++◌,
  append-nil, append_assoc, codes,
}

-- A call of `set_level` or of one of the five functions that print.
pub data Call : Type 0 where
  sets : LogLevel → Call
  logs : LogLevel → (mbstr : List ℕ) → (args : List (List ℕ)) → Call

unfoldable pub call : Call → Logger → Logger
call (sets l) logger = set_level l logger
call (logs trace_level mbstr args) logger = trace mbstr args logger
call (logs info_level mbstr args) logger = info mbstr args logger
call (logs warn_level mbstr args) logger = warn mbstr args logger
call (logs error_level mbstr args) logger = error mbstr args logger
call (logs fatal_level mbstr args) logger = fatal mbstr args logger

unfoldable pub call_all : List Call → Logger → Logger
call_all [] logger = logger
call_all (c ∷ cs) logger = call_all cs (call c logger)

-- What a call prints that is at least of the logger's level.
abbrev repr_of : LogLevel → List ℕ
repr_of trace_level = level_repr (codes "37mTRACE")
repr_of info_level = level_repr (codes "92mINFO")
repr_of warn_level = level_repr (codes "33mWARN")
repr_of error_level = level_repr (codes "31mERROR")
repr_of fatal_level = level_repr (codes "91mFATAL")

unfoldable pub joined : List (List ℕ) → List ℕ
joined [] = []
joined (arg ∷ args) = arg ++ joined args

unfoldable pub line : LogLevel → List ℕ → List (List ℕ) → List ℕ
line l mbstr args = mbstr ++ codes " [" ++ repr_of l ++ codes "] " ++ joined args ++ 10 ∷ []

-- The lines that a logger of the level prints.
unfoldable pub lines : LogLevel → List Call → List ℕ
lines level [] = []
lines level (sets l ∷ cs) = lines l cs
lines level (logs l mbstr args ∷ cs) =
    let rest = lines level cs in
    if leb (level_number level) (level_number l) then line l mbstr args ++ rest else rest

generate-joined : (args : List (List ℕ)) (os : List ℕ) → generate args os ≡ os ++ joined args
unfolding generate joined
generate-joined [] os = sym (append-nil os)
generate-joined (arg ∷ args) os =
    generate-joined args (os ++ arg) ∙ append_assoc os arg (joined args)

prefix-line :
    (l : LogLevel) (mbstr : List ℕ) (args : List (List ℕ)) (logger : Logger)
    → prefix mbstr (repr_of l) args logger
      ≡ record logger { cout = logger.cout ++ line l mbstr args }
unfolding prefix line
prefix-line l mbstr args logger =
    ap (λ text. record logger { cout = text }) (simp (generate-joined, append_assoc))

at_most_fatal : (l : LogLevel) → leb (level_number l) (level_number fatal_level) ≡ true
at_most_fatal trace_level = refl
at_most_fatal info_level = refl
at_most_fatal warn_level = refl
at_most_fatal error_level = refl
at_most_fatal fatal_level = refl

-- `fatal` prints, whatever the level.
pub fatal-cout :
    (mbstr : List ℕ) (args : List (List ℕ)) (logger : Logger)
    → (fatal mbstr args logger).cout ≡ logger.cout ++ line fatal_level mbstr args
unfolding fatal
fatal-cout mbstr args logger =
    ap (λ (l : Logger). l.cout) (prefix-line fatal_level mbstr args logger)

call-line :
    (l : LogLevel) (mbstr : List ℕ) (args : List (List ℕ)) (logger : Logger)
    → call (logs l mbstr args) logger ≡ (
        if leb (level_number logger.level) (level_number l)
        then record logger { cout = logger.cout ++ line l mbstr args }
        else logger)
unfolding call trace info warn error fatal
call-line trace_level mbstr args logger = rw (prefix-line trace_level mbstr args logger) refl
call-line info_level mbstr args logger = rw (prefix-line info_level mbstr args logger) refl
call-line warn_level mbstr args logger = rw (prefix-line warn_level mbstr args logger) refl
call-line error_level mbstr args logger = rw (prefix-line error_level mbstr args logger) refl
call-line fatal_level mbstr args logger =
    rw (at_most_fatal logger.level) (prefix-line fatal_level mbstr args logger)

-- Whatever calls are made of a logger, what it prints is, behind what it had printed, one line for
-- each call of a function whose level is at least the logger's, by then, in the order of the calls:
-- the date, the level in brackets, the arguments behind each other, and a newline.
pub call_all-lines :
    (cs : List Call) (logger : Logger)
    → (call_all cs logger).cout ≡ logger.cout ++ lines logger.level cs
unfolding call_all lines call set_level
call_all-lines [] logger = sym (append-nil logger.cout)
call_all-lines (sets l ∷ cs) logger = call_all-lines cs (record logger { level = l })
call_all-lines (logs l mbstr args ∷ cs) logger =
    elim (Bool-cases (leb (level_number logger.level) (level_number l))) [
      | inl prints ↦
          let printed = record logger { cout = logger.cout ++ line l mbstr args } in
          rw prints (
            ap (λ d. (call_all cs d).cout) (call-line l mbstr args logger ∙ rw prints refl)
            ∙ call_all-lines cs printed
            ∙ append_assoc logger.cout (line l mbstr args) (lines logger.level cs))
      | inr silent ↦ rw silent (
          ap (λ d. (call_all cs d).cout) (call-line l mbstr args logger ∙ rw silent refl)
          ∙ call_all-lines cs logger)
    ]

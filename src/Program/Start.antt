-- ===== src/Program/Start.antt =====
-- How the program of src/main.cpp starts or ends.
use ensicoin_cpp.Constants.{data_path, blockchain_db}
use ensicoin_cpp.Logger.{Logger, trace_level, fatal_level, create, fatal}
use ensicoin_cpp.Logger.Lines.{line, fatal-cout}
use ensicoin_cpp.Prelude.{
  ℕ, ◌≡◌, ◌⊎◌, refl, ap, Bool-cases, inl, inr, true, false, Option, none, some, List, [], ◌∷◌,
  codes, arith,
}
use ensicoin_cpp.Program.{FileSystem, failed, reason, main}

module _ (fs : FileSystem) where
  -- `mkdir` made the directory, or found something at its path.
  abbrev pub IsMade : Option ℕ → Type 0
  IsMade status = (status ≡ none) ⊎ (status ≡ some fs.eexist)

  failed-IsMade : (status : Option ℕ) → failed fs status ≡ false → IsMade status
  unfolding failed
  failed-IsMade none fine = inl refl
  failed-IsMade (some errno) fine =
      let same : errno ≡ fs.eexist = ground (arith, fine) in inr (ap some same)

  failed-ne-IsMade : (status : Option ℕ) → failed fs status ≡ true → ¬ IsMade status
  unfolding failed
  failed-ne-IsMade status bad (inl made) = absurd (ground (arith, made, bad))
  failed-ne-IsMade status bad (inr found) = absurd (ground (arith, found, bad))

  mkdir-exists :
      (path : List ℕ) (s : fs.State)
      → IsMade (fs.mkdir path s).0
      → fs.exists path (fs.mkdir path s).1 ≡ true
  mkdir-exists path s (inl made) = fs.mkdir_made path s made
  mkdir-exists path s (inr found) = fs.mkdir_found path s found

  pub main_cases :
      (home mbstr : List ℕ) (run_node : Logger → fs.State → Logger × fs.State) (s : fs.State)
      → ((IsMade (fs.mkdir (data_path home) s).0
            × IsMade (fs.mkdir (blockchain_db home) (fs.mkdir (data_path home) s).1).0)
          × (s' : fs.State) × (main fs home mbstr run_node s
              ≡ (0, run_node (create trace_level) s'))
          × (fs.exists (data_path home) s' ≡ true)
          × (fs.exists (blockchain_db home) s' ≡ true))
        ⊎ ((¬ (
              IsMade (fs.mkdir (data_path home) s).0
              × IsMade (fs.mkdir (blockchain_db home) (fs.mkdir (data_path home) s).1).0))
            × (s' : fs.State) × (logger : Logger) × (args : List (List ℕ)) × (main fs home mbstr
                  run_node s
                ≡ (1, (logger, s')))
            × (logger.cout ≡ line fatal_level mbstr args))
  unfolding main create line
  main_cases home mbstr run_node s =
      let made = fs.mkdir (data_path home) s in
      let made_chain = fs.mkdir (blockchain_db home) made.1 in
      let args : List (List ℕ) =
        codes "Error when creating main directory : " ∷ reason fs made.0 ∷ [] in
      let args_chain : List (List ℕ) =
        codes "Error when creating blockchain directory : " ∷ reason fs made_chain.0 ∷ [] in
      elim (Bool-cases (failed fs made.0)) [
        | inl bad ↦ inr (
          (λ both. failed-ne-IsMade made.0 bad both.0),
          made.1,
          fatal mbstr args (create trace_level),
          args,
          rw bad refl,
          fatal-cout mbstr args (create trace_level),
        )
        | inr fine ↦ elim (Bool-cases (failed fs made_chain.0)) [
          | inl bad ↦ inr (
            (λ both. failed-ne-IsMade made_chain.0 bad both.1),
            made_chain.1,
            fatal mbstr args_chain (create trace_level),
            args_chain,
            rw (fine, bad) refl,
            fatal-cout mbstr args_chain (create trace_level),
          )
          | inr too ↦
              let first : IsMade made.0 = failed-IsMade made.0 fine in
              let second : IsMade made_chain.0 = failed-IsMade made_chain.0 too in
              inl (
                (first, second),
                made_chain.1,
                rw (fine, too) refl,
                fs.mkdir_keeps (blockchain_db home) (data_path home) made.1
                    (mkdir-exists (data_path home) s first),
                mkdir-exists (blockchain_db home) made.1 second,
              )
        ]
      ]

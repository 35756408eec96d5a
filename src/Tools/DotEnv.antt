-- ===== src/Tools/DotEnv.antt =====
-- internal/testsupport/env.go: the nearest `.env` at or above a directory, and the trimming of the
-- variables.
use mentor_ia_worker.Prelude.{
  ℕ, zero, suc, ◌≡◌, ◌≢◌, ◌<◌, refl, sym, subst, Bool, true, false, Option, none, some, List, [],
  ◌∷◌, ◌++◌, arith, length, ◌==◌, if◌then◌else◌, eq_bytes,
}
use mentor_ia_worker.Text.{Bytes, bytes, trim_space}
use mentor_ia_worker.Domain.Errors.{Result, ok, err, wrap}

-- A list of `KEY=value`, as os.Environ returns it.
abbrev pub Variables : Type 0
Variables = List Bytes

-- os.Stat without an error, filepath.Join, filepath.Dir, and what godotenv.Load makes of the variables.
pub record Files : Type 0 where
  pub exists : Bytes → Bool
  pub join : Bytes → Bytes → Bytes
  pub dir : Bytes → Bytes
  pub load : Bytes → Variables → Result Variables

-- strings.Cut(env, "=")
pub cut : Bytes → Option (Bytes × Bytes)
cut [] = none
cut (x ∷ xs) =
    let rest = cut xs in
    if x == 61 then some ([], xs) else elim rest [ none ↦ none | some (k, v) ↦ some (x ∷ k, v) ]

abbrev names : Bytes → Option (Bytes × Bytes) → Bool
names key none = false
names key (some (k, v)) = eq_bytes k key

-- os.Setenv
pub set_env : Bytes → Bytes → Variables → Variables
unfolding cut
set_env key value [] = (key ++ 61 ∷ value) ∷ []
set_env key value (x ∷ xs) =
    let rest = set_env key value xs in
    if names key (cut x) then (key ++ 61 ∷ value) ∷ xs else x ∷ rest

-- The loop over the variables that os.Environ has returned.
trim_all : List Bytes → Variables → Variables
unfolding set_env
trim_all [] now = now
trim_all (x ∷ xs) now = elim (cut x) [
  | none ↦ trim_all xs now
  | some (key, value) ↦ trim_all xs (set_env key (trim_space value) now)
]

pub trim_env_values : Variables → Variables
unfolding trim_all
trim_env_values variables = trim_all variables variables

pub data Search : Type 0 where
  found : Bytes → Search
  no_file out_of_fuel : Search

abbrev pub env_path : Files → Bytes → Bytes
env_path files current_dir = files.join current_dir (bytes ".env")

-- The `for` loop.
pub search_env : Files → ℕ → Bytes → Search
search_env files zero current_dir = out_of_fuel
search_env files (suc fuel) current_dir =
    let above = search_env files fuel (files.dir current_dir) in
    if files.exists (env_path files current_dir)
    then found (env_path files current_dir)
    else if eq_bytes (files.dir current_dir) current_dir
    then no_file
    else above

-- What follows the search; `none` if the fuel has run out.
load_found : Files → Variables → Search → Option (Result Variables)
unfolding trim_env_values
load_found files variables (found path) = some (elim (files.load path variables) [
  | ok loaded ↦ ok (trim_env_values loaded)
  | err e ↦ err (wrap "failed to load .env: " e)
])
load_found files variables no_file = some (ok variables)
load_found files variables out_of_fuel = none

-- LoadDotEnv, with what os.Getwd returned; t.Fatalf is an error. A directory has no more
-- directories above it than its path has bytes.
pub load_dot_env : Files → Result Bytes → Variables → Option (Result Variables)
unfolding load_found search_env
load_dot_env files (err e) variables = some (err (wrap "failed to get working directory: " e))
load_dot_env files (ok current_dir) variables =
    load_found files variables (search_env files (suc (length current_dir)) current_dir)

-- The nearest `.env`, by the directories above.
pub data IsNearest (files : Files) : Bytes → Search → Type 0 where
  here :
      (d : Bytes)
      → files.exists (env_path files d) ≡ true
      → IsNearest files d (found (env_path files d))
  above :
      (d : Bytes) (s : Search)
      → files.exists (env_path files d) ≡ false
      → files.dir d ≢ d
      → IsNearest files (files.dir d) s
      → IsNearest files d s
  at_root :
      (d : Bytes)
      → files.exists (env_path files d) ≡ false
      → files.dir d ≡ d
      → IsNearest files d no_file

eq_bytes-same : (xs ys : Bytes) → eq_bytes xs ys ≡ true → xs ≡ ys
eq_bytes-same [] [] h = refl
eq_bytes-same [] (y ∷ ys) h = cc
eq_bytes-same (x ∷ xs) [] h = cc
eq_bytes-same (x ∷ xs) (y ∷ ys) h = ground (arith, h, eq_bytes-same xs ys)

eq_bytes_refl : (xs : Bytes) → eq_bytes xs xs ≡ true
eq_bytes_refl [] = refl
eq_bytes_refl (x ∷ xs) = ground (arith, eq_bytes_refl xs)

-- A path that begins with a slash, as that of os.Getwd does.
abbrev pub IsAbsolute : Bytes → Type 0
IsAbsolute d = (rest : Bytes) × (d ≡ 47 ∷ rest)

-- filepath.Dir of an absolute path: the root is its own, and the others are below a shorter one.
pub record Rises (files : Files) : Type 0 where
  pub absolute : (d : Bytes) → IsAbsolute d → IsAbsolute (files.dir d)
  pub shorter : (d : Bytes) → IsAbsolute d → files.dir d ≢ d → length (files.dir d) < length d

module _ (files : Files) (rises : Rises files) where
  search-IsNearest :
      (fuel : ℕ) (d : Bytes)
      → IsAbsolute d
      → length d < fuel
      → IsNearest files d (search_env files fuel d)
  unfolding search_env
  search-IsNearest zero d slash h = absurd (omega (arith, h))
  search-IsNearest (suc fuel) d slash h = at_file (files.exists (env_path files d)) refl (λ other.
      search-IsNearest fuel (files.dir d) (rises.absolute d slash)
        (omega (arith, h, rises.shorter d slash other)))
    where
      at_dir :
          (b : Bool)
          → eq_bytes (files.dir d) d ≡ b
          → files.exists (env_path files d) ≡ false
          → (files.dir d ≢ d → IsNearest files (files.dir d) (search_env files fuel (files.dir d)))
          → IsNearest files d (if b then no_file else search_env files fuel (files.dir d))
      at_dir true e missing rest = at_root d missing (eq_bytes-same (files.dir d) d e)
      at_dir false e missing rest =
          let other : files.dir d ≢ d =
            λ q. cc (e, subst (λ x. eq_bytes x d ≡ true) (sym q) (eq_bytes_refl d)) in
          above d _ missing other (rest other)

      at_file :
          (b : Bool)
          → files.exists (env_path files d) ≡ b
          → (files.dir d ≢ d → IsNearest files (files.dir d) (search_env files fuel (files.dir d)))
          → IsNearest files d (
              if b
              then found (env_path files d)
              else if eq_bytes (files.dir d) d
              then no_file
              else search_env files fuel (files.dir d))
      at_file true e rest = here d e
      at_file false e rest = at_dir (eq_bytes (files.dir d) d) refl e rest

  -- The loop ends, from any absolute path, with the `.env` of the nearest directory that has one, or
  -- with none if no directory up to the root has one, where filepath.Dir returns an absolute path
  -- for one, which is shorter unless it is the same.
  pub search_env-IsNearest :
      (d : Bytes) → IsAbsolute d → IsNearest files d (search_env files (suc (length d)) d)
  search_env-IsNearest d slash = search-IsNearest (suc (length d)) d slash (omega arith)

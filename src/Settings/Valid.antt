-- ===== src/Settings/Valid.antt =====
-- The numbers of get_settings (packages/kerdoos/src/kerdoos/config.py) in any environment.
use Prim.{tt, absurd}
use kerdoos.Prelude.{
  ℕ, ◌≤◌, ◌<◌, ◌≡◌, refl, String, Bool, true, false, not, ◌||◌, Option, none, some, List, [], ◌∷◌,
  ltb, nat_eq, some_in, All, if◌then◌else◌, split_if, ◌==◌, arith,
}
use kerdoos.Prelude.Dict.{get}
use kerdoos.Prelude.Rows.{All-weaken}
use kerdoos.Scrape.Domain.{other, Outcome, returned, raised}
use kerdoos.Egress.Texts.{size, all_chars, is_ascii_digit, value_from}
use kerdoos.Settings.{
  Num, Check, passes, Cast, Variable, or_default, from_raw, env_number, variables, safe_workers,
}

module _ (cast : Cast → String → Option Num) where
  or_default-passes :
      (default : Num) (check : Check) (o : Option Num)
      → passes check default ≡ true
      → passes check (or_default cast default check o) ≡ true
  or_default-passes default check none h = h
  or_default-passes default check (some v) h =
      split_if (λ x. passes check x ≡ true) (not (passes check v)) default v (λ e. h)
        (λ e. ground (arith, e))

  env_number-passes :
      (environ : List (String × String)) (x : Variable)
      → passes x.is_valid x.default ≡ true
      → passes x.is_valid (env_number cast environ x) ≡ true
  unfolding env_number
  env_number-passes environ x h = read_by (get x.name environ)
    where
      read_by : (raw : Option String) → passes x.is_valid (from_raw cast x raw) ≡ true
      read_by none = h
      read_by (some raw) = or_default-passes x.default x.is_valid (cast x.cast raw) h

All-pass :
    (xs : List Variable)
    → some_in (λ x. not (passes x.is_valid x.default)) xs ≡ false
    → All (λ (x : Variable). passes x.is_valid x.default ≡ true) xs
unfolding some_in
All-pass [] h = tt
All-pass (x ∷ xs) h = (ground (arith, h), All-pass xs (ground (arith, h)))

-- Whatever the environment holds and however its texts are read as numbers, each of the 25 numbers
-- of get_settings passes its own check; of KERDOOS_WORKERS, a text of at most 4300 characters gives a
-- positive number.
pub env_number-passes-All :
    (cast : Cast → String → Option Num) (environ : List (String × String)) (raw : String)
    → size raw ≤ 4300
    → All (λ (x : Variable). passes x.is_valid (env_number cast environ x) ≡ true) variables
      × ((n : ℕ) × (safe_workers raw ≡ returned n) × (0 < n))
unfolding some_in safe_workers
env_number-passes-All cast environ raw h = (
  All-weaken (λ x. passes x.is_valid x.default ≡ true)
      (λ x. passes x.is_valid (env_number cast environ x) ≡ true) (env_number-passes cast environ)
      variables (All-pass variables refl),
  read ((raw == "") || not (all_chars is_ascii_digit raw)) (ltb 4300 (size raw))
      (nat_eq (value_from 0 raw) 0) refl refl,
)
  where
    read :
        (a b c : Bool)
        → ltb 4300 (size raw) ≡ b
        → nat_eq (value_from 0 raw) 0 ≡ c
        → (let o : Outcome ℕ =
              if a
              then returned 1
              else if b
              then raised (other "ValueError" raw)
              else if c
              then returned 1
              else returned (value_from 0 raw) in
            (n : ℕ) × (o ≡ returned n) × (0 < n))
    read true b c e f = (1, refl, omega arith)
    read false true c e f = absurd (ground (arith, e, h))
    read false false true e f = (1, refl, omega arith)
    read false false false e f = (value_from 0 raw, refl, ground (arith, f))

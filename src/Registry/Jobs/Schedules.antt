-- ===== src/Registry/Jobs/Schedules.antt =====
-- The schedules that `normalize_schedule` accepts.
use Prim.{absurd}
use mathlib.Core.Path.{subst}
use kerdoos.Prelude.{
  ℕ, ◌+◌, ◌/◌, ◌%◌, ◌≡◌, ap, refl, String, Bool, true, false, not, Option, none, some, nat_eq,
  if◌then◌else◌, arith, ◌==◌,
}
use kerdoos.Prelude.Int.{ℤ, within}
use kerdoos.Scrape.Domain.{Exc, Outcome, returned, raised}
use kerdoos.Registry.Jobs.{
  count_fields, digit_char, is_space, decimal, normalize_schedule, cron_given, magnitude,
  value_error,
}

returned_inj : (s t : String) → ◌≡◌ {A = Outcome String} (returned s) (returned t) → s ≡ t
returned_inj s t h = cc

word_by :
    (a b c d e f g h i : Bool)
    → is_space (
        if a
        then "0"
        else if b
        then "1"
        else if c
        then "2"
        else if d
        then "3"
        else if e
        then "4"
        else if f
        then "5"
        else if g
        then "6"
        else if h
        then "7"
        else if i
        then "8"
        else "9")
      ≡ false
word_by true b c d e f g h i = refl
word_by false true c d e f g h i = refl
word_by false false true d e f g h i = refl
word_by false false false true e f g h i = refl
word_by false false false false true f g h i = refl
word_by false false false false false true g h i = refl
word_by false false false false false false true h i = refl
word_by false false false false false false false true i = refl
word_by false false false false false false false false true = refl
word_by false false false false false false false false false = refl

digit-word : (d : ℕ) → is_space (digit_char d) ≡ false
digit-word d =
    word_by (nat_eq d 0) (nat_eq d 1) (nat_eq d 2) (nat_eq d 3) (nat_eq d 4) (nat_eq d 5)
      (nat_eq d 6) (nat_eq d 7) (nat_eq d 8)

-- A digit goes on with a word or begins one.
count_fields-digit :
    (b : Bool) (d : ℕ) (s : String)
    → count_fields b (String.◌∷◌ (digit_char d) s) ≡ (if b then 0 else 1) + count_fields true s
unfolding count_fields
count_fields-digit b d s = ground (arith, digit-word d)

count_fields-decimal :
    (n : ℕ) (s : String) → count_fields false (decimal n s) ≡ 1 + count_fields true s
unfolding decimal
count_fields-decimal n s = ground (
  arith,
  count_fields-digit false n s,
  count_fields-digit false (n / 10) (String.◌∷◌ (digit_char (n % 10)) s),
  count_fields-digit true (n % 10) s,
)

hourly_fields : (n : ℕ) → count_fields false (decimal n " * * * *") ≡ 5
unfolding count_fields
hourly_fields n = count_fields-decimal n " * * * *"

daily_fields : (n m : ℕ) → count_fields false (decimal n (String.◌∷◌ " " (decimal m " * * *"))) ≡ 5
unfolding count_fields
daily_fields n m = omega (
  arith,
  count_fields-decimal n (String.◌∷◌ " " (decimal m " * * *")),
  count_fields-decimal m " * * *",
)

accepted_fields :
    (cron_expr : Option String) (s : String)
    → cron_given cron_expr ≡ returned s
    → count_fields false s ≡ 5
accepted_fields none s h = absurd (ground (arith, h))
accepted_fields (some c) s h = accepted_by (c == "") (nat_eq (count_fields false c) 5) refl h
  where
    accepted_by :
        (a b : Bool)
        → nat_eq (count_fields false c) 5 ≡ b
        → (if a
            then raised (value_error "cron_expr is required for frequency_kind='cron'")
            else if not b
            then raised (value_error "cron_expr must have exactly 5 space-separated fields")
            else returned c)
          ≡ returned s
        → count_fields false s ≡ 5
    accepted_by true b e h = absurd (ground (arith, h))
    accepted_by false false e h = absurd (ground (arith, h))
    accepted_by false true e h = ground (arith, e, ap (count_fields false) (returned_inj c s h))

fields_by :
    (a b c m n : Bool) (x y z : Exc) (minute hour : ℕ) (cron_expr : Option String) (s : String)
    → (if a
        then (if not m then raised x else returned (decimal minute " * * * *"))
        else if b
        then (if not m
            then raised x
            else if not n
            then raised y
            else returned (decimal minute (String.◌∷◌ " " (decimal hour " * * *"))))
        else if c
        then cron_given cron_expr
        else raised z)
      ≡ returned s
    → count_fields false s ≡ 5
fields_by true b c false n x y z i j e s h = absurd (ground (arith, h))
fields_by true b c true n x y z i j e s h =
    subst (λ t. count_fields false t ≡ 5) (returned_inj _ s h) (hourly_fields i)
fields_by false true c false n x y z i j e s h = absurd (ground (arith, h))
fields_by false true c true false x y z i j e s h = absurd (ground (arith, h))
fields_by false true c true true x y z i j e s h =
    subst (λ t. count_fields false t ≡ 5) (returned_inj _ s h) (daily_fields i j)
fields_by false false true m n x y z i j e s h = accepted_fields e s h
fields_by false false false m n x y z i j e s h = absurd (ground (arith, h))

-- A schedule that is accepted has five fields.
pub normalize_schedule-fields :
    (kind : String) (minute hour : ℤ) (cron_expr : Option String) (s : String)
    → normalize_schedule kind minute hour cron_expr ≡ returned s
    → count_fields false s ≡ 5
unfolding normalize_schedule
normalize_schedule-fields kind minute hour cron_expr s h =
    fields_by (kind == "hourly") (kind == "daily") (kind == "cron") (within 59 minute)
      (within 23 hour) (value_error "minute must be within [0, 59]")
      (value_error "hour must be within [0, 23]") (value_error kind) (magnitude minute)
      (magnitude hour) cron_expr s h

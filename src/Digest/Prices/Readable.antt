-- ===== src/Digest/Prices/Readable.antt =====
-- The price that `format_cents` of packages/kerdoos/src/kerdoos/digest/render.py prints can be read
-- back.
use Prim.{absurd}
use Prim.Native.Char.{Char, code}
use Prim.Native.String
use text.Mathlib.TextLemmas.{nil-append, cons-append}
use kerdoos.Prelude.{Bool, true, false, not, ◌&&◌, Option, none, leb, nat_eq, ◌≤◌}
use kerdoos.Prelude.{
  ℕ, zero, suc, ◌+◌, ◌-◌, ◌*◌, ◌/◌, ◌%◌, ◌<◌, ◌≡◌, refl, ap, ◌∙◌, String, some, if◌then◌else◌,
  arith, split_if, ltb,
}
use kerdoos.Registry.Jobs.{digit_char}
use kerdoos.Digest.Texts.{digits, grouped, pad2, pad3}
use kerdoos.Digest.Prices.{amount, format_cents}
use kerdoos.Egress.Texts.{is_ascii_digit, after}

-- A point or a comma may follow the first group after one to three digits, and a later one after
-- three.
abbrev pub is_full : Bool → ℕ → Bool
is_full true count = leb 1 count && leb count 3
is_full false count = nat_eq count 3

abbrev pub digit_value : Char → Option ℕ
digit_value c = if is_ascii_digit c then some (code c - 48) else none

abbrev two_digits : ℕ → Option ℕ → Option ℕ → Option ℕ
two_digits reais (some d) (some e) = some (reais * 100 + d * 10 + e)
two_digits reais (some d) none = none
two_digits reais none e = none

-- Two digits, and the end.
abbrev pub read_cents : ℕ → String → Option ℕ
read_cents reais String.[] = none
read_cents reais (String.◌∷◌ c String.[]) = none
read_cents reais (String.◌∷◌ c (String.◌∷◌ d String.[])) =
    two_digits reais (digit_value c) (digit_value d)
read_cents reais (String.◌∷◌ c (String.◌∷◌ d (String.◌∷◌ e s))) = none

-- Groups of digits with points between them, up to the comma; `first` in the first group, of which
-- `count` digits are read.
unfoldable pub read_groups : Bool → ℕ → ℕ → String → Option ℕ
read_groups first count reais String.[] = none
read_groups first count reais (String.◌∷◌ c s) =
    let digit = read_groups first (suc count) (reais * 10 + (code c - 48)) s in
    let group = read_groups false 0 reais s in
    if is_ascii_digit c
    then digit
    else if not (is_full first count)
    then none
    else if nat_eq (code c) b'.'
    then group
    else if nat_eq (code c) b','
    then read_cents reais s
    else none

abbrev in_groups : Option String → Option ℕ
in_groups none = none
in_groups (some s) = read_groups true 0 0 s

-- A price as Brazilians write it, "R$ 1.234.567,89", in cents.
unfoldable pub read_price : String → Option ℕ
unfolding after read_groups
read_price s = in_groups (after "R$ " s)

read_digit :
    (first : Bool) (count v d : ℕ) (s : String)
    → d < 10
    → read_groups first count v (String.◌∷◌ (digit_char d) s)
      ≡ read_groups first (suc count) (v * 10 + d) s
unfolding read_groups
read_digit first count v zero s h = refl
read_digit first count v (suc zero) s h = refl
read_digit first count v (suc (suc zero)) s h = refl
read_digit first count v (suc (suc (suc zero))) s h = refl
read_digit first count v (suc (suc (suc (suc zero)))) s h = refl
read_digit first count v (suc (suc (suc (suc (suc zero))))) s h = refl
read_digit first count v (suc (suc (suc (suc (suc (suc zero)))))) s h = refl
read_digit first count v (suc (suc (suc (suc (suc (suc (suc zero))))))) s h = refl
read_digit first count v (suc (suc (suc (suc (suc (suc (suc (suc zero)))))))) s h = refl
read_digit first count v (suc (suc (suc (suc (suc (suc (suc (suc (suc zero))))))))) s h = refl
read_digit first count v (suc (suc (suc (suc (suc (suc (suc (suc (suc (suc d)))))))))) s h =
    absurd (omega (arith, h))

read_two :
    (first : Bool) (count v n : ℕ) (s : String)
    → read_groups first count v (pad2 n s)
      ≡ read_groups first (suc (suc count)) (v * 100 + n % 100) s
read_two first count v n s =
    read_digit first count v (n / 10 % 10) _ (omega arith)
    ∙ read_digit first (suc count) _ (n % 10) s (omega arith)
    ∙ ap (λ k. read_groups first (suc (suc count)) k s) (omega arith)

read_pad3 :
    (v n : ℕ) (s : String)
    → read_groups false 0 v (pad3 n s) ≡ read_groups false 3 (v * 1000 + n % 1000) s
read_pad3 v n s =
    read_digit false 0 v (n / 100 % 10) _ (omega arith)
    ∙ read_two false 1 _ n s
    ∙ ap (λ k. read_groups false 3 k s) (omega arith)

-- A text that begins with a point or a comma ends a first group as it ends a later one.
abbrev IsCut : String → Type 0
IsCut s =
    (count v : ℕ) → is_full true count ≡ true → read_groups true count v s ≡ read_groups false 3 v s

point-IsCut : (s : String) → IsCut (String.◌∷◌ "." s)
unfolding read_groups
point-IsCut s count v h = ap (λ b. if not b then none else read_groups false 0 v s) h

comma-IsCut : (s : String) → IsCut (String.◌∷◌ "," s)
unfolding read_groups
comma-IsCut s count v h = ap (λ b. if not b then none else read_cents v s) h

-- A number of one to three digits.
read_short :
    (n : ℕ) (s : String)
    → n < 1000
    → IsCut s
    → read_groups true 0 0 (digits (suc n) n s) ≡ read_groups false 3 n s
unfolding digits
read_short n s h cut =
    split_if (λ t. read_groups true 0 0 t ≡ read_groups false 3 n s) (ltb n 10) _ _
      (λ e.
        read_digit true 0 0 n s (ground (arith, e))
        ∙ ap (λ k. read_groups true 1 k s) (omega arith)
        ∙ cut 1 n refl)
      (λ e. longer n h (ground (arith, e)))
  where
    longest :
        (m : ℕ)
        → suc m < 1000
        → 10 ≤ suc m / 10
        → read_groups true 0 0 (
            digits m
              (suc m / 10 / 10)
              (String.◌∷◌ (digit_char (suc m / 10 % 10)) (String.◌∷◌ (digit_char (suc m % 10)) s)))
          ≡ read_groups false 3 (suc m) s
    longest zero l k = absurd (omega (arith, k))
    longest (suc m) l k =
        split_if (λ t. read_groups true 0 0 t ≡ read_groups false 3 (suc (suc m)) s)
          (ltb (suc (suc m) / 10 / 10) 10) _ _
          (λ e.
            read_digit true 0 0 (suc (suc m) / 10 / 10) _ (ground (arith, e))
            ∙ read_digit true 1 _ (suc (suc m) / 10 % 10) _ (omega arith)
            ∙ read_digit true 2 _ (suc (suc m) % 10) s (omega arith)
            ∙ ap (λ q. read_groups true 3 q s) (omega arith)
            ∙ cut 3 (suc (suc m)) refl)
          (λ e. absurd (ground (arith, e, l)))

    longer :
        (m : ℕ)
        → m < 1000
        → 10 ≤ m
        → read_groups true 0 0 (digits m (m / 10) (String.◌∷◌ (digit_char (m % 10)) s))
          ≡ read_groups false 3 m s
    longer zero l k = absurd (omega (arith, k))
    longer (suc m) l k =
        split_if (λ t. read_groups true 0 0 t ≡ read_groups false 3 (suc m) s) (ltb (suc m / 10) 10)
          _ _
          (λ e.
            read_digit true 0 0 (suc m / 10) _ (ground (arith, e))
            ∙ read_digit true 1 _ (suc m % 10) s (omega arith)
            ∙ ap (λ q. read_groups true 2 q s) (omega arith)
            ∙ cut 2 (suc m) refl)
          (λ e. longest m l (ground (arith, e)))

read_grouped :
    (fuel n : ℕ) (s : String)
    → n < fuel
    → IsCut s
    → read_groups true 0 0 (grouped fuel n s) ≡ read_groups false 3 n s
unfolding grouped read_groups
read_grouped zero n s h cut = absurd (omega (arith, h))
read_grouped (suc fuel) n s h cut =
    split_if (λ t. read_groups true 0 0 t ≡ read_groups false 3 n s) (ltb n 1000) _ _
      (λ e. read_short n s (ground (arith, e)) cut)
      (λ e.
        read_grouped fuel (n / 1000) (String.◌∷◌ "." (pad3 (n % 1000) s)) (ground (arith, e, h))
          (point-IsCut (pad3 (n % 1000) s))
        ∙ read_pad3 (n / 1000) (n % 1000) s
        ∙ ap (λ k. read_groups false 3 k s) (omega arith))

digit_value-digit_char : (d : ℕ) → d < 10 → digit_value (digit_char d) ≡ some d
digit_value-digit_char zero h = refl
digit_value-digit_char (suc zero) h = refl
digit_value-digit_char (suc (suc zero)) h = refl
digit_value-digit_char (suc (suc (suc zero))) h = refl
digit_value-digit_char (suc (suc (suc (suc zero)))) h = refl
digit_value-digit_char (suc (suc (suc (suc (suc zero))))) h = refl
digit_value-digit_char (suc (suc (suc (suc (suc (suc zero)))))) h = refl
digit_value-digit_char (suc (suc (suc (suc (suc (suc (suc zero))))))) h = refl
digit_value-digit_char (suc (suc (suc (suc (suc (suc (suc (suc zero)))))))) h = refl
digit_value-digit_char (suc (suc (suc (suc (suc (suc (suc (suc (suc zero))))))))) h = refl
digit_value-digit_char (suc (suc (suc (suc (suc (suc (suc (suc (suc (suc d)))))))))) h =
    absurd (omega (arith, h))

read_cents-pad2 : (v n : ℕ) → read_cents v (pad2 n "") ≡ some (v * 100 + n % 100)
read_cents-pad2 v n =
    ap (λ d. two_digits v d (digit_value (digit_char (n % 10))))
      (digit_value-digit_char (n / 10 % 10) (omega arith))
    ∙ ap (λ e. two_digits v (some (n / 10 % 10)) e) (digit_value-digit_char (n % 10) (omega arith))
    ∙ ap some (omega arith)

after_currency : (t : String) → after "R$ " (String.◌++◌ "R$ " t) ≡ some t
unfolding after
after_currency t =
    ap (after "R$ ") (cons-append "R" "$ " t)
    ∙ ap (after "$ ") (cons-append "$" " " t)
    ∙ ap (after " ") (cons-append " " "" t)
    ∙ ap some (nil-append t)

-- A printed price is read back, by a reader that asks for the currency, for points between groups
-- of three digits, the first of which may be shorter, and for a comma before the last two digits.
pub format_cents_reads : (cents : ℕ) → read_price (format_cents (some cents)) ≡ some cents
unfolding format_cents read_price amount
format_cents_reads cents =
    ap in_groups (after_currency (amount cents))
    ∙ read_grouped (suc (cents / 100)) (cents / 100) (String.◌∷◌ "," (pad2 (cents % 100) ""))
        (omega arith) (comma-IsCut (pad2 (cents % 100) ""))
    ∙ read_cents-pad2 (cents / 100) (cents % 100)
    ∙ ap some (omega arith)

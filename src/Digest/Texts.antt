-- ===== src/Digest/Texts.antt =====
-- The text functions of packages/kerdoos/src/kerdoos/digest: what neutralises line breaks, and the
-- printing of numbers.
pub mod Clean
use Prim.Native.Char.{Char, code}
use Prim.Native.String
use kerdoos.Prelude.{
  ℕ, zero, suc, ◌+◌, ◌-◌, ◌*◌, ◌/◌, ◌%◌, String, Bool, true, false, not, ◌&&◌, ◌||◌, ◌==◌, nat_eq,
  ltb, leb, List, [], ◌∷◌, if◌then◌else◌,
}
use kerdoos.Registry.Jobs.{is_space, digit_char}
use kerdoos.Egress.Texts.{size}

-- A carriage return or a line feed.
abbrev pub is_break : Char → Bool
is_break c = nat_eq (code c) 13 || nat_eq (code c) 10

-- `value.replace("\r", " ").replace("\n", " ")`
unfoldable pub without_breaks : String → String
without_breaks String.[] = String.[]
without_breaks (String.◌∷◌ c s) = String.◌∷◌ (if is_break c then " " else c) (without_breaks s)

unfoldable pub lstrip : String → String
lstrip String.[] = String.[]
lstrip (String.◌∷◌ c s) = let rest = lstrip s in if is_space c then rest else String.◌∷◌ c s

unfoldable pub rstrip : String → String
rstrip String.[] = String.[]
rstrip (String.◌∷◌ c s) =
    let rest = rstrip s in
    if is_space c && (rest == String.[]) then String.[] else String.◌∷◌ c rest

-- `_clean_header`
unfoldable pub clean_header : String → String
unfolding without_breaks lstrip rstrip
clean_header value = lstrip (rstrip (without_breaks value))

-- `s[:n]`
unfoldable pub take_chars : ℕ → String → String
take_chars zero s = String.[]
take_chars (suc n) String.[] = String.[]
take_chars (suc n) (String.◌∷◌ c s) = String.◌∷◌ c (take_chars n s)

abbrev pub max_error_len : ℕ
max_error_len = 160

-- `_sanitize_error`
unfoldable pub sanitize_error : String → String
unfolding clean_header take_chars size
sanitize_error error =
    let flat = clean_header error in
    if ltb max_error_len (size flat)
    then String.◌++◌ (take_chars (max_error_len - 3) flat) "..."
    else flat

-- `body.replace("\r", "")`
unfoldable pub clean_header_block : String → String
clean_header_block String.[] = String.[]
clean_header_block (String.◌∷◌ c s) =
    let rest = clean_header_block s in if nat_eq (code c) 13 then rest else String.◌∷◌ c rest

-- The pieces of an f-string.
unfoldable pub concat : List String → String
concat [] = String.[]
concat (s ∷ ss) = String.◌++◌ s (concat ss)

-- `"\n".join(lines)`
unfoldable pub join_lines : List String → String
join_lines [] = String.[]
join_lines (l ∷ []) = l
join_lines (l ∷ k ∷ ls) = String.◌++◌ l (String.◌∷◌ "\n" (join_lines (k ∷ ls)))

-- The digits of a number in front of a text; the fuel is the number of digits at least.
unfoldable pub digits : ℕ → ℕ → String → String
digits zero n rest = rest
digits (suc fuel) n rest =
    let more = digits fuel (n / 10) (String.◌∷◌ (digit_char (n % 10)) rest) in
    if ltb n 10 then String.◌∷◌ (digit_char n) rest else more

-- `str(n)`
unfoldable pub print_nat : ℕ → String → String
unfolding digits
print_nat n rest = digits (suc n) n rest

abbrev pub pad2 : ℕ → String → String
pad2 n rest = String.◌∷◌ (digit_char (n / 10 % 10)) (String.◌∷◌ (digit_char (n % 10)) rest)

abbrev pub pad3 : ℕ → String → String
pad3 n rest = String.◌∷◌ (digit_char (n / 100 % 10)) (pad2 n rest)

-- `f"{n:,}".replace(",", ".")`
unfoldable pub grouped : ℕ → ℕ → String → String
unfolding digits
grouped zero n rest = rest
grouped (suc fuel) n rest =
    let more = grouped fuel (n / 1000) (String.◌∷◌ "." (pad3 (n % 1000) rest)) in
    if ltb n 1000 then digits (suc n) n rest else more

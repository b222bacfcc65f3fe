-- ===== src/Digest/Texts/Clean.antt =====
-- What packages/kerdoos/src/kerdoos/digest does against line breaks.
use Prim.Native.Char.{Char}
use Prim.Native.String
use mathlib.Core.Path.{subst}
use text.Mathlib.TextLemmas.{nil-append, cons-append}
use kerdoos.Prelude.{
  ℕ, zero, suc, ◌+◌, ◌≤◌, ◌≡◌, refl, sym, String, true, not, ◌&&◌, ◌==◌, arith, split_if, ltb,
}
use kerdoos.Registry.Jobs.{is_space}
use kerdoos.Egress.Texts.{size, all_chars}
use kerdoos.Digest.Texts.{
  is_break, without_breaks, lstrip, rstrip, clean_header, take_chars, sanitize_error,
}

-- A text with neither a carriage return nor a line feed.
abbrev pub IsOneLine : String → Type 0
IsOneLine s = all_chars (λ c. not (is_break c)) s ≡ true

without_breaks-IsOneLine : (s : String) → IsOneLine (without_breaks s)
unfolding without_breaks all_chars
without_breaks-IsOneLine String.[] = refl
without_breaks-IsOneLine (String.◌∷◌ c s) =
    split_if
      (λ (d : Char).
        not (is_break d) && all_chars (λ e. not (is_break e)) (without_breaks s) ≡ true)
      (is_break c) " " c (λ h. without_breaks-IsOneLine s)
      (λ h. ground (arith, h, without_breaks-IsOneLine s))

lstrip-IsOneLine : (s : String) → IsOneLine s → IsOneLine (lstrip s)
unfolding lstrip all_chars
lstrip-IsOneLine String.[] h = refl
lstrip-IsOneLine (String.◌∷◌ c s) h =
    split_if IsOneLine (is_space c) _ _ (λ _. lstrip-IsOneLine s (ground (arith, h))) (λ _. h)

rstrip-IsOneLine : (s : String) → IsOneLine s → IsOneLine (rstrip s)
unfolding rstrip all_chars
rstrip-IsOneLine String.[] h = refl
rstrip-IsOneLine (String.◌∷◌ c s) h =
    split_if IsOneLine (is_space c && (rstrip s == String.[])) _ _ (λ _. refl)
      (λ _. ground (arith, h, rstrip-IsOneLine s (ground (arith, h))))

pub clean_header-IsOneLine : (s : String) → IsOneLine (clean_header s)
unfolding clean_header
clean_header-IsOneLine s =
    lstrip-IsOneLine (rstrip (without_breaks s))
      (rstrip-IsOneLine (without_breaks s) (without_breaks-IsOneLine s))

take_chars-append :
    (n : ℕ) (s t : String)
    → IsOneLine s
    → IsOneLine t
    → IsOneLine (String.◌++◌ (take_chars n s) t)
      × (size (String.◌++◌ (take_chars n s) t) ≤ n + size t)
unfolding take_chars all_chars size
take_chars-append zero s t hs ht =
    subst (λ u. IsOneLine u × (size u ≤ 0 + size t)) (sym (nil-append t)) (ht, omega arith)
take_chars-append (suc n) String.[] t hs ht =
    subst (λ u. IsOneLine u × (size u ≤ suc n + size t)) (sym (nil-append t)) (ht, omega arith)
take_chars-append (suc n) (String.◌∷◌ c s) t hs ht =
    let k = take_chars-append n s t (ground (arith, hs)) ht in
    subst (λ u. IsOneLine u × (size u ≤ suc n + size t)) (sym (cons-append c (take_chars n s) t))
      (ground (arith, hs, k.0), omega (arith, k.1))

-- An error that enters a line of a digest stays on that line, and within 160 characters.
pub sanitize_error-IsOneLine :
    (s : String) → IsOneLine (sanitize_error s) × (size (sanitize_error s) ≤ 160)
unfolding sanitize_error all_chars
sanitize_error-IsOneLine s =
    split_if (λ t. IsOneLine t × (size t ≤ 160)) (ltb 160 (size (clean_header s))) _ _
      (λ h. take_chars-append 157 (clean_header s) "..." (clean_header-IsOneLine s) refl)
      (λ h. (clean_header-IsOneLine s, ground (arith, h)))

-- ===== src/Digest/Render/Lines.antt =====
-- The lines of `render_digest` (packages/kerdoos/src/kerdoos/digest/render.py).
use Prim.{absurd}
use Prim.Native.Char.{Char, code}
use Prim.Native.String
use mathlib.Core.Path.{subst}
use text.Mathlib.TextLemmas.{nil-append, cons-append}
use kerdoos.Prelude.{
  ◌≡◌, refl, sym, ap, ◌∙◌, String, List, [], ◌∷◌, nat_eq, if◌then◌else◌, arith, All, split_if,
}
use kerdoos.Egress.Texts.{all_chars}
use kerdoos.Digest.Texts.{concat, join_lines}
use kerdoos.Digest.Texts.Clean.{IsOneLine}

-- The lines of a text.
abbrev in_first : Char → List String → List String
in_first c [] = []
in_first c (l ∷ ls) = String.◌∷◌ c l ∷ ls

unfoldable pub split_lines : String → List String
split_lines String.[] = String.[] ∷ []
split_lines (String.◌∷◌ c s) =
    let rest = split_lines s in if nat_eq (code c) 10 then String.[] ∷ rest else in_first c rest

pub append-IsOneLine : (s t : String) → IsOneLine s → IsOneLine t → IsOneLine (String.◌++◌ s t)
unfolding all_chars
append-IsOneLine String.[] t hs ht = subst IsOneLine (sym (nil-append t)) ht
append-IsOneLine (String.◌∷◌ c s) t hs ht =
    subst IsOneLine (sym (cons-append c s t))
      (ground (arith, hs, append-IsOneLine s t (ground (arith, hs)) ht))

pub concat-IsOneLine : (ss : List String) → All IsOneLine ss → IsOneLine (concat ss)
unfolding concat all_chars
concat-IsOneLine [] h = refl
concat-IsOneLine (s ∷ ss) h = append-IsOneLine s (concat ss) h.0 (concat-IsOneLine ss h.1)

split_line :
    (l t : String)
    → IsOneLine l
    → split_lines (String.◌++◌ l (String.◌∷◌ "\n" t)) ≡ l ∷ split_lines t
unfolding split_lines all_chars
split_line String.[] t h = ap split_lines (nil-append (String.◌∷◌ "\n" t))
split_line (String.◌∷◌ c l) t h =
    ap split_lines (cons-append c l (String.◌∷◌ "\n" t))
    ∙ split_if (λ x. x ≡ String.◌∷◌ c l ∷ split_lines t) (nat_eq (code c) 10) _ _
        (λ e. absurd (ground (arith, h, e)))
        (λ e. ap (in_first c) (split_line l t (ground (arith, h))))

one_line : (l : String) → IsOneLine l → split_lines l ≡ l ∷ []
unfolding split_lines all_chars
one_line String.[] h = refl
one_line (String.◌∷◌ c l) h =
    split_if (λ x. x ≡ String.◌∷◌ c l ∷ []) (nat_eq (code c) 10) _ _
      (λ e. absurd (ground (arith, h, e))) (λ e. ap (in_first c) (one_line l (ground (arith, h))))

pub split_lines-join_lines :
    (l : String) (ls : List String)
    → IsOneLine l
    → All IsOneLine ls
    → split_lines (join_lines (l ∷ ls)) ≡ l ∷ ls
unfolding join_lines
split_lines-join_lines l [] h hs = one_line l h
split_lines-join_lines l (k ∷ ls) h hs =
    split_line l (join_lines (k ∷ ls)) h ∙ ap (λ x. l ∷ x) (split_lines-join_lines k ls hs.0 hs.1)

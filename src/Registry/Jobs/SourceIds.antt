-- ===== src/Registry/Jobs/SourceIds.antt =====
-- The identifiers that `make_source_id` builds.
use Prim.{absurd}
use Prim.Native.Char.{Char, code}
use Prim.Native.String
use Prim.Native.String.{count}
use text.Mathlib.TextLemmas.{nil-append, cons-append, length-cons, append_inj, length-append}
use kerdoos.Prelude.{
  ◌≡◌, ap, refl, sym, ◌∙◌, String, Bool, true, false, none, some, if◌then◌else◌, arith, ◌==◌,
}
use kerdoos.Scrape.Domain.{Exc, other, returned}
use kerdoos.Registry.Jobs.{
  has_colon, validate_product_key, source_id_of, id_or_raise, make_source_id,
}

cons_inj : (c d : Char) (s t : String) → String.◌∷◌ c s ≡ String.◌∷◌ d t → (c ≡ d) × (s ≡ t)
cons_inj c d s t h = (cc, cc)

-- An equation of two texts, the first of which begins with a given text.
from_nil : (r t : String) → String.◌++◌ String.[] r ≡ t → r ≡ t
from_nil r t e = sym (nil-append r) ∙ e

from_cons :
    (c : Char) (k r t : String)
    → String.◌++◌ (String.◌∷◌ c k) r ≡ t
    → String.◌∷◌ c (String.◌++◌ k r) ≡ t
from_cons c k r t e = sym (cons-append c k r) ∙ e

-- The first ':' splits a text in one way.
split_first :
    (k l r s : String)
    → has_colon k ≡ false
    → has_colon l ≡ false
    → String.◌++◌ k (String.◌∷◌ ":" r) ≡ String.◌++◌ l (String.◌∷◌ ":" s)
    → (k ≡ l) × (r ≡ s)
unfolding has_colon
split_first String.[] String.[] r s hk hl e =
    (refl, (cons_inj ":" ":" r s (sym (from_nil _ _ (sym (from_nil _ _ e))))).1)
split_first String.[] (String.◌∷◌ d l) r s hk hl e =
    let both =
      cons_inj d ":" (String.◌++◌ l (String.◌∷◌ ":" s)) r
        (from_cons _ _ _ _ (sym (from_nil _ _ e))) in
    absurd (ground (arith, hl, ap code both.0))
split_first (String.◌∷◌ c k) String.[] r s hk hl e =
    let both =
      cons_inj c ":" (String.◌++◌ k (String.◌∷◌ ":" r)) s
        (from_cons _ _ _ _ (sym (from_nil _ _ (sym e)))) in
    absurd (ground (arith, hk, ap code both.0))
split_first (String.◌∷◌ c k) (String.◌∷◌ d l) r s hk hl e =
    let both =
      cons_inj c d (String.◌++◌ k (String.◌∷◌ ":" r)) (String.◌++◌ l (String.◌∷◌ ":" s))
        (from_cons _ _ _ _ (sym (from_cons _ _ _ _ (sym e)))) in
    let rest = split_first k l r s (ground (arith, hk)) (ground (arith, hl)) both.1 in
    (cc (both.0, rest.0), rest.1)

accepted :
    (k i j : String)
    → id_or_raise (validate_product_key k) i ≡ returned j
    → (has_colon k ≡ false) × (i ≡ j)
unfolding validate_product_key
accepted k i j h =
    accepted_by (k == "") (has_colon k) (other "ValueError" "product_key must not be empty")
      (other "ValueError" "product_key must not contain ':'") i j h
  where
    accepted_by :
        (a b : Bool) (x y : Exc) (i j : String)
        → id_or_raise (if a then some x else if b then some y else none) i ≡ returned j
        → (b ≡ false) × (i ≡ j)
    accepted_by true b x y i j h = absurd (ground (arith, h))
    accepted_by false true x y i j h = absurd (ground (arith, h))
    accepted_by false false x y i j h = (refl, ground (arith, h))

-- Digests of one length: two accepted triples with one identifier have the same product key, the
-- same site and the same digest of the url, whatever characters the site name has.
pub make_source_id-injective :
    (digest : String → String)
    → ((u v : String) → count (digest u) ≡ count (digest v))
    → (k l s t u v id : String) → make_source_id digest k s u ≡ returned id
    → make_source_id digest l t v ≡ returned id
    → (k ≡ l) × (s ≡ t) × (digest u ≡ digest v)
unfolding make_source_id
make_source_id-injective digest even k l s t u v id h g =
    let a = accepted k (source_id_of k s (digest u)) id h in
    let b = accepted l (source_id_of l t (digest v)) id g in
    let first =
      split_first k l (String.◌++◌ s (String.◌∷◌ ":" (digest u)))
        (String.◌++◌ t (String.◌∷◌ ":" (digest v))) a.0 b.0 (a.1 ∙ sym b.1) in
    let halves = append_inj {s₁ = s} {s₂ = t} first.1 (
      omega (
        arith,
        ap count first.1,
        length-append s (String.◌∷◌ ":" (digest u)),
        length-append t (String.◌∷◌ ":" (digest v)),
        length-cons ":" (digest u),
        length-cons ":" (digest v),
        even u v,
      )) in
    (first.0, halves.0, (cons_inj ":" ":" (digest u) (digest v) halves.1).1)

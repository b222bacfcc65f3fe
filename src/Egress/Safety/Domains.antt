-- ===== src/Egress/Safety/Domains.antt =====
-- The domain test of packages/autolycos/src/autolycos/safety.py.
use Prim.{absurd}
use Prim.Native.String
use text.Mathlib.TextLemmas.{nil-append, cons-append}
use kerdoos.Prelude.{
  ◌≡◌, ◌⊎◌, inl, inr, refl, sym, ap, ◌∙◌, String, Bool, true, false, List, [], ◌∷◌, ◌==◌, some_in,
  arith, eq_of_test, eq_refl,
}
use kerdoos.Egress.Texts.{ends_with, rstrip}
use kerdoos.Egress.Safety.{Net, is_within, domain_allowed}

-- A text that ends with another is it after a prefix.
ends_with-prefix :
    (suffix s : String) → ends_with suffix s ≡ true → (p : String) × (s ≡ String.◌++◌ p suffix)
unfolding ends_with
ends_with-prefix suffix String.[] e =
    (String.[], eq_of_test String.[] suffix e ∙ sym (nil-append suffix))
ends_with-prefix suffix (String.◌∷◌ c s) e =
    whole_or_rest (String.◌∷◌ c s == suffix) refl (ends_with-prefix suffix s)
  where
    whole_or_rest :
        (b : Bool)
        → (String.◌∷◌ c s == suffix) ≡ b
        → (ends_with suffix s ≡ true → (p : String) × (s ≡ String.◌++◌ p suffix))
        → (p : String) × (String.◌∷◌ c s ≡ String.◌++◌ p suffix)
    whole_or_rest true h k =
        (String.[], eq_of_test (String.◌∷◌ c s) suffix h ∙ sym (nil-append suffix))
    whole_or_rest false h k =
        let (p, q) = k (ground (arith, e, h)) in
        (String.◌∷◌ c p, ap (String.◌∷◌ c) q ∙ sym (cons-append c p suffix))

-- A name is a domain, or a subdomain of it: labels and a dot stand before it.
abbrev pub IsCovered : String → String → Type 0
IsCovered host d = (host ≡ d) ⊎ ((labels : String) × (host ≡ String.◌++◌ labels (String.◌∷◌ "." d)))

within-IsCovered : (host d : String) → is_within host d ≡ true → IsCovered host d
within-IsCovered host d e = same_or_below (host == d) refl
  where
    same_or_below : (b : Bool) → (host == d) ≡ b → IsCovered host d
    same_or_below true h = inl (eq_of_test host d h)
    same_or_below false h = inr (ends_with-prefix (String.◌∷◌ "." d) host (ground (arith, e, h)))

found_within :
    (host : String) (ds : List String)
    → some_in (is_within host) ds ≡ true
    → (d : String) × (some_in (λ x. x == d) ds ≡ true) × IsCovered host d
unfolding some_in
found_within host [] e = absurd (ground (arith, e))
found_within host (d ∷ ds) e = first_or_later (is_within host d) refl (found_within host ds)
  where
    first_or_later :
        (b : Bool)
        → is_within host d ≡ b
        → (some_in (is_within host) ds ≡ true
            → (x : String) × (some_in (λ y. y == x) ds ≡ true) × IsCovered host x)
        → (x : String) × (some_in (λ y. y == x) (d ∷ ds) ≡ true) × IsCovered host x
    first_or_later true h k = (d, ground (arith, eq_refl d), within-IsCovered host d h)
    first_or_later false h k = let (x, m, c) = k (ground (arith, e, h)) in (x, ground (arith, m), c)

-- A host that the policy allows is, lowered and without final dots, one of its domains or a
-- subdomain of one: a name that merely ends in a domain's letters is refused.
pub domain_allowed-IsCovered :
    (net : Net) (allowed : List String) (host : String)
    → domain_allowed net allowed host ≡ true
    → (d : String) × (some_in (λ x. x == d) allowed ≡ true) × IsCovered (rstrip (net.lower host)) d
unfolding domain_allowed
domain_allowed-IsCovered net allowed host e = found_within (rstrip (net.lower host)) allowed e

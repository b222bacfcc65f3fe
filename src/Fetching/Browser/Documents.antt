-- ===== src/Fetching/Browser/Documents.antt =====
-- The document that a browser fetch reads (packages/autolycos/src/autolycos/adapters/browser.py).
use Prim.{tt, absurd}
use kerdoos.Prelude.{
  ◌≡◌, refl, String, Bool, true, false, not, ◌&&◌, ◌||◌, Option, none, some, if◌then◌else◌, ◌==◌,
  arith, eq_of_test, ne_of_test, is_some,
}
use kerdoos.Scrape.Domain.{returned, raised}
use kerdoos.Egress.Texts.{rstrip}
use kerdoos.Fetching.Browser.{
  Location, default_port, effective_port, same_port, Checked, refused, check_location, then_check,
  check_final_document,
}

-- No user, an http or https scheme that keeps to https, the requested host but for points at its end,
-- and the requested port or the default one of its scheme.
abbrev pub IsSameSite : Location → Location → Type 0
IsSameSite requested final =
    (final.has_userinfo ≡ false)
    × (is_some (default_port final.scheme) ≡ true)
    × (rstrip final.hostname ≡ rstrip requested.hostname)
    × (requested.scheme ≡ "https" → final.scheme ≡ "https")
    × ((same_port (effective_port final) (effective_port requested)
          || same_port (effective_port final) (default_port final.scheme))
        ≡ true)

check_location-IsSameSite :
    (requested final : Location)
    → check_location requested final ≡ returned tt
    → IsSameSite requested final
unfolding check_location
check_location-IsSameSite requested final e =
    by_tests final.has_userinfo (is_some (default_port final.scheme))
      (rstrip final.hostname == rstrip requested.hostname) (requested.scheme == "https")
      (final.scheme == "https") (same_port (effective_port final) (effective_port requested))
      (same_port (effective_port final) (default_port final.scheme)) refl refl refl refl refl refl
      refl e
  where
    not_https :
        (requested.scheme == "https") ≡ false → requested.scheme ≡ "https" → final.scheme ≡ "https"
    not_https p h = absurd (ne_of_test requested.scheme "https" p h)

    by_tests :
        (user known host from to asked usual : Bool)
        → final.has_userinfo ≡ user
        → is_some (default_port final.scheme) ≡ known
        → (rstrip final.hostname == rstrip requested.hostname) ≡ host
        → (requested.scheme == "https") ≡ from
        → (final.scheme == "https") ≡ to
        → same_port (effective_port final) (effective_port requested) ≡ asked
        → same_port (effective_port final) (default_port final.scheme) ≡ usual
        → (if user
            then refused "final document contains userinfo"
            else if not known || not host
            then refused "final document is not on the requested host"
            else if from && not to
            then refused "final document fell back from a requested https URL"
            else if not asked && not usual
            then refused "final document is not on the requested port"
            else returned tt)
          ≡ returned tt
        → IsSameSite requested final
    by_tests true known host from to asked usual p1 p2 p3 p4 p5 p6 p7 k = absurd cc
    by_tests false false host from to asked usual p1 p2 p3 p4 p5 p6 p7 k = absurd cc
    by_tests false true false from to asked usual p1 p2 p3 p4 p5 p6 p7 k = absurd cc
    by_tests false true true true false asked usual p1 p2 p3 p4 p5 p6 p7 k = absurd cc
    by_tests false true true true true false false p1 p2 p3 p4 p5 p6 p7 k = absurd cc
    by_tests false true true false to false false p1 p2 p3 p4 p5 p6 p7 k = absurd cc
    by_tests false true true true true true usual p1 p2 p3 p4 p5 p6 p7 k =
        (p1, p2, eq_of_test _ _ p3, (λ _. eq_of_test final.scheme "https" p5), ground (arith, p6))
    by_tests false true true true true false true p1 p2 p3 p4 p5 p6 p7 k = (
      p1,
      p2,
      eq_of_test _ _ p3,
      (λ _. eq_of_test final.scheme "https" p5),
      ground (arith, p6, p7),
    )
    by_tests false true true false to true usual p1 p2 p3 p4 p5 p6 p7 k =
        (p1, p2, eq_of_test _ _ p3, not_https p4, ground (arith, p6))
    by_tests false true true false to false true p1 p2 p3 p4 p5 p6 p7 k =
        (p1, p2, eq_of_test _ _ p3, not_https p4, ground (arith, p6, p7))

then_check-parts :
    (c d : Checked) → then_check c d ≡ returned tt → (c ≡ returned tt) × (d ≡ returned tt)
then_check-parts (raised x) d e = absurd cc
then_check-parts (returned tt) d e = (refl, e)

fragment-same :
    (b : Bool)
    → (if b then returned tt else refused "final document URI does not match page URL")
      ≡ returned tt
    → b ≡ true
fragment-same true e = refl
fragment-same false e = absurd cc

-- The final url is on the requested site; so is the document's URI, when there is one, and it differs
-- from the final url at most in its fragment.
abbrev pub IsSameDocument :
    (String → Location) → (String → String) → String → String → Option String → Type 0
IsSameDocument urlsplit urldefrag final requested none =
    IsSameSite (urlsplit requested) (urlsplit final)
IsSameDocument urlsplit urldefrag final requested (some uri) =
    IsSameSite (urlsplit requested) (urlsplit final)
    × IsSameSite (urlsplit requested) (urlsplit uri)
    × (urldefrag final ≡ urldefrag uri)

-- When the check of the final document passes, the final url and, if the browser gives one, the URI
-- of the document have no user, the requested host up to points at its end, an http or https scheme
-- that is https when the request's was, and the requested port or the default one of their scheme;
-- and the two urls differ at most in their fragments.
pub check_final_document-IsSameDocument :
    (urlsplit : String → Location) (urldefrag : String → String) (final requested : String)
    (uri : Option String)
    → check_final_document urlsplit urldefrag final requested uri ≡ returned tt
    → IsSameDocument urlsplit urldefrag final requested uri
unfolding check_final_document
check_final_document-IsSameDocument urlsplit urldefrag final requested none e =
    check_location-IsSameSite (urlsplit requested) (urlsplit final) (then_check-parts _ _ e).0
check_final_document-IsSameDocument urlsplit urldefrag final requested (some uri) e =
    let (first, second) = then_check-parts _ _ e in
    let (third, fourth) = then_check-parts _ _ second in
    (
      check_location-IsSameSite (urlsplit requested) (urlsplit final) first,
      check_location-IsSameSite (urlsplit requested) (urlsplit uri) third,
      eq_of_test _ _ (fragment-same _ fourth),
    )

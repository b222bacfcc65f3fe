-- ===== src/Fetching/Challenge.antt =====
-- packages/autolycos/src/autolycos/challenge.py: what a page gives away of a block. `str.lower` is a
-- parameter.
use kerdoos.Prelude.{
  ℕ, String, Bool, true, false, ◌||◌, Option, none, some, List, [], ◌∷◌, nat_eq, ltb, some_in,
  if◌then◌else◌, is_some,
}
use kerdoos.Egress.Texts.{size, after}

-- `part in s`
unfoldable pub contains : String → String → Bool
unfolding after
contains part String.[] = is_some (after part String.[])
contains part (String.◌∷◌ c s) = is_some (after part (String.◌∷◌ c s)) || contains part s

abbrev pub challenge_markers : List String
challenge_markers =
    "just a moment" ∷ "cf-chl-" ∷ "_cf_chl_opt" ∷ "attention required" ∷ "px-captcha" ∷ "datadome"
    ∷ "_incapsula_" ∷ "sec-cpt" ∷ "scf-akamai" ∷ "sec-if-cpt" ∷ "validatecaptcha"
    ∷ "captcha-wall-index" ∷ "account-verification" ∷ "micro-landing-container"
    ∷ "micro-landing-title" ∷ []

abbrev pub min_plausible_bytes : ℕ
min_plausible_bytes = 1500

unfoldable pub looks_challenged : (String → String) → ℕ → String → Bool
unfolding contains some_in size
looks_challenged lower status text =
    if nat_eq status 403 || nat_eq status 429 || nat_eq status 503
    then true
    else if some_in (λ marker. contains marker (lower text)) challenge_markers
    then true
    else ltb (size text) min_plausible_bytes

abbrev pub at_error_url : Option String → Bool
at_error_url none = false
at_error_url (some url) = is_some (after "chrome-error://" url)

unfoldable pub looks_like_chrome_error_page : Option String → String → Bool
unfolding contains after
looks_like_chrome_error_page current_url text =
    if at_error_url current_url then true else contains "\"errorCode\":\"ERR_" text

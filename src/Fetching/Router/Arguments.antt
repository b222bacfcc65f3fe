-- ===== src/Fetching/Router/Arguments.antt =====
-- The settings of a tier are the arguments of the constructor of StaticRouter
-- (packages/autolycos/src/autolycos/router.py).
use kerdoos.Prelude.{
  ◌≡◌, refl, ap, ◌∙◌, String, Bool, true, false, ◌&&◌, Option, none, some, List, [], ◌∷◌, ◌==◌,
  get_or, if◌then◌else◌, eq_of_test,
}
use kerdoos.Prelude.Dict.{get, put, get-put}
use kerdoos.Fetching.Router.{
  Setting, Given, RouterSettings, given_by, set_kwarg, set_value, set_kwargs, extra_kwargs,
}

abbrev Kwargs : Type 0
Kwargs = List (String × List (String × Setting))

-- The value of a setting of a tier.
abbrev setting : String → String → Kwargs → Option Setting
setting tier name kwargs = get name (get_or (get tier kwargs) [])

abbrev pick : Option Setting → Option Setting → Option Setting
pick none before = before
pick (some v) before = some v

pick-none : (v : Option Setting) → pick v none ≡ v
pick-none none = refl
pick-none (some v) = refl

-- The last argument of a tier and a name that is given.
abbrev last_given : String → String → List Given → Option Setting → Option Setting
last_given tier name [] before = before
last_given tier name (g ∷ gs) before =
    last_given tier name gs
      (if (g.tier == tier) && (g.name == name) then pick g.value before else before)

setting-set_kwarg :
    (t n tier name : String) (v : Setting) (kwargs : Kwargs)
    → setting t n (set_kwarg tier name v kwargs)
      ≡ (if (tier == t) && (name == n) then some v else setting t n kwargs)
setting-set_kwarg t n tier name v kwargs =
    ap (λ o. get n (get_or o [])) (get-put t tier (put name v (get_or (get tier kwargs) [])) kwargs)
    ∙ by_tier (tier == t) refl
  where
    by_tier :
        (b : Bool)
        → (tier == t) ≡ b
        → get n (
            get_or (if b then some (put name v (get_or (get tier kwargs) [])) else get t kwargs) [])
          ≡ (if b && (name == n) then some v else setting t n kwargs)
    by_tier false e = refl
    by_tier true e =
        get-put n name v (get_or (get tier kwargs) [])
        ∙ ap (λ x. if name == n then some v else setting x n kwargs) (eq_of_test tier t e)

setting-set_value :
    (t n tier name : String) (o : Option Setting) (kwargs : Kwargs)
    → setting t n (set_value tier name o kwargs)
      ≡ (if (tier == t) && (name == n) then pick o (setting t n kwargs) else setting t n kwargs)
setting-set_value t n tier name (some v) kwargs = setting-set_kwarg t n tier name v kwargs
setting-set_value t n tier name none kwargs = same ((tier == t) && (name == n))
  where
    same : (b : Bool) → setting t n kwargs ≡ (if b then setting t n kwargs else setting t n kwargs)
    same true = refl
    same false = refl

setting-set_kwargs :
    (t n : String) (gs : List Given) (kwargs : Kwargs)
    → setting t n (set_kwargs gs kwargs) ≡ last_given t n gs (setting t n kwargs)
unfolding set_kwargs
setting-set_kwargs t n [] kwargs = refl
setting-set_kwargs t n (g ∷ gs) kwargs =
    setting-set_kwargs t n gs (set_value g.tier g.name g.value kwargs)
    ∙ ap (last_given t n gs) (setting-set_value t n g.tier g.name g.value kwargs)

setting_of :
    (a : RouterSettings) (t n : String)
    → setting t n (extra_kwargs a) ≡ last_given t n (given_by a) none
unfolding extra_kwargs get
setting_of a t n = setting-set_kwargs t n (given_by a) []

-- What the factory of a tier is given, by the arguments of the constructor: those of its own tier
-- under the factory's names, and none for the tiers without a browser.
abbrev pub HasSettings : RouterSettings → String → List (String × Setting) → Type 0
HasSettings a name s =
    (name ≡ "uc"
      → (get "launch_timeout_seconds" s ≡ a.uc_launch_timeout_seconds)
        × (get "orphan_sweep_delay_seconds" s ≡ a.uc_orphan_sweep_delay_seconds)
        × (get "fetch_timeout_seconds" s ≡ a.uc_fetch_timeout_seconds))
    × (name ≡ "browser"
        → (get "launch_timeout_seconds" s ≡ a.browser_launch_timeout_seconds)
          × (get "fetch_timeout_seconds" s ≡ a.browser_fetch_timeout_seconds)
          × (get "max_abandoned_fetches" s ≡ a.browser_max_abandoned_fetches))
    × (name ≡ "camoufox"
        → (get "launch_timeout_seconds" s ≡ a.camoufox_launch_timeout_seconds)
          × (get "nav_timeout_seconds" s ≡ a.camoufox_nav_timeout_seconds)
          × (get "fetch_timeout_seconds" s ≡ a.camoufox_fetch_timeout_seconds)
          × (get "max_abandoned_fetches" s ≡ a.camoufox_max_abandoned_fetches)
          × (get "executable_path" s ≡ a.camoufox_executable_path)
          × (get "expected_version" s ≡ a.camoufox_expected_version))
    × (name ≡ "http" → (n : String) → get n s ≡ none)
    × (name ≡ "tls" → (n : String) → get n s ≡ none)

tier_settings :
    (a : RouterSettings) (name tier : String)
    → name ≡ tier
    → (n : String) → (v : Option Setting) → setting tier n (extra_kwargs a) ≡ v
    → get n (get_or (get name (extra_kwargs a)) []) ≡ v
tier_settings a name tier e n v h = ap (λ t. setting t n (extra_kwargs a)) e ∙ h

pub extra_kwargs-HasSettings :
    (a : RouterSettings) (name : String)
    → HasSettings a name (get_or (get name (extra_kwargs a)) [])
extra_kwargs-HasSettings a name = (
  (λ e. (
    tier_settings a name "uc" e "launch_timeout_seconds" a.uc_launch_timeout_seconds
        (setting_of a "uc" "launch_timeout_seconds" ∙ pick-none a.uc_launch_timeout_seconds),
    tier_settings a name "uc" e "orphan_sweep_delay_seconds" a.uc_orphan_sweep_delay_seconds (
        setting_of a "uc" "orphan_sweep_delay_seconds" ∙ pick-none a.uc_orphan_sweep_delay_seconds),
    tier_settings a name "uc" e "fetch_timeout_seconds" a.uc_fetch_timeout_seconds
        (setting_of a "uc" "fetch_timeout_seconds" ∙ pick-none a.uc_fetch_timeout_seconds),
  )),
  (λ e. (
    tier_settings a name "browser" e "launch_timeout_seconds" a.browser_launch_timeout_seconds (
        setting_of a "browser" "launch_timeout_seconds"
        ∙ pick-none a.browser_launch_timeout_seconds),
    tier_settings a name "browser" e "fetch_timeout_seconds" a.browser_fetch_timeout_seconds (
        setting_of a "browser" "fetch_timeout_seconds" ∙ pick-none a.browser_fetch_timeout_seconds),
    tier_settings a name "browser" e "max_abandoned_fetches" a.browser_max_abandoned_fetches (
        setting_of a "browser" "max_abandoned_fetches" ∙ pick-none a.browser_max_abandoned_fetches),
  )),
  (λ e. (
    tier_settings a name "camoufox" e "launch_timeout_seconds" a.camoufox_launch_timeout_seconds (
        setting_of a "camoufox" "launch_timeout_seconds"
        ∙ pick-none a.camoufox_launch_timeout_seconds),
    tier_settings a name "camoufox" e "nav_timeout_seconds" a.camoufox_nav_timeout_seconds
        (setting_of a "camoufox" "nav_timeout_seconds" ∙ pick-none a.camoufox_nav_timeout_seconds),
    tier_settings a name "camoufox" e "fetch_timeout_seconds" a.camoufox_fetch_timeout_seconds (
        setting_of a "camoufox" "fetch_timeout_seconds"
        ∙ pick-none a.camoufox_fetch_timeout_seconds),
    tier_settings a name "camoufox" e "max_abandoned_fetches" a.camoufox_max_abandoned_fetches (
        setting_of a "camoufox" "max_abandoned_fetches"
        ∙ pick-none a.camoufox_max_abandoned_fetches),
    tier_settings a name "camoufox" e "executable_path" a.camoufox_executable_path
        (setting_of a "camoufox" "executable_path" ∙ pick-none a.camoufox_executable_path),
    tier_settings a name "camoufox" e "expected_version" a.camoufox_expected_version
        (setting_of a "camoufox" "expected_version" ∙ pick-none a.camoufox_expected_version),
  )),
  (λ e n. tier_settings a name "http" e n none (setting_of a "http" n)),
  (λ e n. tier_settings a name "tls" e n none (setting_of a "tls" n)),
)

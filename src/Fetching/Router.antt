-- ===== src/Fetching/Router.antt =====
-- packages/autolycos/src/autolycos/router.py: StaticRouter and the tiers it knows. What `find_spec` and
-- the readiness check of an adapter answer is given.
pub mod Arguments
pub mod Cache
use kerdoos.Prelude.{
  ℕ, suc, String, Bool, true, false, not, ◌&&◌, ◌||◌, Option, none, some, List, [], ◌∷◌, ◌==◌,
  some_in, is_some, get_or, if◌then◌else◌,
}
use kerdoos.Prelude.Dict.{get, put}
use kerdoos.Scrape.Domain.{Exc, other, Outcome, returned, raised}

-- `_TIER_MODULES`: the optional module of each tier; `_FACTORIES` has the same keys.
abbrev pub tier_modules : List (String × Option String)
tier_modules =
    ("http", none)
    ∷ ("tls", some "curl_cffi")
    ∷ ("browser", some "patchright")
    ∷ ("uc", some "seleniumbase")
    ∷ ("camoufox", some "camoufox")
    ∷ []

-- A time counts in milliseconds.
pub data Setting : Type 0 where
  number : ℕ → Setting
  path : String → Setting

-- One keyword argument of the constructor: its tier, the name the tier's factory takes, its value.
pub record Given : Type 0 where
  pub tier : String
  pub name : String
  pub value : Option Setting

abbrev pub set_kwarg :
    String
    → String
    → Setting
    → List (String × List (String × Setting))
    → List (String × List (String × Setting))
set_kwarg tier name v kwargs = put tier (put name v (get_or (get tier kwargs) [])) kwargs

abbrev pub set_value :
    String
    → String
    → Option Setting
    → List (String × List (String × Setting))
    → List (String × List (String × Setting))
set_value tier name none kwargs = kwargs
set_value tier name (some v) kwargs = set_kwarg tier name v kwargs

-- `self._extra_kwargs.setdefault(tier, {})[name] = value`, for each argument that is not None.
unfoldable pub set_kwargs :
    List Given → List (String × List (String × Setting)) → List (String × List (String × Setting))
unfolding get put
set_kwargs [] kwargs = kwargs
set_kwargs (g ∷ gs) kwargs = set_kwargs gs (set_value g.tier g.name g.value kwargs)

-- The settings that the constructor takes; each is None unless it is given.
pub record RouterSettings : Type 0 where
  pub uc_launch_timeout_seconds : Option Setting
  pub browser_launch_timeout_seconds : Option Setting
  pub uc_orphan_sweep_delay_seconds : Option Setting
  pub browser_fetch_timeout_seconds : Option Setting
  pub browser_max_abandoned_fetches : Option Setting
  pub uc_fetch_timeout_seconds : Option Setting
  pub camoufox_launch_timeout_seconds : Option Setting
  pub camoufox_nav_timeout_seconds : Option Setting
  pub camoufox_fetch_timeout_seconds : Option Setting
  pub camoufox_max_abandoned_fetches : Option Setting
  pub camoufox_executable_path : Option Setting
  pub camoufox_expected_version : Option Setting

-- The arguments with their tiers, in the order of the constructor.
abbrev pub given_by : RouterSettings → List Given
given_by a =
    record { tier = "uc"; name = "launch_timeout_seconds"; value = a.uc_launch_timeout_seconds }
    ∷ record {
      tier = "browser";
      name = "launch_timeout_seconds";
      value = a.browser_launch_timeout_seconds;
    }
    ∷ record {
      tier = "uc";
      name = "orphan_sweep_delay_seconds";
      value = a.uc_orphan_sweep_delay_seconds;
    }
    ∷ record {
      tier = "browser";
      name = "fetch_timeout_seconds";
      value = a.browser_fetch_timeout_seconds;
    }
    ∷ record {
      tier = "browser";
      name = "max_abandoned_fetches";
      value = a.browser_max_abandoned_fetches;
    }
    ∷ record { tier = "uc"; name = "fetch_timeout_seconds"; value = a.uc_fetch_timeout_seconds }
    ∷ record {
      tier = "camoufox";
      name = "launch_timeout_seconds";
      value = a.camoufox_launch_timeout_seconds;
    }
    ∷ record {
      tier = "camoufox";
      name = "nav_timeout_seconds";
      value = a.camoufox_nav_timeout_seconds;
    }
    ∷ record {
      tier = "camoufox";
      name = "fetch_timeout_seconds";
      value = a.camoufox_fetch_timeout_seconds;
    }
    ∷ record {
      tier = "camoufox";
      name = "max_abandoned_fetches";
      value = a.camoufox_max_abandoned_fetches;
    }
    ∷ record { tier = "camoufox"; name = "executable_path"; value = a.camoufox_executable_path }
    ∷ record { tier = "camoufox"; name = "expected_version"; value = a.camoufox_expected_version }
    ∷ []

unfoldable pub extra_kwargs : RouterSettings → List (String × List (String × Setting))
unfolding set_kwargs
extra_kwargs a = set_kwargs (given_by a) []

-- The fetcher that a factory builds; `serial` tells the instances apart.
pub record Tool : Type 0 where
  pub serial : ℕ
  pub tier : String
  pub subresource_domains : List String
  pub settings : List (String × Setting)

pub record Cached : Type 0 where
  pub tier : String
  pub domains : List String
  pub tool : Tool

pub record StaticRouter : Type 0 where
  pub kwargs : List (String × List (String × Setting))
  pub cache : List Cached
  pub built : ℕ

-- `frozenset(a) == frozenset(b)`
abbrev is_in : List String → String → Bool
is_in ds d = some_in (λ x. x == d) ds

abbrev pub same_set : List String → List String → Bool
same_set a b = not (some_in (λ d. not (is_in b d)) a) && not (some_in (λ d. not (is_in a d)) b)

abbrev pub is_keyed : String → List String → Cached → Bool
is_keyed name domains c = (c.tier == name) && same_set c.domains domains

unfoldable pub cached_tool : String → List String → List Cached → Option Tool
unfolding some_in
cached_tool name domains [] = none
cached_tool name domains (c ∷ cs) =
    if is_keyed name domains c then some c.tool else cached_tool name domains cs

abbrev pub new_tool : String → List String → StaticRouter → Tool
new_tool name domains r = record {
  serial = r.built;
  tier = name;
  subresource_domains = domains;
  settings = get_or (get name r.kwargs) [];
}

abbrev pub hit_or_build :
    String → List String → StaticRouter → Option Tool → StaticRouter × Outcome Tool
hit_or_build name domains r (some tool) = (r, returned tool)
hit_or_build name domains r none =
    let tool = new_tool name domains r in
    (
      record r {
        cache = record { tier = name; domains = domains; tool = tool } ∷ r.cache;
        built = suc r.built;
      },
      returned tool,
    )

unfoldable pub select : String → List String → StaticRouter → StaticRouter × Outcome Tool
unfolding cached_tool get
select name domains r =
    if not (is_some (get name tier_modules))
    then (r, raised (other "UnknownFetcherError" name))
    else hit_or_build name domains r (cached_tool name domains r.cache)

unfoldable pub new_router : RouterSettings → StaticRouter
unfolding extra_kwargs
new_router a = record { kwargs = extra_kwargs a; cache = []; built = 0 }

abbrev available_by : (String → Bool) → (String → Bool) → String → Option (Option String) → Bool
available_by find_spec ready name none = false
available_by find_spec ready name (some none) = true
available_by find_spec ready name (some (some module_name)) =
    if not (find_spec module_name) then false else if name == "camoufox" then ready name else true

-- `_tier_available`; only camoufox has a readiness check.
unfoldable pub tier_available : (String → Bool) → (String → Bool) → String → Bool
unfolding get
tier_available find_spec ready name = available_by find_spec ready name (get name tier_modules)

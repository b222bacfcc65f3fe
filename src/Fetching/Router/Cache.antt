-- ===== src/Fetching/Router/Cache.antt =====
-- The cache of StaticRouter (packages/autolycos/src/autolycos/router.py) against a router that has
-- none and builds what is asked for.
use Prim.{tt, absurd}
use mathlib.Core.Path.{subst}
use kerdoos.Prelude.{
  ◌≡◌, refl, sym, ap, ◌∙◌, String, Bool, true, false, not, Option, none, some, List, [], ◌∷◌, ◌==◌,
  All, some_in, is_some, get_or, if◌then◌else◌, arith, eq_of_test, eq_refl, first_if,
}
use kerdoos.Prelude.Dict.{get}
use kerdoos.Scrape.Domain.{other, Outcome, returned, raised}
use kerdoos.Fetching.Router.Arguments.{HasSettings, extra_kwargs-HasSettings}
use kerdoos.Fetching.Router.{
  Setting, RouterSettings, extra_kwargs, Tool, Cached, StaticRouter, tier_modules, same_set,
  is_keyed, cached_tool, new_tool, hit_or_build, select, new_router,
}

-- What was asked for, in the order of the calls.
abbrev pub after_selects : List (String × List String) → StaticRouter → StaticRouter
after_selects [] r = r
after_selects (q ∷ qs) r = after_selects qs (select q.0 q.1 r).0

-- A tool of the tier, for the domains, with the settings of the tier.
abbrev pub IsFor : List (String × List (String × Setting)) → String → List String → Tool → Type 0
IsFor kwargs name domains t =
    (t.tier ≡ name)
    × (same_set t.subresource_domains domains ≡ true)
    × (t.settings ≡ get_or (get name kwargs) [])

-- Every entry of the cache is the tool that its key asks for.
abbrev IsRight : List (String × List (String × Setting)) → Cached → Type 0
IsRight kwargs c =
    (c.tool.tier ≡ c.tier)
    × (c.tool.subresource_domains ≡ c.domains)
    × (c.tool.settings ≡ get_or (get c.tier kwargs) [])

in_longer :
    (xs ys : List String)
    → ((d : String) → some_in (λ x. x == d) xs ≡ true → some_in (λ x. x == d) ys ≡ true)
    → some_in (λ d. not (some_in (λ x. x == d) ys)) xs ≡ false
unfolding some_in
in_longer [] ys f = refl
in_longer (x ∷ xs) ys f =
    ground
      (arith, f x (ground (arith, eq_refl x)), in_longer xs ys (λ d e. f d (ground (arith, e))))

same_set_refl : (ds : List String) → same_set ds ds ≡ true
same_set_refl ds = ground (arith, in_longer ds ds (λ d e. e))

right_tool :
    (kwargs : List (String × List (String × Setting))) (name : String) (domains : List String)
    (cs : List Cached) (t : Tool)
    → All (IsRight kwargs) cs
    → cached_tool name domains cs ≡ some t
    → IsFor kwargs name domains t
unfolding cached_tool
right_tool kwargs name domains [] t h e = absurd cc
right_tool kwargs name domains (c ∷ cs) t h e =
    hit_or_later (is_keyed name domains c) refl e (right_tool kwargs name domains cs t h.1)
  where
    hit_or_later :
        (b : Bool)
        → is_keyed name domains c ≡ b
        → (if b then some c.tool else cached_tool name domains cs) ≡ some t
        → (cached_tool name domains cs ≡ some t → IsFor kwargs name domains t)
        → IsFor kwargs name domains t
    hit_or_later false k g next = next g
    hit_or_later true k g next =
        let same : c.tool ≡ t = cc in
        let tier : c.tier ≡ name = eq_of_test c.tier name (ground (arith, k)) in
        subst (IsFor kwargs name domains) same (
          h.0.0 ∙ tier,
          ap (λ ds. same_set ds domains) h.0.1 ∙ ground (arith, k),
          h.0.2 ∙ ap (λ n. get_or (get n kwargs) []) tier,
        )

-- The settings of the router stay, and its cache stays right.
abbrev Kept : StaticRouter → StaticRouter → Type 0
Kept r r' = (r'.kwargs ≡ r.kwargs) × All (IsRight r.kwargs) r'.cache

built_or_hit :
    (name : String) (domains : List String) (r : StaticRouter) (o : Option Tool)
    → All (IsRight r.kwargs) r.cache
    → Kept r (hit_or_build name domains r o).0
built_or_hit name domains r (some t) h = (refl, h)
built_or_hit name domains r none h = (refl, ((refl, refl, refl), h))

select-Kept :
    (name : String) (domains : List String) (r : StaticRouter)
    → All (IsRight r.kwargs) r.cache
    → Kept r (select name domains r).0
unfolding select
select-Kept name domains r h =
    first_if (Kept r) (not (is_some (get name tier_modules))) _ _ (λ e. (refl, h))
      (λ e. built_or_hit name domains r (cached_tool name domains r.cache) h)

after_selects-Kept :
    (qs : List (String × List String)) (kwargs : List (String × List (String × Setting)))
    (r : StaticRouter)
    → r.kwargs ≡ kwargs
    → All (IsRight kwargs) r.cache
    → ((after_selects qs r).kwargs ≡ kwargs) × All (IsRight kwargs) (after_selects qs r).cache
after_selects-Kept [] kwargs r e h = (e, h)
after_selects-Kept (q ∷ qs) kwargs r e h =
    let k = select-Kept q.0 q.1 r (subst (λ x. All (IsRight x) r.cache) (sym e) h) in
    after_selects-Kept qs kwargs (select q.0 q.1 r).0 (k.0 ∙ e)
      (subst (λ x. All (IsRight x) (select q.0 q.1 r).0.cache) e k.1)

-- An answer for a name and domains, which the router repeats when it is asked again.
abbrev pub Answers : String → List String → StaticRouter → StaticRouter × Outcome Tool → Type 0
Answers name domains r answer =
    (t : Tool) × (answer.1 ≡ returned t)
    × IsFor r.kwargs name domains t
    × ((select name domains answer.0).1 ≡ returned t)

again :
    (name : String) (domains : List String) (r : StaticRouter) (t : Tool)
    → is_some (get name tier_modules) ≡ true
    → cached_tool name domains r.cache ≡ some t
    → (select name domains r).1 ≡ returned t
unfolding select
again name domains r t known e =
    ap
      (λ b.
        (if not b
          then (r, raised (other "UnknownFetcherError" name))
          else hit_or_build name domains r (cached_tool name domains r.cache)).1)
      known
    ∙ ap (λ o. (hit_or_build name domains r o).1) e

answered :
    (name : String) (domains : List String) (r : StaticRouter) (o : Option Tool)
    → is_some (get name tier_modules) ≡ true
    → All (IsRight r.kwargs) r.cache
    → cached_tool name domains r.cache ≡ o
    → Answers name domains r (hit_or_build name domains r o)
answered name domains r (some t) known h e =
    (t, refl, right_tool r.kwargs name domains r.cache t h e, again name domains r t known e)
answered name domains r none known h e = (
  new_tool name domains r,
  refl,
  (refl, same_set_refl domains, refl),
  again name domains (hit_or_build name domains r none).0 (new_tool name domains r) known
      (unfold cached_tool in ground (arith, eq_refl name, same_set_refl domains)),
)

-- An answer for a name and domains, with the settings that the constructor was given for the tier.
abbrev pub Serves : RouterSettings → String → List String → StaticRouter × Outcome Tool → Type 0
Serves a name domains answer =
    (t : Tool) × (answer.1 ≡ returned t)
    × (t.tier ≡ name)
    × (same_set t.subresource_domains domains ≡ true)
    × HasSettings a name t.settings
    × ((select name domains answer.0).1 ≡ returned t)

Answers-Serves :
    (a : RouterSettings) (name : String) (domains : List String) (r : StaticRouter)
    (answer : StaticRouter × Outcome Tool)
    → r.kwargs ≡ extra_kwargs a
    → Answers name domains r answer
    → Serves a name domains answer
Answers-Serves a name domains r answer k (t, e, f, g) = (
  t,
  e,
  f.0,
  f.1,
  subst (HasSettings a name) (ap (λ x. get_or (get name x) []) (sym k) ∙ sym f.2)
      (extra_kwargs-HasSettings a name),
  g,
)

-- The router refines one without a cache: after any calls, a known tier is answered with a tool of
-- that tier, for the same set of domains, with each setting that the constructor was given for that
-- tier under the name that its factory takes; and asked once more it gives the same instance.
pub select-Answers :
    (a : RouterSettings) (qs : List (String × List String)) (name : String) (domains : List String)
    → is_some (get name tier_modules) ≡ true
    → Serves a name domains (select name domains (after_selects qs (new_router a)))
unfolding select new_router
select-Answers a qs name domains known =
    let r = after_selects qs (new_router a) in
    let (k, h) = after_selects-Kept qs (new_router a).kwargs (new_router a) refl tt in
    Answers-Serves a name domains r (select name domains r) k (
      subst (Answers name domains r)
        (ap
          (λ b.
            if not b
            then (r, raised (other "UnknownFetcherError" name))
            else hit_or_build name domains r (cached_tool name domains r.cache))
          (sym known))
        (answered name domains r (cached_tool name domains r.cache) known
          (subst (λ x. All (IsRight x) r.cache) (sym k) h) refl))

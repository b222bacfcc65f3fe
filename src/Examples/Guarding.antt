-- ===== src/Examples/Guarding.antt =====
-- The guards of the connections and of the browsers at concrete inputs.
pub mod Wire
use Prim.{tt, absurd}
use Prim.Native.String
use kerdoos.Prelude.{
  ◌≡◌, ◌+◌, refl, ◌≤◌, ◌<◌, ℕ, suc, zero, String, none, some, true, false, List, [], ◌∷◌, ◌==◌,
  some_in, arith,
}
use kerdoos.Scrape.Domain.{returned}
use kerdoos.Egress.Safety.{domain_allowed, allowed_schemes, validate_target, validate_source_url}
use kerdoos.Egress.Safety.Domains.{IsCovered, domain_allowed-IsCovered}
use kerdoos.Egress.Safety.Pins.{IsPinned}
use kerdoos.Egress.Safety.Targets.{validate_target-IsPinned}
use kerdoos.Egress.Texts.{rstrip}
use kerdoos.Egress.Proxy.{Handled, handle}
use kerdoos.Egress.Proxy.Guard.{AreGuarded, handle-AreGuarded}
use kerdoos.Fetching.Gate.{
  Attempt, locks, busy, Opened, Scan, holds, scan, acquire_slot, takes_permit, gets_slot,
  fails_release, Act, loses_slot, acts, new_gate,
}
use kerdoos.Fetching.Gate.Permits.{total, failures, acts-bounded}
use kerdoos.Fetching.Gate.Waiting.{IsSettled, acquire_slot-ends, acquire_slot-takes}
use kerdoos.Fetching.Router.{RouterSettings, StaticRouter, number, new_router, select}
use kerdoos.Fetching.Router.Cache.{after_selects, Serves, select-Answers}
use kerdoos.Examples.Guarding.Wire.{net, shops, is_shop, target, dial, request}

validate_target-IsPinned_example :
    (some_in (λ s. s == "https") allowed_schemes ≡ true)
    × (is_shop "kabum.com.br" ≡ true)
    × IsPinned net "kabum.com.br" 443 "93.184.216.34"
    × (validate_source_url net "https://kabum.com.br/1" is_shop ≡ returned tt)
unfolding validate_target
validate_target-IsPinned_example =
    validate_target-IsPinned net "https://kabum.com.br/1" is_shop target refl

handle-AreGuarded_example :
    (h : Handled) × (handle net is_shop dial true request ≡ some h)
    × AreGuarded net is_shop h.effects
handle-AreGuarded_example = handle-AreGuarded net is_shop dial true request

-- The second slot is free from the third round on.
abbrev freed : ℕ → ℕ → Attempt
freed zero i = busy
freed (suc zero) i = busy
freed (suc (suc r)) zero = busy
freed (suc (suc r)) (suc i) = locks

abbrev ticks : ℕ → ℕ
ticks r = r

acquire_slot-ends_example :
    (s : Opened Scan) × (acquire_slot 2 freed ticks (some 1) 2 0 0 ≡ some s) × IsSettled 0 s
acquire_slot-ends_example = acquire_slot-ends 2 freed ticks 1 1 0 (omega arith)

acquire_slot-takes_example : acquire_slot 2 freed ticks none 3 0 0 ≡ some (1, holds 1)
acquire_slot-takes_example =
    acquire_slot-takes 2 freed ticks none 2 0 1 in_vain (λ r l. refl) (omega arith) first_busy refl
  where
    in_vain : (r : ℕ) → r < 2 → (j : ℕ) → 0 ≤ j → j < 0 + 2 → freed r j ≡ busy
    in_vain zero l j m n = refl
    in_vain (suc zero) l j m n = refl
    in_vain (suc (suc r)) l j m n = absurd (omega (arith, l))

    first_busy : (j : ℕ) → 0 ≤ j → j < 0 + 1 → freed 2 j ≡ busy
    first_busy zero m n = refl
    first_busy (suc j) m n = absurd (omega (arith, n))

abbrev some_acts : List Act
some_acts = takes_permit ∷ gets_slot ∷ takes_permit ∷ loses_slot ∷ fails_release ∷ []

acts-bounded_example :
    ((acts some_acts (new_gate 2)).holding ≤ 2)
    × (total (acts some_acts (new_gate 2)) ≤ 2)
    × (2 ≤ total (acts some_acts (new_gate 2)) + failures some_acts)
acts-bounded_example = acts-bounded 2 some_acts

abbrev settings : RouterSettings
settings = record {
  uc_launch_timeout_seconds = some (number 9);
  browser_launch_timeout_seconds = none;
  uc_orphan_sweep_delay_seconds = none;
  browser_fetch_timeout_seconds = some (number 60);
  browser_max_abandoned_fetches = none;
  uc_fetch_timeout_seconds = none;
  camoufox_launch_timeout_seconds = none;
  camoufox_nav_timeout_seconds = none;
  camoufox_fetch_timeout_seconds = none;
  camoufox_max_abandoned_fetches = none;
  camoufox_executable_path = none;
  camoufox_expected_version = none;
}

abbrev asked : StaticRouter
asked = after_selects (("http", []) ∷ ("uc", "cdn.br" ∷ []) ∷ []) (new_router settings)

select-Answers_example : Serves settings "uc" ("cdn.br" ∷ []) (select "uc" ("cdn.br" ∷ []) asked)
unfolding kerdoos.Prelude.Dict.get
select-Answers_example =
    select-Answers settings (("http", []) ∷ ("uc", "cdn.br" ∷ []) ∷ []) "uc" ("cdn.br" ∷ []) refl

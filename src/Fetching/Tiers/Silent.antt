-- ===== src/Fetching/Tiers/Silent.antt =====
-- When the checks of packages/autolycos/src/autolycos/tiers.py report nothing.
use Prim.{absurd}
use kerdoos.Prelude.{
  ℕ, ◌+◌, ◌<◌, ◌≡◌, ◌↔◌, refl, Bool, true, false, List, [], ◌∷◌, ◌++◌, leb, if◌then◌else◌, arith,
}
use kerdoos.Fetching.Tiers.{BudgetTerm, total_seconds, check}

two_tests :
    {A : Type 0} (b c : Bool) (x y : A)
    → ((if b then x ∷ [] else []) ++ (if c then y ∷ [] else []) ≡ []) ↔ ((b ≡ false) × (c ≡ false))
two_tests true c x y = ((λ e. absurd cc), (λ h. absurd cc))
two_tests false true x y = ((λ e. absurd cc), (λ h. absurd cc))
two_tests false false x y = ((λ e. (refl, refl)), (λ h. refl))

-- A check reports nothing exactly when the fetch timeout is above the sum of the timeouts that it
-- wraps, and the fetch with its cleanup ends before the acquire timeout.
pub check-silent :
    (fetch acquire : ℕ) (floor_terms cleanup_terms : List BudgetTerm)
    → (check fetch acquire floor_terms cleanup_terms ≡ [])
      ↔ ((total_seconds floor_terms < fetch) × (fetch + total_seconds cleanup_terms < acquire))
unfolding check
check-silent fetch acquire floor_terms cleanup_terms =
    let h =
      two_tests (leb fetch (total_seconds floor_terms))
        (leb acquire (fetch + total_seconds cleanup_terms)) _ _ in
    (
      (λ e. (ground (arith, h.0 e), ground (arith, h.0 e))),
      (λ p. h.1 (ground (arith, p), ground (arith, p))),
    )

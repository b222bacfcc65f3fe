-- ===== src/Settings/Budgets/Fits.antt =====
-- `_safe_uc_orphan_sweep_delay` of packages/kerdoos/src/kerdoos/config.py.
use kerdoos.Prelude.{ℕ, ◌+◌, ◌*◌, ◌<◌, ◌↔◌, ◌⊎◌, arith}
use kerdoos.Settings.Budgets.{safe_uc_orphan_sweep_delay}

-- A launch that times out and then sleeps the clamped delay ends before the acquire timeout exactly
-- when it does so with the delay that was asked for, or when the launch timeout leaves more than 100
-- milliseconds.
pub safe_uc_orphan_sweep_delay-fits :
    (sweep_delay launch acquire : ℕ)
    → ((2 * launch + safe_uc_orphan_sweep_delay sweep_delay launch acquire < 2 * acquire)
        ↔ ((launch + sweep_delay < acquire) ⊎ (launch + 100 < acquire)))
unfolding safe_uc_orphan_sweep_delay
safe_uc_orphan_sweep_delay-fits sweep_delay launch acquire = ground arith

-- ===== src/Digest/Sender/Timeout.antt =====
-- `_safe_smtp_timeout` of packages/kerdoos/src/kerdoos/digest/factory.py.
use kerdoos.Prelude.{ℕ, ◌<◌, ◌≡◌, true, ltb, arith, split_if}
use kerdoos.Settings.{Num}
use kerdoos.Digest.Sender.{is_between, half_or_tenth, safe_smtp_timeout}

half_is_between : (n : ℕ) → 0 < n → is_between n (half_or_tenth n) ≡ true
half_is_between n h =
    split_if (λ v. is_between n v ≡ true) (ltb 0 n) _ _ (λ e. ground (arith, h))
      (λ e. ground (arith, h, e))

-- Whatever number is configured, infinities, negative numbers and `nan` included: the timeout of
-- the socket is strictly between zero and the reaper's timeout, where that is positive.
pub safe_smtp_timeout-is_between :
    (smtp_timeout : Num) (reaper_timeout : ℕ)
    → 0 < reaper_timeout
    → is_between reaper_timeout (safe_smtp_timeout smtp_timeout reaper_timeout) ≡ true
unfolding safe_smtp_timeout
safe_smtp_timeout-is_between t n h =
    split_if (λ v. is_between n v ≡ true) (is_between n t) _ _ (λ e. e) (λ e. half_is_between n h)

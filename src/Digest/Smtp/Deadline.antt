-- ===== src/Digest/Smtp/Deadline.antt =====
-- The deadline of `SmtpDigestSender.send` (packages/kerdoos/src/kerdoos/digest/smtp_sender.py).
use Prim.{tt}
use kerdoos.Prelude.{
  ℕ, zero, suc, ◌+◌, ◌≤◌, ◌≡◌, false, Option, none, some, List, [], ◌∷◌, ◌++◌, ltb, arith, split_if,
  either_if, All,
}
use kerdoos.Digest.Smtp.{
  SmtpSettings, Once, sent, retryable, raises, send_smtp_once, Turn, Event, attempts, sleeps,
  Answer, budget_per_attempt, is_spent, backoff, slept, last_round, round, retry_rounds,
  send_message, deadline_from,
}

-- Before the deadline, the whole worst case of an attempt included.
abbrev pub Fits : Option ℕ → ℕ → ℕ → Type 0
Fits none budget now = Unit {0}
Fits (some deadline) budget now = now + budget ≤ deadline

fits :
    (deadline : Option ℕ) (budget now : ℕ)
    → is_spent deadline budget now ≡ false
    → Fits deadline budget now
fits none budget now h = tt
fits (some d) budget now h = ground arith

module _ (m : SmtpSettings) (deadline : Option ℕ) (turn : ℕ → Turn) where
  -- An attempt after the first is made when its budget fits; a sleep leaves room for an attempt.
  abbrev pub InTime : Event → Type 0
  InTime (attempts zero) = Unit {0}
  InTime (attempts (suc r)) = Fits deadline (budget_per_attempt m) (turn r).woken_at
  InTime (sleeps r b) = Fits deadline (budget_per_attempt m) ((turn r).failed_at + b)

  -- What is known before the r-th round.
  abbrev CanStart : ℕ → Type 0
  CanStart r = InTime (attempts r)

  slept-InTime :
      (r : ℕ) (es : List Event)
      → is_spent deadline (budget_per_attempt m) (turn r).failed_at ≡ false
      → All InTime es
      → All InTime (slept r (backoff m deadline (turn r).failed_at) ++ es)
  slept-InTime r es h hs =
      either_if (λ xs. All InTime (xs ++ es)) (ltb 0 (backoff m deadline (turn r).failed_at))
        (sleeps r (backoff m deadline (turn r).failed_at) ∷ []) []
        (leaves_room deadline (turn r).failed_at h, hs) hs
    where
      leaves_room :
          (d : Option ℕ) (now : ℕ)
          → is_spent d (budget_per_attempt m) now ≡ false
          → Fits d (budget_per_attempt m) (now + backoff m d now)
      leaves_room none now e = tt
      leaves_room (some d) now e = ground arith

  round-InTime :
      (r : ℕ) (o : Once) (next : List Event × Answer)
      → CanStart r
      → (CanStart (suc r) → All InTime next.0)
      → All InTime (round m deadline turn r o next).0
  round-InTime r sent next c f = (c, tt)
  round-InTime r (raises e) next c f = (c, tt)
  round-InTime r (retryable e) next c f =
      split_if (λ (x : List Event × Answer). All InTime x.0)
        (is_spent deadline (budget_per_attempt m) (turn r).failed_at) _ _ (λ _. (c, tt))
        (λ h. (
          c,
          slept-InTime r _ h (
              split_if (λ (x : List Event × Answer). All InTime x.0)
                (is_spent deadline (budget_per_attempt m) (turn r).woken_at) _ _ (λ _. tt)
                (λ k. f (fits deadline (budget_per_attempt m) (turn r).woken_at k))),
        ))

  last_round-InTime :
      (r : ℕ) (o : Once) → CanStart r → All InTime (last_round m deadline turn r o).0
  last_round-InTime r sent c = (c, tt)
  last_round-InTime r (raises e) c = (c, tt)
  last_round-InTime r (retryable e) c = (c, tt)

  rounds-InTime : (left r : ℕ) → CanStart r → All InTime (retry_rounds m deadline turn left r).0
  unfolding retry_rounds
  rounds-InTime zero r c = last_round-InTime r (send_smtp_once m (turn r).session) c
  rounds-InTime (suc left) r c =
      round-InTime r (send_smtp_once m (turn r).session) (retry_rounds m deadline turn left (suc r))
        c (rounds-InTime left (suc r))

-- Every attempt but the first starts after a reading of the clock from which eight timeouts still
-- fit before the deadline, and every sleep ends early enough for them.
pub send_message-InTime :
    (m : SmtpSettings) (start : ℕ) (turn : ℕ → Turn)
    → All
        (InTime m (deadline_from start m.send_deadline_seconds) turn)
        (send_message m start turn).0
unfolding send_message
send_message-InTime m start turn =
    rounds-InTime m (deadline_from start m.send_deadline_seconds) turn m.retry_attempts 0 tt

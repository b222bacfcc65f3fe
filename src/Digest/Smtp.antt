-- ===== src/Digest/Smtp.antt =====
-- packages/kerdoos/src/kerdoos/digest/smtp_sender.py: the classes of failures, one SMTP transaction,
-- and the retries of `SmtpDigestSender.send`. What the server does in each attempt and the readings
-- of the clock are given; spans are counts of one unit of time.
pub mod AtMostOnce
pub mod Deadline
use kerdoos.Scrape.Domain.{Exc}
use kerdoos.Prelude.{
  ℕ, zero, suc, ◌+◌, ◌-◌, ◌*◌, String, Bool, true, false, not, ◌&&◌, Option, none, some, List, [],
  ◌∷◌, ◌++◌, ltb, leb, if◌then◌else◌, some_in, is_some, ◌==◌,
}

-- The exceptions of smtplib, ssl and sockets that the code tells apart. A code is that of the
-- server's reply; `response_error` is any other SMTPResponseException.
pub data SmtpError : Type 0 where
  ssl_error os_error server_disconnected other_smtp_error other_error : String → SmtpError
  connect_error response_error : ℕ → SmtpError
  recipients_refused : List ℕ → SmtpError

unfoldable pub is_retryable_connect_failure : SmtpError → Bool
is_retryable_connect_failure (ssl_error m) = false
is_retryable_connect_failure (connect_error c) = true
is_retryable_connect_failure (server_disconnected m) = true
is_retryable_connect_failure (response_error c) = false
is_retryable_connect_failure (recipients_refused cs) = false
is_retryable_connect_failure (other_smtp_error m) = false
is_retryable_connect_failure (os_error m) = true
is_retryable_connect_failure (other_error m) = false

-- `400 <= code < 500`
abbrev pub is_transient : ℕ → Bool
is_transient code = leb 400 code && ltb code 500

unfoldable pub is_retryable_send_failure : SmtpError → Bool
unfolding some_in
is_retryable_send_failure (recipients_refused cs) = not (some_in (λ c. not (is_transient c)) cs)
is_retryable_send_failure (connect_error c) = is_transient c
is_retryable_send_failure (response_error c) = is_transient c
is_retryable_send_failure (ssl_error m) = false
is_retryable_send_failure (server_disconnected m) = false
is_retryable_send_failure (other_smtp_error m) = false
is_retryable_send_failure (os_error m) = false
is_retryable_send_failure (other_error m) = false

-- What `send_message` does: it returns the recipients that were refused, or it raises.
pub data Sending : Type 0 where
  accepts : List String → Sending
  fails : SmtpError → Sending

-- What the server and the network do in one attempt; `quits` is what the end of `with client` raises,
-- and `took` tells whether the server has taken the message for delivery.
pub record Session : Type 0 where
  pub connects : Option SmtpError
  pub starts_tls : Option SmtpError
  pub logs_in : Option SmtpError
  pub sends : Sending
  pub quits : Option SmtpError
  pub took : Bool

pub record SmtpSettings : Type 0 where
  pub from_addr : String
  pub username : Option String
  pub password : Option String
  pub use_tls : Bool
  pub timeout_seconds : ℕ
  pub retry_attempts : ℕ
  pub retry_backoff_seconds : ℕ
  pub send_deadline_seconds : Option ℕ

-- What `send` raises: the failure itself, or `_UnsafeRecipientError`.
pub data SendError : Type 0 where
  smtp : SmtpError → SendError
  unsafe_recipient : SendError
  broken : Exc → SendError

-- `_send_smtp_once`: it returns, raises `_RetryableSmtpFailure`, or raises another exception.
pub data Once : Type 0 where
  sent : Once
  retryable : SmtpError → Once
  raises : SendError → Once

abbrev pub classified : Bool → SmtpError → Once
classified true e = retryable e
classified false e = raises (smtp e)

abbrev is_given : Option String → Bool
is_given none = false
is_given (some s) = not (s == "")

abbrev pub has_credentials : SmtpSettings → Bool
has_credentials m = is_given m.username && is_given m.password

-- STARTTLS and the login, the first that raises.
abbrev or_next : Option SmtpError → Option SmtpError → Option SmtpError
or_next (some e) next = some e
or_next none next = next

abbrev pub handshake : SmtpSettings → Session → Option SmtpError
handshake m s =
    or_next (if m.use_tls then s.starts_tls else none)
      (if has_credentials m then s.logs_in else none)

abbrev pub after_sending : Sending → Once
after_sending (accepts []) = sent
after_sending (accepts (r ∷ rs)) = raises unsafe_recipient
after_sending (fails e) = classified (is_retryable_send_failure e) e

abbrev pub after_handshake : Session → Option SmtpError → Once
after_handshake s (some e) = classified (is_retryable_connect_failure e) e
after_handshake s none = after_sending s.sends

-- `with client`: what `__exit__` raises takes the place of the outcome.
abbrev pub at_exit : Option SmtpError → Once → Once
at_exit none o = o
at_exit (some e) o = raises (smtp e)

abbrev pub connected : SmtpSettings → Session → Option SmtpError → Once
connected m s (some e) = classified (is_retryable_connect_failure e) e
connected m s none = at_exit s.quits (after_handshake s (handshake m s))

unfoldable pub send_smtp_once : SmtpSettings → Session → Once
unfolding is_retryable_connect_failure is_retryable_send_failure
send_smtp_once m s = connected m s s.connects

-- The attempt comes to `send_message`, and the server takes the message.
unfoldable pub is_delivered : SmtpSettings → Session → Bool
is_delivered m s = not (is_some s.connects) && not (is_some (handshake m s)) && s.took

abbrev pub max_ops_per_attempt : ℕ
max_ops_per_attempt = 8

-- One round: the session, and the clock after its failure and after the sleep.
pub record Turn : Type 0 where
  pub session : Session
  pub failed_at : ℕ
  pub woken_at : ℕ

-- What `send` does: an attempt, by its round, or a sleep after it, with its span.
pub data Event : Type 0 where
  attempts : ℕ → Event
  sleeps : ℕ → ℕ → Event

pub data Answer : Type 0 where
  answers : Bool → Answer
  fails_with : SendError → Answer

abbrev pub budget_per_attempt : SmtpSettings → ℕ
budget_per_attempt m = m.timeout_seconds * max_ops_per_attempt

-- `deadline - now < budget_per_attempt`
abbrev pub is_spent : Option ℕ → ℕ → ℕ → Bool
is_spent none budget now = false
is_spent (some deadline) budget now = ltb deadline (now + budget)

abbrev pub lesser : ℕ → ℕ → ℕ
lesser a b = if ltb b a then b else a

-- `min(retry_backoff_seconds, remaining - budget_per_attempt)`
abbrev pub backoff : SmtpSettings → Option ℕ → ℕ → ℕ
backoff m none now = m.retry_backoff_seconds
backoff m (some deadline) now =
    lesser m.retry_backoff_seconds (deadline - (now + budget_per_attempt m))

abbrev pub slept : ℕ → ℕ → List Event
slept r b = if ltb 0 b then sleeps r b ∷ [] else []

abbrev pub first : List Event → List Event × Answer → List Event × Answer
first es (log, a) = (es ++ log, a)

module _ (m : SmtpSettings) (deadline : Option ℕ) (turn : ℕ → Turn) where
  -- `attempts_left <= 0`
  abbrev pub last_round : ℕ → Once → List Event × Answer
  last_round r sent = (attempts r ∷ [], answers true)
  last_round r (raises e) = (attempts r ∷ [], fails_with e)
  last_round r (retryable e) = (attempts r ∷ [], fails_with (smtp e))

  abbrev pub round : ℕ → Once → List Event × Answer → List Event × Answer
  round r sent next = (attempts r ∷ [], answers true)
  round r (raises e) next = (attempts r ∷ [], fails_with e)
  round r (retryable e) next =
      if is_spent deadline (budget_per_attempt m) (turn r).failed_at
      then (attempts r ∷ [], fails_with (smtp e))
      else first (attempts r ∷ slept r (backoff m deadline (turn r).failed_at)) (
          if is_spent deadline (budget_per_attempt m) (turn r).woken_at
          then ([], fails_with (smtp e))
          else next)

  -- `while True`, from the r-th round on; the number is `attempts_left` after its decrement.
  unfoldable pub retry_rounds : ℕ → ℕ → List Event × Answer
  unfolding send_smtp_once
  retry_rounds zero r = last_round r (send_smtp_once m (turn r).session)
  retry_rounds (suc left) r =
      round r (send_smtp_once m (turn r).session) (retry_rounds left (suc r))

-- `deadline = time.monotonic() + send_deadline_seconds`
abbrev pub deadline_from : ℕ → Option ℕ → Option ℕ
deadline_from start none = none
deadline_from start (some span) = some (start + span)

-- The part of `send` from the deadline on.
unfoldable pub send_message : SmtpSettings → ℕ → (ℕ → Turn) → List Event × Answer
unfolding retry_rounds
send_message m start turn =
    retry_rounds m (deadline_from start m.send_deadline_seconds) turn m.retry_attempts 0

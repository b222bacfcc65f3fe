-- ===== src/Digest/Smtp/AtMostOnce.antt =====
-- The retries of `SmtpDigestSender.send` (packages/kerdoos/src/kerdoos/digest/smtp_sender.py): how
-- often a message is delivered.
use Prim.{tt, absurd}
use kerdoos.Prelude.{◌<◌, All, some_in, not}
use kerdoos.Prelude.{
  ℕ, zero, suc, ◌+◌, ◌≤◌, ◌≡◌, refl, Bool, true, false, Option, none, some, List, [], ◌∷◌, ◌++◌,
  sym, ap, ◌∙◌, if◌then◌else◌, ltb, arith, is_some, either_if,
}
use kerdoos.Digest.Smtp.{
  SmtpError, ssl_error, os_error, server_disconnected, other_smtp_error, other_error, connect_error,
  response_error, recipients_refused, is_transient, is_retryable_send_failure,
  is_retryable_connect_failure, Sending, accepts, fails, Session, SmtpSettings, Once, sent,
  retryable, raises, classified, handshake, after_sending, after_handshake, at_exit, connected,
  send_smtp_once, is_delivered, Turn, Event, attempts, sleeps, Answer, answers, fails_with,
  budget_per_attempt, is_spent, backoff, slept, first, last_round, round, retry_rounds,
  send_message, smtp, deadline_from, SendError,
}

-- The server answered with codes from 400 to 499: for each recipient, where it refused them all.
abbrev pub IsTransientReply : SmtpError → Type 0
IsTransientReply (ssl_error m) = ⊥
IsTransientReply (os_error m) = ⊥
IsTransientReply (server_disconnected m) = ⊥
IsTransientReply (other_smtp_error m) = ⊥
IsTransientReply (other_error m) = ⊥
IsTransientReply (connect_error c) = (400 ≤ c) × (c < 500)
IsTransientReply (response_error c) = (400 ≤ c) × (c < 500)
IsTransientReply (recipients_refused cs) = All (λ c. (400 ≤ c) × (c < 500)) cs

-- What SMTP says of a reply: one of those codes means that the message was not taken, and the
-- acceptance of all recipients that it was. Of a connection that breaks it says nothing.
pub record IsHonest (s : Session) : Type 0 where
  pub refused : (e : SmtpError) → s.sends ≡ fails e → IsTransientReply e → s.took ≡ false
  pub accepted : s.sends ≡ accepts [] → s.took ≡ true

transient_codes :
    (cs : List ℕ)
    → some_in (λ c. not (is_transient c)) cs ≡ false
    → All (λ c. (400 ≤ c) × (c < 500)) cs
unfolding some_in
transient_codes [] h = tt
transient_codes (c ∷ cs) h =
    ((ground (arith, h), ground (arith, h)), transient_codes cs (ground (arith, h)))

retryable-IsTransientReply :
    (e : SmtpError) → is_retryable_send_failure e ≡ true → IsTransientReply e
unfolding is_retryable_send_failure
retryable-IsTransientReply (ssl_error m) h = cc
retryable-IsTransientReply (os_error m) h = cc
retryable-IsTransientReply (server_disconnected m) h = cc
retryable-IsTransientReply (other_smtp_error m) h = cc
retryable-IsTransientReply (other_error m) h = cc
retryable-IsTransientReply (connect_error c) h = (ground (arith, h), ground (arith, h))
retryable-IsTransientReply (response_error c) h = (ground (arith, h), ground (arith, h))
retryable-IsTransientReply (recipients_refused cs) h = transient_codes cs (ground (arith, h))

abbrev delivered : SmtpSettings → Turn → ℕ
delivered m t = if is_delivered m t.session then 1 else 0

-- How many of the attempts deliver the message.
unfoldable pub deliveries : SmtpSettings → (ℕ → Turn) → List Event → ℕ
deliveries m turn [] = 0
deliveries m turn (attempts r ∷ es) = delivered m (turn r) + deliveries m turn es
deliveries m turn (sleeps r n ∷ es) = deliveries m turn es

classified_retryable :
    (b : Bool) (e x : SmtpError) → classified b e ≡ retryable x → (b ≡ true) × (e ≡ x)
classified_retryable true e x h = (refl, cc)
classified_retryable false e x h = absurd cc

classified_sent : (b : Bool) (e : SmtpError) → classified b e ≡ sent → ⊥
classified_sent true e h = cc
classified_sent false e h = cc

at_exit_retryable :
    (q : Option SmtpError) (o : Once) (x : SmtpError) → at_exit q o ≡ retryable x → o ≡ retryable x
at_exit_retryable none o x h = h
at_exit_retryable (some e) o x h = absurd cc

at_exit_sent : (q : Option SmtpError) (o : Once) → at_exit q o ≡ sent → o ≡ sent
at_exit_sent none o h = h
at_exit_sent (some e) o h = absurd cc

module _ (m : SmtpSettings) (s : Session) (h : IsHonest s) where
  refused_by :
      (x : Sending) (e : SmtpError) → s.sends ≡ x → after_sending x ≡ retryable e → s.took ≡ false
  refused_by (accepts []) e p q = absurd cc
  refused_by (accepts (r ∷ rs)) e p q = absurd cc
  refused_by (fails f) e p q =
      h.refused f p
        (retryable-IsTransientReply f (classified_retryable (is_retryable_send_failure f) f e q).0)

  taken_by : (x : Sending) → s.sends ≡ x → after_sending x ≡ sent → s.took ≡ true
  taken_by (accepts []) p q = h.accepted p
  taken_by (accepts (r ∷ rs)) p q = absurd cc
  taken_by (fails f) p q = absurd (classified_sent (is_retryable_send_failure f) f q)

  undelivered_by :
      (c k : Option SmtpError) (e : SmtpError)
      → s.connects ≡ c
      → handshake m s ≡ k
      → connected m s s.connects ≡ retryable e
      → is_delivered m s ≡ false
  unfolding is_delivered
  undelivered_by (some f) k e p q r = ground (arith, ap is_some p)
  undelivered_by none (some f) e p q r = ground (arith, ap is_some q)
  undelivered_by none none e p q r = ground (
    arith,
    refused_by s.sends e refl (
        sym (ap (after_handshake s) q)
        ∙ at_exit_retryable s.quits (after_handshake s (handshake m s)) e
            (sym (ap (connected m s) p) ∙ r)),
  )

  delivered_by :
      (c k : Option SmtpError)
      → s.connects ≡ c
      → handshake m s ≡ k
      → connected m s s.connects ≡ sent
      → is_delivered m s ≡ true
  unfolding is_delivered
  delivered_by (some f) k p q r =
      absurd (classified_sent (is_retryable_connect_failure f) f (sym (ap (connected m s) p) ∙ r))
  delivered_by none (some f) p q r = absurd (
      classified_sent (is_retryable_connect_failure f) f (
        sym (ap (after_handshake s) q)
        ∙ at_exit_sent s.quits (after_handshake s (handshake m s))
            (sym (ap (connected m s) p) ∙ r)))
  delivered_by none none p q r = ground (
    arith,
    ap is_some p,
    ap is_some q,
    taken_by s.sends refl (
        sym (ap (after_handshake s) q)
        ∙ at_exit_sent s.quits (after_handshake s (handshake m s))
            (sym (ap (connected m s) p) ∙ r)),
  )

  once-undelivered : (e : SmtpError) → send_smtp_once m s ≡ retryable e → is_delivered m s ≡ false
  unfolding send_smtp_once
  once-undelivered e r = undelivered_by s.connects (handshake m s) e refl refl r

  once-delivered : send_smtp_once m s ≡ sent → is_delivered m s ≡ true
  unfolding send_smtp_once
  once-delivered r = delivered_by s.connects (handshake m s) refl refl r

-- How many attempts there are.
unfoldable pub attempts_in : List Event → ℕ
attempts_in [] = 0
attempts_in (attempts r ∷ es) = suc (attempts_in es)
attempts_in (sleeps r n ∷ es) = attempts_in es

-- At most one delivery, and one where the answer is `true`; at most so many attempts.
abbrev pub IsOnce : SmtpSettings → (ℕ → Turn) → ℕ → List Event × Answer → Type 0
IsOnce m turn n (log, a) =
    (deliveries m turn log ≤ 1)
    × (a ≡ answers true → deliveries m turn log ≡ 1)
    × (attempts_in log ≤ n)

module _ (m : SmtpSettings) (deadline : Option ℕ) (turn : ℕ → Turn) where
  slept-counts :
      (r b : ℕ) (es : List Event)
      → (deliveries m turn (slept r b ++ es) ≡ deliveries m turn es)
        × (attempts_in (slept r b ++ es) ≡ attempts_in es)
  unfolding deliveries attempts_in
  slept-counts r b es =
      either_if
        (λ xs.
          (deliveries m turn (xs ++ es) ≡ deliveries m turn es)
          × (attempts_in (xs ++ es) ≡ attempts_in es))
        (ltb 0 b) (sleeps r b ∷ []) [] (refl, refl) (refl, refl)

  one_attempt :
      (n r : ℕ) (a : Answer)
      → (a ≡ answers true → is_delivered m (turn r).session ≡ true)
      → IsOnce m turn (suc n) (attempts r ∷ [], a)
  unfolding deliveries attempts_in
  one_attempt n r a f = (
    either_if (λ k. k + 0 ≤ 1) (is_delivered m (turn r).session) 1 0 (omega arith) (omega arith),
    λ e. ap (λ b. (if b then 1 else 0) + 0) (f e),
    omega arith,
  )

  -- What follows an attempt without a delivery.
  after_failure :
      (n r b : ℕ) (next : List Event × Answer)
      → is_delivered m (turn r).session ≡ false
      → IsOnce m turn n next
      → IsOnce m turn (suc n) (first (attempts r ∷ slept r b) next)
  unfolding deliveries attempts_in
  after_failure n r b (es, a) u h =
      let c = slept-counts r b es in
      let d : delivered m (turn r) ≡ 0 = ap (λ x. if x then 1 else 0) u in
      (omega (arith, c.0, d, h.0), (λ e. omega (arith, c.0, d, h.1 e)), omega (arith, c.1, h.2))

  round-IsOnce :
      (n r : ℕ) (o : Once) (next : List Event × Answer)
      → IsHonest (turn r).session
      → send_smtp_once m (turn r).session ≡ o
      → IsOnce m turn n next
      → IsOnce m turn (suc n) (round m deadline turn r o next)
  unfolding deliveries attempts_in
  round-IsOnce n r sent next h e k =
      one_attempt n r (answers true) (λ _. once-delivered m (turn r).session h e)
  round-IsOnce n r (raises x) next h e k = one_attempt n r (fails_with x) (λ p. absurd cc)
  round-IsOnce n r (retryable x) next h e k =
      either_if (IsOnce m turn (suc n))
        (is_spent deadline (budget_per_attempt m) (turn r).failed_at) _ _
        (one_attempt n r (fails_with (smtp x)) (λ p. absurd cc))
        (after_failure n r (backoff m deadline (turn r).failed_at) _
          (once-undelivered m (turn r).session h x e)
          (either_if (IsOnce m turn n) (is_spent deadline (budget_per_attempt m) (turn r).woken_at)
            _ _ (stopped n (smtp x)) k))
    where
      stopped : (j : ℕ) (y : SendError) → IsOnce m turn j ([], fails_with y)
      stopped j y = (omega arith, (λ p. absurd cc), omega arith)

  last_round-IsOnce :
      (r : ℕ) (o : Once)
      → IsHonest (turn r).session
      → send_smtp_once m (turn r).session ≡ o
      → IsOnce m turn 1 (last_round m deadline turn r o)
  last_round-IsOnce r sent h e =
      one_attempt 0 r (answers true) (λ _. once-delivered m (turn r).session h e)
  last_round-IsOnce r (raises x) h e = one_attempt 0 r (fails_with x) (λ p. absurd cc)
  last_round-IsOnce r (retryable x) h e = one_attempt 0 r (fails_with (smtp x)) (λ p. absurd cc)

  rounds-IsOnce :
      (left r : ℕ)
      → ((n : ℕ) → IsHonest (turn n).session)
      → IsOnce m turn (suc left) (retry_rounds m deadline turn left r)
  unfolding retry_rounds
  rounds-IsOnce zero r h = last_round-IsOnce r (send_smtp_once m (turn r).session) (h r) refl
  rounds-IsOnce (suc left) r h =
      round-IsOnce (suc left) r (send_smtp_once m (turn r).session) _ (h r) refl
        (rounds-IsOnce left (suc r) h)

-- However the server answers, as long as a reply with a code from 400 to 499 means that the message
-- was not taken and the acceptance of the recipient that it was: a call delivers its message at most once, and
-- once if it returns `true`; and it makes at most `retry_attempts` + 1 attempts.
pub send_message-IsOnce :
    (m : SmtpSettings) (start : ℕ) (turn : ℕ → Turn)
    → ((n : ℕ) → IsHonest (turn n).session)
    → IsOnce m turn (suc m.retry_attempts) (send_message m start turn)
unfolding send_message
send_message-IsOnce m start turn h =
    rounds-IsOnce m (deadline_from start m.send_deadline_seconds) turn m.retry_attempts 0 h

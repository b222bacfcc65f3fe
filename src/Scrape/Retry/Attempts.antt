-- ===== src/Scrape/Retry/Attempts.antt =====
-- The retry loop of core/retry.py, said of the calls that the fetcher answers.
use kerdoos.Prelude.{
  ℕ, zero, suc, ◌+◌, ◌*◌, ◌^◌, ◌≤◌, ◌<◌, ◌≡◌, refl, ◌⊎◌, inl, inr, true, false, Bool-cases, List,
  [], ◌∷◌, arith,
}
use kerdoos.Scrape.Domain.{FetchResult, Outcome, returned, raised, Fetcher}
use kerdoos.Scrape.Retry.{Run, slept, then_test, retry_loop, fetch_with_retry}

-- The n-th call answered, and with the challenged signal.
abbrev pub IsChallenged : Outcome FetchResult → Type 0
IsChallenged (returned r) = r.challenged ≡ true
IsChallenged (raised e) = ⊥

-- An answer after which nothing is tried again.
abbrev pub IsSettled : Outcome FetchResult → Type 0
IsSettled (returned r) = r.challenged ≡ false
IsSettled (raised e) = Unit

-- base · 2^a, base · 2^(a+1), …: `n` delays from attempt `a` on.
pub backoffs : ℕ → ℕ → ℕ → List ℕ
backoffs base a zero = []
backoffs base a (suc n) = (base * 2 ^ a) ∷ backoffs base (a + 1) n

-- From attempt `a` with `left` retries: the answer of the loop is that of
-- the first call that is not challenged, or of the last one allowed.
pub record Attempts (fetch : Fetcher) (base a left : ℕ) (run : Run) (n : ℕ) : Type 0 where
  pub within : n ≤ left
  pub answer : run.outcome ≡ fetch (a + n)
  pub before : (i : ℕ) → i < n → IsChallenged (fetch (a + i))
  pub last : IsSettled (fetch (a + n)) ⊎ (n ≡ left)
  pub delays : run.sleeps ≡ backoffs base a n

module _ (fetch : Fetcher) (base : ℕ) where
  at_once :
      (a left : ℕ) (o : Outcome FetchResult)
      → fetch a ≡ o
      → IsSettled o ⊎ (0 ≡ left)
      → Attempts fetch base a left (record { outcome = o; sleeps = [] }) 0
  unfolding backoffs
  at_once a left o e l =
      let z : a + 0 ≡ a = omega arith in
      record {
        within = omega arith;
        answer = rw (z, e);
        before = λ i h. elim h [ ];
        last = rw (z, e) l;
        delays = refl;
      }

  one_more :
      (a left n : ℕ) (run : Run)
      → IsChallenged (fetch a)
      → Attempts fetch base (a + 1) left run n
      → Attempts fetch base a
          (suc left)
          (record { outcome = run.outcome; sleeps = (base * 2 ^ a) ∷ run.sleeps })
          (suc n)
  unfolding backoffs
  one_more a left n run c t =
      let z : a + suc n ≡ a + 1 + n = omega arith in
      record {
        within = omega (arith, t.within);
        answer = rw z t.answer;
        before = earlier;
        last = rw z (ground (arith, t.last));
        delays = rw (t.delays);
      }
    where
      earlier : (i : ℕ) → i < suc n → IsChallenged (fetch (a + i))
      earlier zero h = let z : a + 0 ≡ a = omega arith in rw z c
      earlier (suc i) h =
          let z : a + suc i ≡ a + 1 + i = omega arith in rw z (t.before i (omega arith))

  loop_stop :
      (left a : ℕ) (r : FetchResult)
      → r.challenged ≡ false
      → retry_loop fetch base left a r ≡ record { outcome = returned r; sleeps = [] }
  unfolding retry_loop
  loop_stop zero a r c = refl
  loop_stop (suc left) a r c = ground arith

  loop_again :
      (left a : ℕ) (r : FetchResult)
      → r.challenged ≡ true
      → retry_loop fetch base (suc left) a r
        ≡ slept
            (base * 2 ^ a)
            (then_test (fetch (a + 1)) (λ s. retry_loop fetch base left (a + 1) s))
  unfolding retry_loop
  loop_again left a r c = ground arith

  next_attempts :
      (left a : ℕ) (o : Outcome FetchResult) (again : FetchResult → Run)
      → fetch a ≡ o
      → ((r : FetchResult)
          → fetch a ≡ returned r
          → (n : ℕ) × Attempts fetch base a left (again r) n)
      → (n : ℕ) × Attempts fetch base a left (then_test o again) n
  next_attempts left a (raised x) again e k = (0, at_once a left (raised x) e (inl tt))
  next_attempts left a (returned r) again e k = k r e

  loop_attempts :
      (left a : ℕ) (r : FetchResult)
      → fetch a ≡ returned r
      → (n : ℕ) × Attempts fetch base a left (retry_loop fetch base left a r) n
  loop_attempts zero a r e = (0, unfold retry_loop in at_once a 0 (returned r) e (inr refl))
  loop_attempts (suc left) a r e = elim (Bool-cases r.challenged) [
    | inl c ↦
        let (n, t) =
          next_attempts left (a + 1) (fetch (a + 1)) (λ s. retry_loop fetch base left (a + 1) s)
            refl (λ s f. loop_attempts left (a + 1) s f) in
        simp (loop_again left a r c) (suc n, one_more a left n _ (rw e c) t)
    | inr c ↦ simp (loop_stop (suc left) a r c) (0, at_once a (suc left) (returned r) e (inl c))
  ]

  -- The loop answers with the answer of call number `n`, for an `n` of at most `retries`: all
  -- calls before it were challenged, it is not challenged (or raised) or `n` is `retries`, and
  -- the loop slept base, 2 · base, 4 · base, … once before each call after the first.
  pub fetch_with_retry_attempts :
      (retries : ℕ)
      → (n : ℕ) × Attempts fetch base 0 retries (fetch_with_retry fetch retries base) n
  unfolding fetch_with_retry
  fetch_with_retry_attempts retries =
      next_attempts retries 0 (fetch 0) (λ r. retry_loop fetch base retries 0 r) refl
        (λ r e. loop_attempts retries 0 r e)

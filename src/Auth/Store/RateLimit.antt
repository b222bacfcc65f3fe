-- ===== src/Auth/Store/RateLimit.antt =====
-- The login rate limit of registry/auth_store.py.
use Prim.{absurd}
use mathlib.Core.Path.{subst}
use kerdoos.Prelude.{
  ℕ, suc, ◌+◌, ◌≤◌, ◌<◌, ◌-◌, ◌≡◌, refl, sym, ap, ◌∙◌, String, Bool, true, false, Option, none,
  some, List, [], ◌∷◌, leb, ltb, keep, is_some, if◌then◌else◌, ◌==◌, arith, eq_refl, All,
}
use kerdoos.Prelude.Dict.{get, put, get-put}
use kerdoos.Auth.Store.{
  Attempts, AuthStore, is_open, is_spent, is_over, wait_for, counted, make_room, reserved,
  reserve_login_attempt,
}

some-inj : (a b : Attempts) → some a ≡ some b → a ≡ b
some-inj a b h = cc

get-keep_by :
    (k j : String) (v row : Attempts) (p : Attempts → Bool) (d kept : List (String × Attempts))
    (a b : Bool)
    → (j == k) ≡ a
    → p v ≡ b
    → p row ≡ true
    → (get k d ≡ some row → get k kept ≡ some row)
    → (if a then some v else get k d) ≡ some row
    → get k (if b then (j, v) ∷ kept else kept) ≡ some row
unfolding get
get-keep_by k j v row p d kept true true e f ok ih h = ground (arith, e, h)
get-keep_by k j v row p d kept true false e f ok ih h =
    absurd (ground (arith, f, ok, ap p (some-inj v row h)))
get-keep_by k j v row p d kept false true e f ok ih h = ground (arith, e, ih h)
get-keep_by k j v row p d kept false false e f ok ih h = ih h

get-keep :
    (k : String) (p : Attempts → Bool) (d : List (String × Attempts)) (row : Attempts)
    → p row ≡ true
    → get k d ≡ some row
    → get k (keep (λ e. p e.1) d) ≡ some row
unfolding get keep
get-keep k p [] row ok h = h
get-keep k p ((j, v) ∷ d) row ok h =
    get-keep_by k j v row p d (keep (λ e. p e.1) d) (j == k) (p v) refl refl ok
      (get-keep k p d row ok) h

get-put_self :
    (k : String) (v : Attempts) (d : List (String × Attempts)) → get k (put k v d) ≡ some v
get-put_self k v d = ground (arith, get-put k k v d, eq_refl k)

make_room-kept :
    (cap : ℕ) (k : String) (d : List (String × Attempts)) (row : Attempts)
    → get k d ≡ some row
    → make_room cap k d ≡ d
unfolding make_room
make_room-kept cap k d row h = ground (arith, h)

-- The choice that `reserve_login_attempt` makes on the row of the key.
abbrev answer :
    ℕ → ℕ → ℕ → AuthStore → Option Attempts → AuthStore × Option ℕ → AuthStore × Option ℕ
answer bound window now s row counting =
    if leb bound 0
    then (s, none)
    else if is_spent bound row
    then (s, wait_for window now row)
    else counting

abbrev pub row_of : ℕ → ℕ → Option Attempts
row_of count start = some (record { failure_count = count; window_start = start })

answer-full :
    (bound window now count start : ℕ) (s : AuthStore) (counting : AuthStore × Option ℕ)
    → 0 < bound
    → bound ≤ count
    → answer bound window now s (row_of count start) counting ≡ (s, some (start + window - now))
answer-full bound window now count start s counting on full = ground arith

answer-granted :
    (bound window now count start : ℕ) (s : AuthStore) (counting : AuthStore × Option ℕ)
    → 0 < bound
    → count < bound
    → answer bound window now s (row_of count start) counting ≡ counting
answer-granted bound window now count start s counting on free = ground arith

is_over-granted :
    (bound count start : ℕ) (wait : Option ℕ)
    → count < bound
    → (if is_over bound (row_of (suc count) start) then wait else none) ≡ none
is_over-granted bound count start wait free = ground arith

module _ (key : String) (now count start : ℕ) (s : AuthStore) (on : 0 < s.max_attempts)
    (row : get key s.login_attempts ≡ row_of count start)
    (inside : now < start + s.window_seconds) where
  kept : List (String × Attempts)
  kept = keep (λ e. is_open s.window_seconds now e.1) s.login_attempts

  open_row : get key kept ≡ row_of count start
  unfolding kept
  open_row =
      get-keep key (is_open s.window_seconds now) s.login_attempts
        (record { failure_count = count; window_start = start }) (ground (arith, inside)) row

  counted_row :
      get key (reserved s.window_seconds s.row_cap now key s.login_attempts)
      ≡ row_of (suc count) start
  unfolding reserved kept
  counted_row =
      let room = make_room s.row_cap key kept in
      get-put_self key (counted now (get key room)) room
      ∙ ap (λ o. some (counted now o))
          (ap (get key) (
              make_room-kept s.row_cap key kept
                (record { failure_count = count; window_start = start }) open_row)
            ∙ open_row)

  -- The store and the answer when the attempt is counted.
  counting : AuthStore × Option ℕ
  counting =
      let rows = reserved s.window_seconds s.row_cap now key s.login_attempts in
      (
        record s { login_attempts = rows },
        if is_over s.max_attempts (get key rows)
            then wait_for s.window_seconds now (get key rows)
            else none,
      )

  reserve-full :
      s.max_attempts ≤ count
      → reserve_login_attempt key now s ≡ (s, some (start + s.window_seconds - now))
  unfolding reserve_login_attempt kept counting
  reserve-full full =
      ap (λ r. answer s.max_attempts s.window_seconds now s r counting) open_row
      ∙ answer-full s.max_attempts s.window_seconds now count start s counting on full

  reserve-granted : count < s.max_attempts → reserve_login_attempt key now s ≡ counting
  unfolding reserve_login_attempt kept counting
  reserve-granted free =
      ap (λ r. answer s.max_attempts s.window_seconds now s r counting) open_row
      ∙ answer-granted s.max_attempts s.window_seconds now count start s counting on free

  counting-granted : count < s.max_attempts → counting.1 ≡ none
  unfolding counting
  counting-granted free =
      ap (λ r. if is_over s.max_attempts r then wait_for s.window_seconds now r else none)
        counted_row
      ∙ is_over-granted s.max_attempts count start
          (wait_for s.window_seconds now (row_of (suc count) start)) free

-- How many of the attempts of a key, at these times, are granted.
unfoldable pub granted : String → List ℕ → AuthStore → ℕ
granted key [] s = 0
granted key (t ∷ ts) s =
    let reply = reserve_login_attempt key t s in
    (if is_some reply.1 then 0 else 1) + granted key ts reply.0

module _ (key : String) (start : ℕ) where
  unfoldable pub Tracked : ℕ → AuthStore → Type 0
  Tracked count s = get key s.login_attempts ≡ row_of count start

  bound_by :
      (t : ℕ) (ts : List ℕ) (count : ℕ) (s : AuthStore)
      → ((s' : AuthStore)
          → s'.max_attempts ≡ s.max_attempts
          → s'.window_seconds ≡ s.window_seconds
          → Tracked (suc count) s'
          → suc count ≤ s.max_attempts
          → granted key ts s' + suc count ≤ s.max_attempts)
      → (granted key ts s + count ≤ s.max_attempts)
      → 0 < s.max_attempts
      → Tracked count s
      → t < start + s.window_seconds
      → count ≤ s.max_attempts
      → (b : Bool) → ltb count s.max_attempts ≡ b
      → granted key (t ∷ ts) s + count ≤ s.max_attempts
  unfolding Tracked granted counting
  bound_by t ts count s more same on row inside le true free =
      let open_slot : count < s.max_attempts = ground (arith, free) in
      subst (λ r. (if is_some r.1 then 0 else 1) + granted key ts r.0 + count ≤ s.max_attempts)
        (sym (reserve-granted key t count start s on row inside open_slot))
        (ground (
          arith,
          counting-granted key t count start s on row inside open_slot,
          more (counting key t count start s on row inside).0 refl refl
              (counted_row key t count start s on row inside) (omega (arith, open_slot)),
        ))
  bound_by t ts count s more same on row inside le false full =
      subst (λ r. (if is_some r.1 then 0 else 1) + granted key ts r.0 + count ≤ s.max_attempts)
        (sym (reserve-full key t count start s on row inside (ground (arith, full))))
        (omega (arith, same))

  granted-within :
      (ts : List ℕ) (bound window count : ℕ) (s : AuthStore)
      → s.max_attempts ≡ bound
      → s.window_seconds ≡ window
      → 0 < bound
      → Tracked count s
      → count ≤ bound
      → All (λ t. t < start + window) ts
      → granted key ts s + count ≤ bound
  unfolding granted
  granted-within [] bound window count s m w on row le inside = omega (arith, le)
  granted-within (t ∷ ts) bound window count s m w on row le inside =
      subst (λ n. granted key (t ∷ ts) s + count ≤ n) m
        (bound_by t ts count s
          (λ s' e f r more.
            subst (λ n. granted key ts s' + suc count ≤ n) (sym m)
              (granted-within ts bound window (suc count) s' (e ∙ m) (f ∙ w) on r
                (subst (λ n. suc count ≤ n) m more) inside.1))
          (subst (λ n. granted key ts s + count ≤ n) (sym m)
            (granted-within ts bound window count s m w on row le inside.1))
          (subst (λ n. 0 < n) (sym m) on) row (subst (λ n. t < start + n) (sym w) inside.0)
          (subst (λ n. count ≤ n) (sym m) le) (ltb count s.max_attempts) refl)

-- With the rate limit on, a key whose window is open and whose attempts so far are within the bound
-- is granted, by any attempts of its own inside that window and in a row, no more than what the
-- bound has left.
pub granted-bounded :
    (key : String) (ts : List ℕ) (s : AuthStore) (count start : ℕ)
    → 0 < s.max_attempts
    → Tracked key start count s
    → count ≤ s.max_attempts
    → All (λ t. t < start + s.window_seconds) ts
    → granted key ts s + count ≤ s.max_attempts
granted-bounded key ts s count start on row le inside =
    granted-within key start ts s.max_attempts s.window_seconds count s refl refl on row le inside

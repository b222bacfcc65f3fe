-- ===== src/Evaluator/Executor/Ownership.antt =====
-- The pools of `_RotatingSendExecutor` in core/evaluator.py.
use kerdoos.Prelude.{
  ℕ, ◌+◌, ◌≤◌, ◌<◌, ◌≡◌, refl, ◌∙◌, map, Bool, true, Option, none, some, List, [], ◌∷◌, ◌++◌, arith,
  nat_eq, ltb, length, length-append, if◌then◌else◌, count_in,
}
use kerdoos.Evaluator.Executor.{
  Retired, Rotating, max_live_orphans, new_rotating, prune_loop, prune_retired, can_submit, rotate,
  shutdown,
}

abbrev holds : ℕ → Retired → Bool
holds p r = nat_eq r.pool p

-- How often the pool `p` is the current one, retired, or shut.
pub held : ℕ → Rotating → ℕ
held p e =
    (if nat_eq e.current p then 1 else 0)
    + count_in (holds p) e.retired
    + count_in (λ q. nat_eq q p) e.shut

-- Every pool that was made is, once, the current one, a retired one or a shut one.
abbrev pub IsAccounted : Rotating → Type 0
IsAccounted e = (p : ℕ) → held p e ≡ (if ltb p e.next_pool then 1 else 0)

prune_loop-held :
    (done : ℕ → Bool) (p : ℕ) (rs : List Retired) (shut : List ℕ)
    → count_in (holds p) (prune_loop done rs shut).0
        + count_in (λ q. nat_eq q p) (prune_loop done rs shut).1
      ≡ count_in (holds p) rs + count_in (λ q. nat_eq q p) shut
unfolding prune_loop count_in
prune_loop-held done p [] shut = omega arith
prune_loop-held done p (r ∷ rs) shut =
    ground (arith, prune_loop-held done p rs (r.pool ∷ shut), prune_loop-held done p rs shut)

prune_loop-length :
    (done : ℕ → Bool) (rs : List Retired) (shut : List ℕ)
    → length (prune_loop done rs shut).0 ≤ length rs
unfolding prune_loop
prune_loop-length done [] shut = omega arith
prune_loop-length done (r ∷ rs) shut =
    ground (arith, prune_loop-length done rs (r.pool ∷ shut), prune_loop-length done rs shut)

prune_retired-held :
    (done : ℕ → Bool) (e : Rotating) (p : ℕ) → held p (prune_retired done e) ≡ held p e
unfolding held prune_retired
prune_retired-held done e p = omega (arith, prune_loop-held done p e.retired e.shut)

next_pool-prune_retired :
    (done : ℕ → Bool) (e : Rotating) → (prune_retired done e).next_pool ≡ e.next_pool
unfolding prune_retired
next_pool-prune_retired done e = refl

count-append :
    (p : ℕ) (rs ss : List Retired)
    → count_in (holds p) (rs ++ ss) ≡ count_in (holds p) rs + count_in (holds p) ss
unfolding count_in
count-append p [] ss = omega arith
count-append p (r ∷ rs) ss = omega (arith, count-append p rs ss)

pub new_rotating-IsAccounted : (workers : ℕ) → IsAccounted (new_rotating workers)
unfolding new_rotating held count_in
new_rotating-IsAccounted workers p = ground arith

-- Asking whether a send may be submitted keeps the account: if every pool that was made is,
-- once, the current one, a retired one or a shut one, so it is afterwards.
pub can_submit-IsAccounted :
    (done : ℕ → Bool) (e : Rotating) → IsAccounted e → IsAccounted (can_submit done e).0
unfolding can_submit prune_retired
can_submit-IsAccounted done e h p = ground (arith, prune_retired-held done e p, h p)

-- A rotation, with an orphan or without one, keeps the account: if every pool that was made is,
-- once, the current one, a retired one or a shut one, so it is afterwards.
pub rotate-IsAccounted :
    (done : ℕ → Bool) (orphan : Option ℕ) (e : Rotating)
    → IsAccounted e
    → IsAccounted (rotate done orphan e)
unfolding rotate
rotate-IsAccounted done none e h p = unfold held count_in in ground (arith, h p)
rotate-IsAccounted done (some f) e h p =
    rw (prune_retired-held, next_pool-prune_retired)
      (unfold held count_in in
        ground
          (arith, h p, count-append p e.retired (record { pool = e.current; orphan = f } ∷ [])))

-- A send that was let in and is orphaned leaves at most the cap of live orphans.
pub orphans_bounded :
    (done later : ℕ → Bool) (f : ℕ) (e : Rotating)
    → (can_submit done e).1 ≡ true
    → length (rotate later (some f) (can_submit done e).0).retired ≤ max_live_orphans e
unfolding can_submit rotate prune_retired
orphans_bounded done later f e h =
    let live : List Retired = (prune_loop done e.retired e.shut).0 in
    let entry : Retired = record { pool = e.current; orphan = f } in
    ground (
      arith,
      prune_loop-length later (live ++ entry ∷ []) (prune_loop done e.retired e.shut).1,
      length-append live (entry ∷ []),
    )

count-map-pools :
    (p : ℕ) (rs : List Retired) (shut : List ℕ)
    → count_in (λ q. nat_eq q p) (map (λ r. r.pool) rs ++ shut)
      ≡ count_in (holds p) rs + count_in (λ q. nat_eq q p) shut
unfolding count_in
count-map-pools p [] shut = omega arith
count-map-pools p (r ∷ rs) shut = omega (arith, count-map-pools p rs shut)

-- Where every pool that was made is, once, the current one, a retired one or a shut one: after
-- `shutdown` every pool that was ever made has been shut.
pub shutdown_all :
    (e : Rotating) (p : ℕ)
    → IsAccounted e
    → p < e.next_pool
    → 1 ≤ count_in (λ q. nat_eq q p) (shutdown e).shut
unfolding shutdown
shutdown_all e p h l =
    let acc : held p e ≡ 1 = h p ∙ ground arith in
    rw (count-map-pools p e.retired (e.current ∷ e.shut))
      (unfold held count_in in ground (arith, acc))

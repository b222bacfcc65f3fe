-- ===== src/Prelude/Rows.antt =====
-- Lemmas on tables: what a test finds after rows are added, changed or deleted.
use Prim.{tt}
use mathlib.Core.Path.{◌≡◌, refl}
use mathlib.Core.Bool.{Bool, true, false, not, ◌&&◌}
use mathlib.Core.List.{List, [], ◌∷◌, map}
use native.Mathlib.Omega.{arith}
use kerdoos.Prelude.Tests.{if◌then◌else◌}
use kerdoos.Prelude.Lists.{keep, some_in, All, some_in-keep}
use kerdoos.Prelude.Sorting.{insert_sorted, sort_by}

module _ {ℓ} {A : Type ℓ} where
  -- No two rows are alike.
  abbrev pub Unique : (A → A → Bool) → List A → Type 0
  Unique same [] = Unit {0}
  Unique same (x ∷ xs) = (some_in (same x) xs ≡ false) × Unique same xs

  pub All-weaken {κ μ} :
      (P : A → Type κ) (Q : A → Type μ)
      → ((x : A) → P x → Q x)
      → (xs : List A) → All P xs
      → All Q xs
  All-weaken P Q f [] h = tt
  All-weaken P Q f (x ∷ xs) h = (f x h.0, All-weaken P Q f xs h.1)

  kept_by {κ} :
      (Q : A → Type κ) (x : A) (xs : List A) (b : Bool)
      → (b ≡ true → Q x)
      → All Q xs
      → All Q (if b then x ∷ xs else xs)
  kept_by Q x xs true h hs = (h refl, hs)
  kept_by Q x xs false h hs = hs

  -- What is kept passed the test.
  pub All-keep {κ μ} :
      (P : A → Type κ) (Q : A → Type μ) (q : A → Bool)
      → ((x : A) → q x ≡ true → P x → Q x)
      → (xs : List A) → All P xs
      → All Q (keep q xs)
  unfolding keep
  All-keep P Q q f [] h = tt
  All-keep P Q q f (x ∷ xs) h =
      kept_by Q x (keep q xs) (q x) (λ e. f x e h.0) (All-keep P Q q f xs h.1)

  Unique-by :
      (same : A → A → Bool) (x : A) (xs : List A) (b : Bool)
      → some_in (same x) xs ≡ false
      → Unique same xs
      → Unique same (if b then x ∷ xs else xs)
  Unique-by same x xs true n h = (n, h)
  Unique-by same x xs false n h = h

  pub Unique-keep :
      (same : A → A → Bool) (q : A → Bool) (xs : List A) → Unique same xs → Unique same (keep q xs)
  unfolding keep
  Unique-keep same q [] h = tt
  Unique-keep same q (x ∷ xs) h =
      Unique-by same x (keep q xs) (q x) (some_in-keep (same x) q xs h.0)
        (Unique-keep same q xs h.1)

  -- A test of rows that are kept is a test of all.
  pub some_in-kept :
      (p q : A → Bool)
      → ((x : A) → p x ≡ true → q x ≡ true)
      → (xs : List A) → some_in p (keep q xs) ≡ some_in p xs
  unfolding some_in keep
  some_in-kept p q f [] = refl
  some_in-kept p q f (x ∷ xs) = ground (arith, f x, some_in-kept p q f xs)

  -- A row that is there, and is none of those deleted, is there afterwards.
  pub some_in-spared :
      (p d : A → Bool) (xs : List A)
      → some_in p xs ≡ true
      → some_in (λ x. d x && p x) xs ≡ false
      → some_in p (keep (λ x. not (d x)) xs) ≡ true
  unfolding some_in keep
  some_in-spared p d [] h n = h
  some_in-spared p d (x ∷ xs) h n = ground (arith, some_in-spared p d xs)

  pub keep-kept :
      (p q : A → Bool)
      → ((x : A) → p x ≡ true → q x ≡ true)
      → (xs : List A) → keep p (keep q xs) ≡ keep p xs
  unfolding keep
  keep-kept p q f [] = refl
  keep-kept p q f (x ∷ xs) = ground (arith, f x, keep-kept p q f xs)

  pub All-map {κ μ} :
      {B : Type κ} (P : B → Type μ) (f : A → B) (xs : List A)
      → All (λ x. P (f x)) xs
      → All P (map f xs)
  All-map P f [] h = tt
  All-map P f (x ∷ xs) h = (h.0, All-map P f xs h.1)

  placed_by {κ} :
      (P : A → Type κ) (a x : A) (xs ys : List A) (b : Bool)
      → P a
      → P x
      → All P xs
      → All P ys
      → All P (if b then a ∷ x ∷ xs else x ∷ ys)
  placed_by P a x xs ys true ha hx hs hy = (ha, (hx, hs))
  placed_by P a x xs ys false ha hx hs hy = (hx, hy)

  All-insert_sorted {κ} :
      (P : A → Type κ) (le : A → A → Bool) (a : A) (xs : List A)
      → P a
      → All P xs
      → All P (insert_sorted le a xs)
  unfolding insert_sorted
  All-insert_sorted P le a [] ha h = (ha, tt)
  All-insert_sorted P le a (x ∷ xs) ha h =
      placed_by P a x xs (insert_sorted le a xs) (le a x) ha h.0 h.1
        (All-insert_sorted P le a xs ha h.1)

  -- ORDER BY keeps every row.
  pub All-sort_by {κ} :
      (P : A → Type κ) (le : A → A → Bool) (xs : List A) → All P xs → All P (sort_by le xs)
  unfolding sort_by
  All-sort_by P le [] h = tt
  All-sort_by P le (x ∷ xs) h =
      All-insert_sorted P le x (sort_by le xs) h.0 (All-sort_by P le xs h.1)

  -- As keep-kept, for rows that have a property.
  pub keep-kept-All {κ} :
      (P : A → Type κ) (p q : A → Bool)
      → ((x : A) → P x → p x ≡ true → q x ≡ true)
      → (xs : List A) → All P xs
      → keep p (keep q xs) ≡ keep p xs
  unfolding keep
  keep-kept-All P p q f [] h = refl
  keep-kept-All P p q f (x ∷ xs) h = ground (arith, f x h.0, keep-kept-All P p q f xs h.1)

  pub some_in-weaken :
      (p q : A → Bool)
      → ((x : A) → p x ≡ true → q x ≡ true)
      → (xs : List A) → some_in p xs ≡ true
      → some_in q xs ≡ true
  unfolding some_in
  some_in-weaken p q f [] h = h
  some_in-weaken p q f (x ∷ xs) h = ground (arith, f x, some_in-weaken p q f xs)

  pub some_in-none : (p : A → Bool) → ((x : A) → p x ≡ false) → (xs : List A) → some_in p xs ≡ false
  unfolding some_in
  some_in-none p f [] = refl
  some_in-none p f (x ∷ xs) = ground (arith, f x, some_in-none p f xs)

-- ===== src/Prelude/Dict.antt =====
-- Python dicts and sets of texts, as lists: a dict keeps the place of a key that is set again.
use Prim.Native.String.{String}
use Prim.Native.Nat.{ℕ}
use mathlib.Core.Path.{◌≡◌, refl, ap, subst, sym}
use mathlib.Core.Bool.{Bool, true, false, not, ◌&&◌}
use mathlib.Core.Option.{Option, none, some}
use mathlib.Core.List.{List, [], ◌∷◌, ◌++◌}
use Prim.{tt}
use native.Mathlib.Omega.{arith}
use text.Mathlib.Text.{◌==◌}
use text.Mathlib.TextEquality.{eq_iff}
use kerdoos.Prelude.Tests.{if◌then◌else◌, is_some, eq_of_test}
use kerdoos.Prelude.Lists.{some_in, keep, count_in, All, All-append}

module _ {ℓ} {V : Type ℓ} where
  unfoldable pub get : String → List (String × V) → Option V
  get k [] = none
  get k ((j, v) ∷ d) = if j == k then some v else get k d

  -- The value of a key that is there, in its place.
  unfoldable pub replace : String → V → List (String × V) → List (String × V)
  replace k v [] = []
  replace k v ((j, w) ∷ d) = (j, if j == k then v else w) ∷ replace k v d

  unfoldable pub put : String → V → List (String × V) → List (String × V)
  unfolding get replace
  put k v d = if is_some (get k d) then replace k v d else d ++ (k, v) ∷ []

  get-replace :
      (j k : String) (v : V) (d : List (String × V))
      → get j (replace k v d) ≡ (if (k == j) && is_some (get k d) then some v else get j d)
  unfolding get replace
  get-replace j k v [] = ground arith
  get-replace j k v ((i, w) ∷ d) =
      ground (arith, eq_iff k j, eq_iff i k, eq_iff i j, get-replace j k v d)

  get-append :
      (j k : String) (v : V) (d : List (String × V))
      → get j (d ++ (k, v) ∷ [])
        ≡ (if is_some (get j d) then get j d else if k == j then some v else none)
  unfolding get
  get-append j k v [] = ground arith
  get-append j k v ((i, w) ∷ d) = ground (arith, get-append j k v d)

  pub get-put :
      (j k : String) (v : V) (d : List (String × V))
      → get j (put k v d) ≡ (if k == j then some v else get j d)
  get-put j k v d =
      unfold put in
      ground (
        arith,
        eq_iff k j,
        get-replace j k v d,
        get-append j k v d,
        ap (λ i. get i d) {x = k} {y = j},
      )

  module _ {κ} (P Q : String × V → Type κ) (k : String) (v : V) where
    pick :
        (j : String) (w : V) (b : Bool)
        → (b ≡ true → Q (j, v))
        → (b ≡ false → Q (j, w))
        → Q (j, if b then v else w)
    pick j w true same other = same refl
    pick j w false same other = other refl

    module _ (new : Q (k, v))
        (other : (j : String) (w : V) → (j == k) ≡ false → P (j, w) → Q (j, w)) where
      All-replace : (d : List (String × V)) → All P d → All Q (replace k v d)
      unfolding replace
      All-replace [] h = h
      All-replace ((j, w) ∷ d) h = (
        pick j w (j == k) (λ e. subst (λ i. Q (i, v)) (sym (eq_of_test j k e)) new)
            (λ e. other j w e h.0),
        All-replace d h.1,
      )

      absent_head :
          (j : String) (w : V) (d : List (String × V))
          → is_some (get k ((j, w) ∷ d)) ≡ false
          → ((j == k) ≡ false) × (is_some (get k d) ≡ false)
      unfolding get
      absent_head j w d h = ground arith

      All-others : (d : List (String × V)) → is_some (get k d) ≡ false → All P d → All Q d
      All-others [] a h = h
      All-others ((j, w) ∷ d) a h =
          (other j w (absent_head j w d a).0 h.0, All-others d (absent_head j w d a).1 h.1)

      put_by :
          (d : List (String × V)) (b : Bool)
          → is_some (get k d) ≡ b
          → All P d
          → All Q (if b then replace k v d else d ++ (k, v) ∷ [])
      put_by d true e h = All-replace d h
      put_by d false e h = All-append Q d ((k, v) ∷ []) (All-others d e h) (new, tt)

      -- What holds of the new value and of the other entries holds of the dict.
      pub All-put : (d : List (String × V)) → All P d → All Q (put k v d)
      unfolding put
      All-put d h = put_by d (is_some (get k d)) refl h

  -- Every value is replaced by a function of it.
  unfoldable pub map_values : (V → V) → List (String × V) → List (String × V)
  map_values f [] = []
  map_values f ((j, w) ∷ d) = (j, f w) ∷ map_values f d

  abbrev pub map_value : (V → V) → Option V → Option V
  map_value f none = none
  map_value f (some v) = some (f v)

  pub get-map_values :
      (j : String) (f : V → V) (d : List (String × V))
      → get j (map_values f d) ≡ map_value f (get j d)
  unfolding get map_values
  get-map_values j f [] = refl
  get-map_values j f ((i, w) ∷ d) = ground (arith, get-map_values j f d)

-- Sets of texts.
unfoldable pub member : String → List String → Bool
unfolding some_in
member k xs = some_in (λ x. x == k) xs

unfoldable pub add : String → List String → List String
add k xs = if member k xs then xs else k ∷ xs

unfoldable pub discard : String → List String → List String
unfolding keep
discard k xs = keep (λ x. not (x == k)) xs

pub member-add :
    (j k : String) (xs : List String) → member j (add k xs) ≡ (if k == j then true else member j xs)
unfolding add member
member-add j k xs = ground (arith, eq_iff k j)

pub member-discard :
    (j k : String) (xs : List String)
    → member j (discard k xs) ≡ (if k == j then false else member j xs)
unfolding discard member
member-discard j k [] = ground arith
member-discard j k (x ∷ xs) =
    ground (arith, eq_iff k j, eq_iff x k, eq_iff x j, member-discard j k xs)

-- How often a text stands in a list.
abbrev pub occurrences : String → List String → ℕ
occurrences k xs = count_in (λ x. x == k) xs

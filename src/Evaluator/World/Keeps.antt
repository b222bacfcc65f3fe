-- ===== src/Evaluator/World/Keeps.antt =====
-- Invariants of evaluator actions: what holds before an action holds after it, also if it raises.
use kerdoos.Prelude.{Bool, true, false, List, [], ◌∷◌, Option, none, some, if◌then◌else◌}
use kerdoos.Scrape.Domain.{Exc, Outcome, returned, raised}
use kerdoos.Evaluator.World.{
  Env, World, Exec, Done, pure, lift, ◌>>=◌, catch, modify, store_call, run_call, for_each,
  continue, handled, counted,
}

pub record Keeps {A : Type 0} (P : World → Type 0) (m : Exec A) : Type 0 where
  pub at : (w : World) → P w → P (m w).1

module _ {P : World → Type 0} where
  pub Keeps-pure : {A : Type 0} (a : A) → Keeps P (pure a)
  unfolding pure
  Keeps-pure a = record { at = λ w h. h }

  pub Keeps-lift : {A : Type 0} (o : Outcome A) → Keeps P (lift o)
  unfolding lift
  Keeps-lift o = record { at = λ w h. h }

  pub Keeps-if :
      {A : Type 0} (b : Bool) (m n : Exec A) → Keeps P m → Keeps P n → Keeps P (if b then m else n)
  Keeps-if true m n km kn = km
  Keeps-if false m n km kn = kn

  after_bind :
      {A B : Type 0} (o : Outcome A) (w : World) (f : A → Exec B)
      → P w
      → ((a : A) → Keeps P (f a))
      → P (continue o f w).1
  after_bind (returned a) w f h k = (k a).at w h
  after_bind (raised e) w f h k = h

  pub Keeps-bind :
      {A B : Type 0} (m : Exec A) (f : A → Exec B)
      → Keeps P m
      → ((a : A) → Keeps P (f a))
      → Keeps P (m >>= f)
  unfolding ◌>>=◌
  Keeps-bind m f km kf = record { at = λ w h. after_bind (m w).0 (m w).1 f (km.at w h) kf }

  after_catch :
      {A : Type 0} (o : Outcome A) (w : World) (f : Exc → Exec A)
      → P w
      → ((e : Exc) → Keeps P (f e))
      → P (handled o f w).1
  after_catch (returned a) w f h k = h
  after_catch (raised e) w f h k = (k e).at w h

  pub Keeps-catch :
      {A : Type 0} (m : Exec A) (f : Exc → Exec A)
      → Keeps P m
      → ((e : Exc) → Keeps P (f e))
      → Keeps P (catch m f)
  unfolding catch
  Keeps-catch m f km kf = record { at = λ w h. after_catch (m w).0 (m w).1 f (km.at w h) kf }

  pub Keeps-for_each :
      {A : Type 0} (body : A → Exec Done) (xs : List A)
      → ((a : A) → Keeps P (body a))
      → Keeps P (for_each body xs)
  unfolding for_each
  Keeps-for_each body [] k = Keeps-pure tt
  Keeps-for_each body (x ∷ xs) k =
      Keeps-bind (body x) (λ _. for_each body xs) (k x) (λ _. Keeps-for_each body xs k)

  pub Keeps-store_call :
      {A : Type 0} (env : Env) (f : World → A × World)
      → ((w : World) → P w → P (counted w))
      → ((w : World) → P w → P (f w).1)
      → Keeps P (store_call env f)
  unfolding store_call
  Keeps-store_call env f count run = record { at = λ w h. called (env.fault w.calls) w h }
    where
      called : (o : Option Exc) (w : World) → P w → P (run_call o f w).1
      called none w h = run (counted w) (count w h)
      called (some e) w h = count w h

  pub Keeps-modify : (f : World → World) → ((w : World) → P w → P (f w)) → Keeps P (modify f)
  unfolding modify
  Keeps-modify f k = record { at = k }

pub ruleset keeps_rules =
    (Keeps-pure, Keeps-lift, Keeps-if, Keeps-bind, Keeps-catch, Keeps-for_each)

-- The same from one condition to another.
pub record Leads {A : Type 0} (P Q : World → Type 0) (m : Exec A) : Type 0 where
  pub at : (w : World) → P w → Q (m w).1

module _ {P Q : World → Type 0} where
  pub Leads-bind :
      {A B : Type 0} (m : Exec A) (f : A → Exec B)
      → Leads P Q m
      → ((a : A) → Keeps Q (f a))
      → Leads P Q (m >>= f)
  unfolding ◌>>=◌
  Leads-bind m f lm kf = record { at = λ w h. after_bind (m w).0 (m w).1 f (lm.at w h) kf }

  leads_after :
      {A B : Type 0} (o : Outcome A) (w : World) (f : A → Exec B)
      → P w
      → Q w
      → ((a : A) → Leads P Q (f a))
      → Q (continue o f w).1
  leads_after (returned a) w f h q k = (k a).at w h
  leads_after (raised e) w f h q k = q

  -- A step that keeps the first condition, which is stronger than the second.
  pub Leads-keep_bind :
      {A B : Type 0} (m : Exec A) (f : A → Exec B)
      → ((w : World) → P w → Q w)
      → Keeps P m
      → ((a : A) → Leads P Q (f a))
      → Leads P Q (m >>= f)
  unfolding ◌>>=◌
  Leads-keep_bind m f weak km lf = record {
    at = λ w h. leads_after (m w).0 (m w).1 f (km.at w h) (weak _ (km.at w h)) lf;
  }

-- A condition on the answer and the state that a call leaves; if it raises, `P` still holds.
abbrev pub Post :
    {A : Type 0} → (World → Type 0) → (A → World → Type 0) → Outcome A → World → Type 0
Post P Q (returned a) w = Q a w
Post P Q (raised e) w = P w

pub record Ensures {A : Type 0} (P : World → Type 0) (Q : A → World → Type 0) (m : Exec A)
    : Type 0 where
  pub at : (w : World) → P w → Post P Q (m w).0 (m w).1

module _ {A : Type 0} {P : World → Type 0} {Q : A → World → Type 0} where
  pub Ensures-store_call :
      (env : Env) (f : World → A × World)
      → ((w : World) → P w → P (counted w))
      → ((w : World) → P w → Q (f w).0 (f w).1)
      → Ensures P Q (store_call env f)
  unfolding store_call
  Ensures-store_call env f count run = record { at = λ w h. called (env.fault w.calls) w h }
    where
      called : (o : Option Exc) (w : World) → P w → Post P Q (run_call o f w).0 (run_call o f w).1
      called none w h = run (counted w) (count w h)
      called (some e) w h = count w h

  ensured_after :
      {B : Type 0} (o : Outcome A) (w : World) (f : A → Exec B)
      → Post P Q o w
      → ((a : A) → Leads (Q a) P (f a))
      → P (continue o f w).1
  ensured_after (returned a) w f h k = (k a).at w h
  ensured_after (raised e) w f h k = h

  pub Keeps-ensured_bind :
      {B : Type 0} (m : Exec A) (f : A → Exec B)
      → Ensures P Q m
      → ((a : A) → Leads (Q a) P (f a))
      → Keeps P (m >>= f)
  unfolding ◌>>=◌
  Keeps-ensured_bind m f em lf = record {
    at = λ w h. ensured_after (m w).0 (m w).1 f (em.at w h) lf;
  }

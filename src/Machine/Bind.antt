-- ===== src/Machine/Bind.antt =====
-- How a sequence of actions runs, once the outcome of its first action is known.
use stub.Prelude.{◌≡◌, ap, refl, arith, Option, none, some}
use stub.Machine.{Machine, Outcome, ok, err, gone, Error, Action, resume, context, ◌>>=◌}

module _ {A B : Type 0} (m : Action A) (f : A → Action B) (s : Machine) where
  pub bind-ok : {a : A} {s' : Machine} → m s ≡ (ok a, s') → (m >>= f) s ≡ f a s'
  bind-ok e = ap (resume f) e

  pub bind-err : {e : Error} {s' : Machine} → m s ≡ (err e, s') → (m >>= f) s ≡ (err e, s')
  bind-err e = ap (resume f) e

  pub bind-gone : {s' : Machine} → m s ≡ (gone, s') → (m >>= f) s ≡ (gone, s')
  bind-gone e = ap (resume f) e

-- A sequence that succeeds has a first action that succeeds.
pub resume-eq-ok :
    {A B : Type 0} (f : A → Action B) (r : Outcome A × Machine) {b : B} {t : Machine}
    → resume f r ≡ (ok b, t)
    → (a : A) × (s : Machine) × (r ≡ (ok a, s)) × (f a s ≡ (ok b, t))
resume-eq-ok f (ok a, s) e = (a, s, refl, e)
resume-eq-ok f (err x, s) e = cc
resume-eq-ok f (gone, s) e = cc

-- `option.context(e)?` succeeds with the option's value.
pub context-eq-ok :
    {A : Type 0} (o : Option A) (e : Error) {s t : Machine} {a : A}
    → context o e s ≡ (ok a, t)
    → (o ≡ some a) × (t ≡ s)
context-eq-ok none e h = cc
context-eq-ok (some x) e h = ground arith

-- A continuation that goes on with `g` may go on with it outside.
pub resume-resume :
    {A B C : Type 0} (r : Outcome A × Machine) (f : A → Action B) (g : B → Action C)
    (whole : A → Action C)
    → ((a : A) (t : Machine) → whole a t ≡ (f a >>= g) t)
    → resume whole r ≡ resume g (resume f r)
resume-resume (ok a, t) f g whole same = same a t
resume-resume (err e, t) f g whole same = refl
resume-resume (gone, t) f g whole same = refl

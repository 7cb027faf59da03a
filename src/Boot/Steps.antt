-- ===== src/Boot/Steps.antt =====
-- Actions that enter no kernel or extend no PCR, and how src/main.rs puts them together.
use stub.Prelude.{
  ◌≡◌, refl, ap, sym, ◌∙◌, Bool, true, false, Option, none, some, if◌then◌else◌, List, [], ◌∷◌,
}
use stub.Machine.{
  Machine, Outcome, ok, err, gone, Action, Error, Call, context, pure, resume, ◌>>=◌,
}
use stub.Result.{Result, lift}
use stub.Tpm2.{closing_tcg, reported}
use stub.Tpm2.Measures.{Event, extends}

-- whether one of the calls is a jump into a kernel
unfoldable pub entered : List Call → Bool
entered [] = false
entered (Call.enter_kernel entry handle table ∷ rest) = true
entered (_ ∷ rest) = entered rest

-- An action that leaves a view of the calls as it was, and ends by handing control back.
pub record IsTame {X A : Type 0} (view : List Call → X) (r : Outcome A × Machine) (s : Machine)
    : Type 0 where
  pub calls : view r.1.calls ≡ view s.calls
  pub stays : (t : Machine) → ¬ (r ≡ (gone, t))

abbrev pub Tame : {X A : Type 0} → (List Call → X) → Action A → Type 0
Tame view m = (s : Machine) → IsTame view (m s) s

-- A view in which there are the jumps into a kernel and the requests to extend the PCR.
abbrev pub boot : List Call → Bool × List Event
boot calls = (entered calls, extends calls)

module _ {X : Type 0} {view : List Call → X} where
  pub resume-Tame :
      {A B : Type 0} (f : A → Action B) (r : Outcome A × Machine) (s : Machine)
      → IsTame view r s
      → ((a : A) → Tame view (f a))
      → IsTame view (resume f r) s
  resume-Tame f (ok a, t) s is next =
      let after = next a t in record { calls = after.calls ∙ is.calls; stays = after.stays }
  resume-Tame f (err e, t) s is next = record { calls = is.calls; stays = λ u e. cc }
  resume-Tame f (gone, t) s is next = absurd (is.stays t refl)

  pub bind-Tame :
      {A B : Type 0} (m : Action A) (f : A → Action B)
      → Tame view m
      → ((a : A) → Tame view (f a))
      → Tame view (m >>= f)
  bind-Tame m f is next s = resume-Tame f (m s) s (is s) next

  pub if-Tame :
      {A : Type 0} (b : Bool) (m n : Action A)
      → Tame view m
      → Tame view n
      → Tame view (if b then m else n)
  if-Tame true m n hm hn s = hm s
  if-Tame false m n hm hn s = hn s

  pub pure-Tame : {A : Type 0} (a : A) → Tame view (pure a)
  pure-Tame a s = record { calls = refl; stays = λ t e. cc }

  pub context-Tame : {A : Type 0} (a : Option A) (e : Error) → Tame view (context a e)
  context-Tame none e s = record { calls = refl; stays = λ t x. cc }
  context-Tame (some a) e s = pure-Tame a s

  pub lift-Tame : {A : Type 0} (r : Result A) → Tame view (lift r)
  lift-Tame (Result.ok a) s = record { calls = refl; stays = λ t x. cc }
  lift-Tame (Result.err e) s = record { calls = refl; stays = λ t x. cc }

  -- what a run by its result has left of the view
  pub Tame-same :
      {A : Type 0} (m : Action A) {r : Outcome A} {s t : Machine}
      → Tame view m
      → m s ≡ (r, t)
      → view t.calls ≡ view s.calls
  Tame-same m {s} is e = sym (ap (λ (q : Outcome _ × Machine). view q.1.calls) e) ∙ (is s).calls

pub closing_tcg-Tame : (m : Action (Unit {0})) → Tame entered m → Tame entered (closing_tcg m)
unfolding entered
closing_tcg-Tame m is s = record {
  calls = (is s).calls;
  stays = λ t e. (is s).stays (m s).1 (ap (λ (r : Outcome (Unit {0}) × Machine). (r.0, (m s).1)) e);
}

pub reported-Tame :
    (r : Outcome (Unit {0}) × Machine) (s : Machine)
    → IsTame entered r s
    → IsTame entered (reported r) s
reported-Tame (ok u, t) s is = is
reported-Tame (err e, t) s is = record { calls = is.calls; stays = λ u x. cc }
reported-Tame (gone, t) s is = is

pub boot-entered :
    {A : Type 0} {r : Outcome A × Machine} {s : Machine} → IsTame boot r s → IsTame entered r s
boot-entered is = record { calls = ap (λ v. v.0) is.calls; stays = is.stays }

pub boot-Tame : {A : Type 0} (m : Action A) → Tame boot m → Tame entered m
boot-Tame m is s = boot-entered (is s)

-- ===== src/Result.antt =====
-- `anyhow::Result` of a function that makes no call of the firmware.
use stub.Prelude.{Option, none, some, Bool, if◌then◌else◌}
use stub.Machine.{Error, Action, pure, fail}

pub data Result (A : Type 0) : Type 0 where
  ok : A → Result A
  err : Error → Result A

infixl 5 ◌>>=◌ ◌>>◌
abbrev pub ◌>>=◌ : {A B : Type 0} → Result A → (A → Result B) → Result B
ok a >>= f = f a
err e >>= f = err e

abbrev pub ◌>>◌ : {B : Type 0} → Result (Unit {0}) → Result B → Result B
m >> k = m >>= λ _. k

-- `option.context(e)`
abbrev pub context : {A : Type 0} → Option A → Error → Result A
context none e = err e
context (some a) e = ok a

-- `ensure!(test, e)`
abbrev pub ensure : Bool → Error → Result (Unit {0})
ensure b e = if b then ok tt else err e

-- `result?` in a function that also makes calls
abbrev pub lift : {A : Type 0} → Result A → Action A
lift (ok a) = pure a
lift (err e) = fail e

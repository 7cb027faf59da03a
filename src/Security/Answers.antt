-- ===== src/Security/Answers.antt =====
-- The answers of src/security.rs against the variables of the firmware.
use stub.Prelude.{
  ℕ, ◌≡◌, ◌↔◌, inl, inr, ap, sym, ◌∙◌, Bool, true, false, Option, none, some, List, [], ◌∷◌, arith,
  Bool-cases, if◌then◌else◌, length, leb,
}
use stub.Machine.{Machine, Outcome, ok, Firmware, Call}
use stub.Security.{is_one, read_bool_variable}

-- A variable as `get_variable` gives it: an error if it is not there, or longer than the buffer.
abbrev pub into : ℕ → Option (List ℕ) → Option (List ℕ)
into size none = none
into size (some bytes) = if leb (length bytes) size then some bytes else none

-- One that is one byte long or empty begins with a 1 exactly if it is that byte.
is_one-into :
    (variable : Option (List ℕ)) → (is_one (into 1 variable) ≡ true) ↔ (variable ≡ some (1 ∷ []))
is_one-into none = (λ e. cc, λ e. cc)
is_one-into (some []) = (λ e. cc, λ e. cc)
is_one-into (some (b ∷ [])) = (
  λ e. let one : b ≡ 1 = ground (arith, e) in ap (λ x. some (x ∷ [])) one,
  λ e. ground (arith, e),
)
is_one-into (some (b ∷ c ∷ bytes)) =
    let long : leb (length (b ∷ c ∷ bytes)) 1 ≡ false = ground arith in
    let refused : into 1 (some (b ∷ c ∷ bytes)) ≡ none = rw long in
    (λ e. cc (e, ap is_one refused), λ e. ap (λ v. is_one (into 1 v)) e)

-- The name has a UCS-2 form of at most 16 units, and the variable is there and is the byte 1.
pub record IsEnabled (firmware : Firmware) (name : List ℕ) (variable : Option (List ℕ))
    : Type 0 where
  pub name_fits : firmware.to_cstr16 name 16 ≡ true
  pub value : variable ≡ some (1 ∷ [])

module _ (firmware : Firmware) (name : List ℕ) (s : Machine) where
  -- the answer, where the name may have no UCS-2 form of 16 units
  abbrev answer : Bool
  answer = if firmware.to_cstr16 name 16 then is_one (firmware.get_variable s name 1) else false

  pub read_bool_variable-answer : read_bool_variable firmware name s ≡ (
    ok answer,
    if firmware.to_cstr16 name 16
        then record s { calls = Call.get_variable name 1 ∷ s.calls }
        else s,
  )
  unfolding read_bool_variable
  read_bool_variable-answer = elim (Bool-cases (firmware.to_cstr16 name 16)) [
    | inl fits ↦ rw fits
    | inr long ↦ rw long
  ]

  module _ (variable : Option (List ℕ))
      (holds : (size : ℕ) → firmware.get_variable s name size ≡ into size variable) where
    -- If the firmware gives a variable to a buffer that holds it, and an error for one that is not
    -- there or is longer than the buffer, read_bool_variable never fails, and its answer is true
    -- exactly if the name fits 16 units of UCS-2 and the variable is there and is the one byte 1.
    pub read_bool_variable-IsEnabled :
        (answered : Bool) × ((read_bool_variable firmware name s).0 ≡ ok answered)
        × ((answered ≡ true) ↔ IsEnabled firmware name variable)
    read_bool_variable-IsEnabled =
        (answer, ap (λ (r : Outcome Bool × Machine). r.0) read_bool_variable-answer, (only, enough))
      where
        only : answer ≡ true → IsEnabled firmware name variable
        only e = elim (Bool-cases (firmware.to_cstr16 name 16)) [
          | inl fits ↦ record {
            name_fits = fits;
            value = (is_one-into variable).0 (
                ap is_one (sym (holds 1))
                ∙ sym (ap (λ b. if b then is_one (firmware.get_variable s name 1) else false) fits)
                ∙ e);
          }
          | inr long ↦ ground (arith, long, e)
        ]

        enough : IsEnabled firmware name variable → answer ≡ true
        enough is = rw (is.name_fits, holds 1) ((is_one-into variable).1 is.value)

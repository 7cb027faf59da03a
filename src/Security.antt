-- ===== src/Security.antt =====
-- src/security.rs: two one-byte variables of the firmware.
--
-- The variable is read into a buffer of one byte. The uefi crate converts a name to UCS-2 in a buffer of 16 units: whether it can is an answer.
pub mod Answers
mod Tests
use stub.Prelude.{ℕ, Bool, false, Option, none, some, List, [], ◌∷◌, ◌==◌, if◌then◌else◌}
use stub.Machine.{Firmware, Action, Call, pure, ask, ◌>>=◌}

-- "SetupMode"
abbrev pub setup_mode_name : List ℕ
setup_mode_name = b'S' ∷ b'e' ∷ b't' ∷ b'u' ∷ b'p' ∷ b'M' ∷ b'o' ∷ b'd' ∷ b'e' ∷ []

-- "SecureBoot"
abbrev pub secure_boot_name : List ℕ
secure_boot_name = b'S' ∷ b'e' ∷ b'c' ∷ b'u' ∷ b'r' ∷ b'e' ∷ b'B' ∷ b'o' ∷ b'o' ∷ b't' ∷ []

-- `Ok((data, _)) => data.first() == Some(1)`
abbrev pub is_one : Option (List ℕ) → Bool
is_one none = false
is_one (some []) = false
is_one (some (b ∷ _)) = b == 1

module _ (firmware : Firmware) where
  -- `read_bool_variable`
  unfoldable pub read_bool_variable : List ℕ → Action Bool
  read_bool_variable name =
      if firmware.to_cstr16 name 16
      then (do
        reply ← ask (Call.get_variable name 1) (λ s. firmware.get_variable s name 1)
        pure (is_one reply))
      else pure false

  unfoldable pub is_setup_mode : Action Bool
  is_setup_mode = read_bool_variable setup_mode_name

  unfoldable pub is_secure_boot_enabled : Action Bool
  is_secure_boot_enabled = read_bool_variable secure_boot_name

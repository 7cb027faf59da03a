-- ===== src/Policy.antt =====
-- src/policy/: the command line to boot with, in the two builds of the stub.
pub mod Luks
pub mod Final
pub mod Decision
pub mod Sample
mod Tests
use stub.Prelude.{ℕ, Bool, true, false, not, Option, none, some, List, length, if◌then◌else◌}
use stub.Machine.{Machine, Outcome, ok, Firmware, Action, Error, pure, ensure, ◌>>=◌, ◌>>◌}
use stub.Tpm2.{is_available}
use stub.Policy.Luks.{Base64, try_inject}

-- `if let Some(combined)`, and the command line of the image otherwise
abbrev pub or_base : Option (List ℕ) → Option (List ℕ) → Option (List ℕ)
or_base none base = base
or_base (some combined) base = some combined

module _ (firmware : Firmware) where
  -- `cmdline` without the feature muak: a copy, whose allocation may fail
  unfoldable pub copy_cmdline : Option (List ℕ) → Action (Option (List ℕ))
  copy_cmdline none = pure none
  copy_cmdline (some base) = do
    (λ s. ensure (firmware.reserve s (length base)) Error.cmdline_copy_failed s)
    pure (some base)

  -- `cmdline` with the feature muak
  unfoldable pub policy_cmdline : Base64 → Option (List ℕ) → Action (Option (List ℕ))
  policy_cmdline base64 base = do
    available ← is_available firmware
    if available
        then pure base
        else (do combined ← try_inject firmware base64 base; pure (or_base combined base))

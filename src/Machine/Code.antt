-- ===== src/Machine/Code.antt =====
-- The UEFI status codes that the sources name; any other is `other`.
use stub.Prelude.{ℕ, Bool, true, false}

pub data Status : Type 0 where
  success unsupported not_found invalid_parameter buffer_too_small : Status
  other : ℕ → Status

-- `status == Status::SUCCESS`
abbrev pub is_success : Status → Bool
is_success Status.success = true
is_success _ = false

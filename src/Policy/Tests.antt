-- ===== src/Policy/Tests.antt =====
-- The policy at a small command line and key.
use stub.Prelude.{ℕ, ◌≡◌, false, Option, some, List, [], ◌∷◌}
use stub.Machine.{Call, FileRead}
use stub.Machine.Sample.{start}
use stub.Policy.{policy_cmdline}
use stub.Policy.Decision.{decide, policy_cmdline-decide}
use stub.Policy.Sample.{letters, base64, is_encoding, key, keyed}

abbrev base : Option (List ℕ)
base = some (b'a' ∷ b'\n' ∷ [])

policy_cmdline-decide_example : policy_cmdline keyed base64 base start ≡ (
  decide letters false (FileRead.contents key) base,
  record start { calls = Call.read_luks ∷ Call.locate_tcg ∷ [] },
)
policy_cmdline-decide_example = policy_cmdline-decide base64 letters is_encoding keyed base start

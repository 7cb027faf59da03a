-- ===== src/Loader/Protocol.antt =====
-- src/pe/loader/protocol.rs: a protocol of the firmware is looked up by its GUID.
use stub.Prelude.{ℕ, not, ◌&&◌, Option, none, some, ◌==◌, if◌then◌else◌}
use stub.Machine.{Firmware, Action, Call, Status, is_success, ok, pure, ask, ◌>>=◌}

-- the interface pointer, if the call succeeded and left one
abbrev pub found : Status × ℕ → Option ℕ
found (status, interface) =
    if is_success status && not (interface == 0) then some interface else none

-- `locate_raw`; without a system table no call is made
unfoldable pub locate_raw : Firmware → ℕ → Action (Option ℕ)
locate_raw firmware guid s =
    if firmware.has_system_table s
    then (do
      reply ← ask (Call.locate_protocol guid) (λ t. firmware.locate_protocol t guid)
      pure (found reply))
        s
    else (ok none, s)

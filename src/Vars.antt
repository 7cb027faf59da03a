-- ===== src/Vars.antt =====
-- src/vars/: the Boot Loader Interface variables, set before the kernel is started.
--
-- A text is its list of Unicode scalar values. The uefi crate prints GUIDs and the UEFI revision:
-- `Printer` is these two functions.
pub mod Utf16
pub mod Export
pub mod Requests
pub mod Paths
mod Scenarios
mod Tests
use stub.Prelude.{
  ℕ, zero, suc, ◌+◌, ◌-◌, ◌/◌, ◌%◌, ◌^◌, Bool, true, false, Option, none, some, List, [], ◌∷◌, ◌++◌,
  ltb, if◌then◌else◌, bit_and, length,
}
use stub.Word.{to_le}
use stub.Machine.{Firmware, Action, Call, Node, pure, ask, ◌>>=◌, ◌>>◌}

pub record Printer : Type 0 where
  pub guid : ℕ → List ℕ
  pub uefi_revision : List ℕ

-- `str::encode_utf16`
unfoldable pub encode_utf16 : List ℕ → List ℕ
encode_utf16 [] = []
encode_utf16 (c ∷ cs) =
    (if ltb c 0x1_0000
      then c ∷ []
      else (0xd800 + (c - 0x1_0000) / 0x400) ∷ (0xdc00 + (c - 0x1_0000) % 0x400) ∷ [])
    ++ encode_utf16 cs

-- `flat_map(u16::to_le_bytes)`
unfoldable pub unit_bytes : List ℕ → List ℕ
unit_bytes [] = []
unit_bytes (u ∷ us) = to_le 2 u ++ unit_bytes us

-- `utf16_bytes`
unfoldable pub utf16_bytes : List ℕ → List ℕ
utf16_bytes value = unit_bytes (encode_utf16 value)

-- a number in decimal, put in front of `acc`; `n < 10 ^ fuel` is enough fuel
unfoldable pub digits : ℕ → ℕ → List ℕ → List ℕ
digits zero n acc = acc
digits (suc fuel) n acc =
    let rest = digits fuel (n / 10) ((48 + n % 10) ∷ acc) in
    if ltb n 10 then (48 + n) ∷ acc else rest

-- `{}` of a u32: ten digits are enough
abbrev pub decimal : ℕ → List ℕ
decimal n = digits 10 n []

-- `{:02}`
abbrev pub two_digits : ℕ → List ℕ
two_digits n = if ltb (length (decimal n)) 2 then 48 ∷ decimal n else decimal n

-- `format_info`; `revision >> 16` and `revision & 0xFFFF`
unfoldable pub format_info : List ℕ → ℕ → List ℕ
format_info vendor revision =
    vendor ++ b' ' ∷ (decimal (revision / 2 ^ 16) ++ b'.' ∷ two_digits (bit_and revision 0xffff))

-- the closure of `find_map` in `partition_guid`
abbrev pub node_guid : Node → Option ℕ
node_guid (Node.guid_signed guid) = some guid
node_guid _ = none

-- `partition_guid`
unfoldable pub partition_guid : List Node → Option ℕ
partition_guid [] = none
partition_guid (node ∷ rest) = elim (node_guid node) [
  | some guid ↦ some guid
  | none ↦ partition_guid rest
]

-- "LoaderDevicePartUUID", "LoaderFirmwareInfo" and "LoaderFirmwareType"
abbrev pub device_part_uuid : List ℕ
device_part_uuid =
    b'L' ∷ b'o' ∷ b'a' ∷ b'd' ∷ b'e' ∷ b'r' ∷ b'D' ∷ b'e' ∷ b'v' ∷ b'i' ∷ b'c' ∷ b'e' ∷ b'P' ∷ b'a'
    ∷ b'r' ∷ b't' ∷ b'U' ∷ b'U' ∷ b'I' ∷ b'D' ∷ []

abbrev pub firmware_info : List ℕ
firmware_info =
    b'L' ∷ b'o' ∷ b'a' ∷ b'd' ∷ b'e' ∷ b'r' ∷ b'F' ∷ b'i' ∷ b'r' ∷ b'm' ∷ b'w' ∷ b'a' ∷ b'r' ∷ b'e'
    ∷ b'I' ∷ b'n' ∷ b'f' ∷ b'o' ∷ []

abbrev pub firmware_type : List ℕ
firmware_type =
    b'L' ∷ b'o' ∷ b'a' ∷ b'd' ∷ b'e' ∷ b'r' ∷ b'F' ∷ b'i' ∷ b'r' ∷ b'm' ∷ b'w' ∷ b'a' ∷ b'r' ∷ b'e'
    ∷ b'T' ∷ b'y' ∷ b'p' ∷ b'e' ∷ []

-- `VariableAttributes::empty()`
abbrev pub no_attributes : ℕ
no_attributes = 0

-- "UEFI "
abbrev pub uefi_word : List ℕ
uefi_word = b'U' ∷ b'E' ∷ b'F' ∷ b'I' ∷ b' ' ∷ []

module _ (firmware : Firmware) (printer : Printer) where
  -- `export_variable`; the outcome of `set_variable` is only reported
  unfoldable pub export_variable : List ℕ → List ℕ → Action (Unit {0})
  export_variable name value = do
    exists ← ask (Call.variable_exists name) (λ s. firmware.variable_exists s name)
    let bytes = utf16_bytes value
    if exists then pure tt else (do
      set ←
          ask (Call.set_variable name no_attributes bytes)
            (λ s. firmware.set_variable s name no_attributes bytes)
      pure tt)

  -- `firmware::export`, for the vendor and the revision of the firmware
  unfoldable pub export_firmware : List ℕ → ℕ → Action (Unit {0})
  export_firmware vendor revision = do
    export_variable firmware_info (format_info vendor revision)
    export_variable firmware_type (uefi_word ++ printer.uefi_revision)

  abbrev pub export_guid : Option ℕ → Action (Unit {0})
  export_guid none = pure tt
  export_guid (some guid) = export_variable device_part_uuid (printer.guid guid)

  -- with the device path open; it is closed behind that
  abbrev pub export_path : Option (List Node) → Action (Unit {0})
  export_path none = pure tt
  export_path (some nodes) = do
    export_guid (partition_guid nodes)
    ask Call.close_device_path (λ s. tt)

  -- `disk::export`
  unfoldable pub export_disk : Option ℕ → Action (Unit {0})
  export_disk none = pure tt
  export_disk (some device) = do
    reply ← ask (Call.open_device_path device) (λ s. firmware.open_device_path s device)
    export_path reply

  -- `vars::export`
  unfoldable pub export : List ℕ → ℕ → Option ℕ → Action (Unit {0})
  export vendor revision device = export_firmware vendor revision >> export_disk device

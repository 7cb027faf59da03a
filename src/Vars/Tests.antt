-- ===== src/Vars/Tests.antt =====
-- The exported variables at a small vendor, revision and device path.
use stub.Prelude.{
  Bool, ltb, ℕ, ◌/◌, ◌%◌, ◌^◌, ◌≡◌, ◌≤◌, refl, inl, inr, none, some, List, [], ◌∷◌, ◌++◌, All,
  arith, length,
}
use stub.Machine.{Machine, ok, Firmware, Node}
use stub.Machine.Sample.{firmware, start}
use stub.Loader.Cmdline.Ucs2.{units}
use stub.Vars.{Printer, utf16_bytes, format_info, export}
use stub.Vars.Utf16.{
  IsScalar, IsDigit, decode_utf16, value_from, decode-utf16_bytes, format_info-halves,
}
use stub.Vars.Export.{sets}
use stub.Vars.Requests.{request, firmware_variables, guid_variables, path_guid, export-Sets}

abbrev printer : Printer
printer = record { guid = λ g. 48 ∷ []; uefi_revision = 50 ∷ [] }

-- "a" and a character outside the basic plane
abbrev text : List ℕ
text = 97 ∷ 0x1_f600 ∷ []

scalars : All IsScalar text
scalars = (inl (omega arith), (inr (omega arith, omega arith), tt))

decode-utf16_bytes_example : decode_utf16 none (units (utf16_bytes text)) ≡ text
decode-utf16_bytes_example = decode-utf16_bytes text scalars

format_info-halves_example :
    (major : List ℕ) × (minor : List ℕ) × (format_info (69 ∷ []) 0x2_0007
      ≡ (69 ∷ []) ++ b' ' ∷ (major ++ b'.' ∷ minor))
    × All IsDigit major
    × All IsDigit minor
    × (value_from 0 major ≡ 0x2_0007 / 2 ^ 16)
    × (value_from 0 minor ≡ 0x2_0007 % 2 ^ 16)
    × (2 ≤ length minor)
format_info-halves_example = format_info-halves (69 ∷ []) 0x2_0007 (omega arith)

abbrev nodes : List Node
nodes = Node.not_hard_drive ∷ Node.guid_signed 5 ∷ []

-- a firmware that has the variables with such a long name: the partition's
abbrev has_long : List ℕ → Bool
has_long name = ltb 18 (length name)

abbrev partial : Firmware
partial = record firmware { variable_exists = λ s name. has_long name }

export-Sets_example :
    (t : Machine) × (export partial printer (69 ∷ []) 0x2_0007 (some 2) start ≡ (ok tt, t))
    × (sets t.calls
        ≡ request has_long
            (firmware_variables printer (69 ∷ []) 0x2_0007
              ++ guid_variables printer (path_guid (some nodes)))
            (sets start.calls))
export-Sets_example =
    export-Sets partial printer has_long (λ t name. refl) (69 ∷ []) 0x2_0007 (some 2) (some nodes)
      start (λ t. refl)

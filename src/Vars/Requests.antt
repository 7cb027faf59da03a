-- ===== src/Vars/Requests.antt =====
-- What `vars::export` of src/vars/ asks the firmware to set, for a firmware that has some of the
-- variables already.
use stub.Prelude.{
  ℕ, ◌≡◌, refl, ap, sym, ◌∙◌, Bool, false, Option, none, some, List, [], ◌∷◌, ◌++◌, if◌then◌else◌,
  Bool-cases, inl, inr,
}
use stub.Machine.{Machine, ok, Firmware, Call, Node, Action, resume, ◌>>◌, ask}
use stub.Vars.{
  Printer, utf16_bytes, format_info, partition_guid, device_part_uuid, firmware_info, firmware_type,
  uefi_word, no_attributes, export_variable, export_firmware, export_guid, export_path, export_disk,
  export,
}
use stub.Vars.Export.{sets}

-- The requests for some variables, on top of earlier ones: those that are known are left out.
abbrev pub request :
    (List ℕ → Bool)
    → List (List ℕ × List ℕ)
    → List (List ℕ × ℕ × List ℕ)
    → List (List ℕ × ℕ × List ℕ)
request known [] before = before
request known ((name, text) ∷ rest) before =
    request known rest
      (if known name then before else (name, no_attributes, utf16_bytes text) ∷ before)

-- the variables of the firmware, and that of the partition if it has a GUID
abbrev pub firmware_variables : Printer → List ℕ → ℕ → List (List ℕ × List ℕ)
firmware_variables printer vendor revision =
    (firmware_info, format_info vendor revision)
    ∷ (firmware_type, uefi_word ++ printer.uefi_revision)
    ∷ []

abbrev pub guid_variables : Printer → Option ℕ → List (List ℕ × List ℕ)
guid_variables printer none = []
guid_variables printer (some guid) = (device_part_uuid, printer.guid guid) ∷ []

abbrev pub path_guid : Option (List Node) → Option ℕ
path_guid none = none
path_guid (some nodes) = partition_guid nodes

-- What the device path of the image's device holds: nothing without a device, or if it does not open.
abbrev pub Opens : Firmware → Option ℕ → Option (List Node) → Type 0
Opens firmware none path = path ≡ none
Opens firmware (some device) path = (t : Machine) → firmware.open_device_path t device ≡ path

module _ (firmware : Firmware) (printer : Printer) (known : List ℕ → Bool)
    (exist : (t : Machine) (name : List ℕ) → firmware.variable_exists t name ≡ known name) where
  -- A run that never fails and asks for these variables.
  abbrev Sets : Action (Unit {0}) → List (List ℕ × List ℕ) → Type 0
  Sets m variables =
      (s : Machine)
      → (t : Machine) × (m s ≡ (ok tt, t)) × (sets t.calls ≡ request known variables (sets s.calls))

  export_variable-Sets :
      (name text : List ℕ) → Sets (export_variable firmware printer name text) ((name, text) ∷ [])
  unfolding export_variable sets
  export_variable-Sets name text s =
      let asked : Machine = record s { calls = Call.variable_exists name ∷ s.calls } in
      elim (Bool-cases (known name)) [
        | inl is ↦ (asked, rw (exist s name, is), rw is)
        | inr new ↦ (
          record asked {
            calls = Call.set_variable name no_attributes (utf16_bytes text) ∷ asked.calls;
          },
          rw (exist s name, new),
          rw new,
        )
      ]

  request-append :
      (xs ys : List (List ℕ × List ℕ)) (before : List (List ℕ × ℕ × List ℕ))
      → request known ys (request known xs before) ≡ request known (xs ++ ys) before
  request-append [] ys before = refl
  request-append ((name, text) ∷ xs) ys before = request-append xs ys _

  bind-Sets :
      (m n : Action (Unit {0})) (xs ys : List (List ℕ × List ℕ))
      → Sets m xs
      → Sets n ys
      → Sets (m >> n) (xs ++ ys)
  bind-Sets m n xs ys first second s =
      let (t, e, calls) = first s in
      let (u, e', calls') = second t in
      (
        u,
        ap (resume (λ _. n)) e ∙ e',
        calls' ∙ ap (request known ys) calls ∙ request-append xs ys (sets s.calls),
      )

  export_guid-Sets :
      (guid : Option ℕ) → Sets (export_guid firmware printer guid) (guid_variables printer guid)
  export_guid-Sets none s = (s, refl, refl)
  export_guid-Sets (some guid) s = export_variable-Sets device_part_uuid (printer.guid guid) s

  export_path-Sets :
      (nodes : Option (List Node))
      → Sets (export_path firmware printer nodes) (guid_variables printer (path_guid nodes))
  unfolding sets
  export_path-Sets none s = (s, refl, refl)
  export_path-Sets (some nodes) s =
      let (t, e, calls) = export_guid-Sets (partition_guid nodes) s in
      (
        record t { calls = Call.close_device_path ∷ t.calls },
        ap (resume (λ _. ask Call.close_device_path (λ u. tt))) e,
        calls,
      )

  export_firmware-Sets :
      (vendor : List ℕ) (revision : ℕ)
      → Sets
          (export_firmware firmware printer vendor revision)
          (firmware_variables printer vendor revision)
  unfolding export_firmware
  export_firmware-Sets vendor revision =
      bind-Sets (export_variable firmware printer firmware_info (format_info vendor revision))
        (export_variable firmware printer firmware_type (uefi_word ++ printer.uefi_revision))
        ((firmware_info, format_info vendor revision) ∷ [])
        ((firmware_type, uefi_word ++ printer.uefi_revision) ∷ [])
        (export_variable-Sets firmware_info (format_info vendor revision))
        (export_variable-Sets firmware_type (uefi_word ++ printer.uefi_revision))

  export_disk-Sets :
      (device : Option ℕ) (path : Option (List Node))
      → Opens firmware device path
      → Sets (export_disk firmware printer device) (guid_variables printer (path_guid path))
  unfolding export_disk sets
  export_disk-Sets none path no_path s = (
    s,
    refl,
    ap (λ x. request known (guid_variables printer (path_guid x)) (sets s.calls)) (sym no_path),
  )
  export_disk-Sets (some device) path opens s =
      let opened : Machine = record s { calls = Call.open_device_path device ∷ s.calls } in
      let (t, e, calls) = export_path-Sets path opened in (t, rw (opens s) e, calls)

  -- For a firmware whose answer to whether a variable exists depends on its name alone, and a
  -- device whose path opens to the same nodes whenever asked, or never, or no device, export never
  -- fails, and asks for exactly those of the three variables to be set that do not exist, in the
  -- order firmware description, firmware type, partition, the last only if the path has a
  -- partition GUID, each to the UTF-16 of its text and with no attributes.
  pub export-Sets :
      (vendor : List ℕ) (revision : ℕ) (device : Option ℕ) (path : Option (List Node)) (s : Machine)
      → Opens firmware device path
      → (t : Machine) × (export firmware printer vendor revision device s ≡ (ok tt, t))
        × (sets t.calls
            ≡ request known
                (firmware_variables printer vendor revision
                  ++ guid_variables printer (path_guid path))
                (sets s.calls))
  unfolding export
  export-Sets vendor revision device path s opens =
      bind-Sets (export_firmware firmware printer vendor revision)
        (export_disk firmware printer device) (firmware_variables printer vendor revision)
        (guid_variables printer (path_guid path)) (export_firmware-Sets vendor revision)
        (export_disk-Sets device path opens) s

-- All three variables, of a firmware that has none of them.
pub export_first :
    (firmware : Firmware) (printer : Printer) (vendor : List ℕ) (revision device guid : ℕ)
    (nodes : List Node) (s : Machine)
    → ((t : Machine) (name : List ℕ) → firmware.variable_exists t name ≡ false)
    → ((t : Machine) → firmware.open_device_path t device ≡ some nodes)
    → partition_guid nodes ≡ some guid
    → (t : Machine) × (export firmware printer vendor revision (some device) s ≡ (ok tt, t))
      × (sets t.calls
          ≡ (device_part_uuid, 0, utf16_bytes (printer.guid guid))
            ∷ (firmware_type, 0, utf16_bytes (uefi_word ++ printer.uefi_revision))
            ∷ (firmware_info, 0, utf16_bytes (format_info vendor revision))
            ∷ sets s.calls)
export_first firmware printer vendor revision device guid nodes s new path found =
    let (t, e, calls) =
      export-Sets firmware printer (λ name. false) new vendor revision (some device) (some nodes) s
        path in
    let variables = firmware_variables printer vendor revision in
    (
      t,
      e,
      calls
          ∙ ap (λ g. request (λ name. false) (variables ++ guid_variables printer g) (sets s.calls))
              found,
    )

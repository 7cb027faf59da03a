-- ===== src/Vars/Export.antt =====
-- What src/vars/ sets, and what it leaves alone.
use stub.Prelude.{
  ℕ, ◌≡◌, ◌↔◌, refl, ap, ◌∙◌, true, Option, none, some, List, [], ◌∷◌, ◌++◌, arith, All, inl, inr,
  Option-cases,
}
use stub.Machine.{Machine, Outcome, ok, Firmware, Call, Node}
use stub.Vars.{
  Printer, format_info, node_guid, partition_guid, device_part_uuid, firmware_info, firmware_type,
  uefi_word, export_variable, export_firmware, export_disk, export,
}

-- the variables that were to be set among some calls, latest first: name, attributes and bytes
unfoldable pub sets : List Call → List (List ℕ × ℕ × List ℕ)
sets [] = []
sets (Call.set_variable name attributes bytes ∷ rest) = (name, attributes, bytes) ∷ sets rest
sets (_ ∷ rest) = sets rest

-- `guid` is that of the first hard-drive node with a GUID signature.
pub record IsPartition (nodes : List Node) (guid : ℕ) : Type 0 where
  pub before : List Node
  pub after : List Node
  pub split : nodes ≡ before ++ Node.guid_signed guid ∷ after
  pub others : All (λ node. node_guid node ≡ none) before

partition_guid-first :
    (before after : List Node) (guid : ℕ)
    → All (λ node. node_guid node ≡ none) before
    → partition_guid (before ++ Node.guid_signed guid ∷ after) ≡ some guid
unfolding partition_guid
partition_guid-first [] after guid h = refl
partition_guid-first (node ∷ before) after guid h =
    ground (arith, partition_guid-first before after guid h.1)

IsPartition-cons :
    (node : Node) {nodes : List Node} {guid : ℕ}
    → node_guid node ≡ none
    → IsPartition nodes guid
    → IsPartition (node ∷ nodes) guid
IsPartition-cons node other is = record {
  before = node ∷ is.before;
  after = is.after;
  split = ap (λ ns. node ∷ ns) is.split;
  others = (other, is.others);
}

partition_guid-IsPartition :
    (nodes : List Node) (guid : ℕ) → partition_guid nodes ≡ some guid → IsPartition nodes guid
unfolding partition_guid
partition_guid-IsPartition [] guid e = cc
partition_guid-IsPartition (Node.guid_signed g ∷ nodes) guid e = record {
  before = [];
  after = nodes;
  split = ground arith;
  others = tt;
}
partition_guid-IsPartition (Node.mbr_signed m ∷ nodes) guid e =
    IsPartition-cons (Node.mbr_signed m) refl (partition_guid-IsPartition nodes guid e)
partition_guid-IsPartition (Node.unsigned ∷ nodes) guid e =
    IsPartition-cons Node.unsigned refl (partition_guid-IsPartition nodes guid e)
partition_guid-IsPartition (Node.unknown_signature ∷ nodes) guid e =
    IsPartition-cons Node.unknown_signature refl (partition_guid-IsPartition nodes guid e)
partition_guid-IsPartition (Node.not_hard_drive ∷ nodes) guid e =
    IsPartition-cons Node.not_hard_drive refl (partition_guid-IsPartition nodes guid e)

-- The partition's GUID is found exactly if it is that of the first hard-drive node with a GUID
-- signature, whatever stands before and behind that node.
pub partition_guid_lem :
    (nodes : List Node) (guid : ℕ) → (partition_guid nodes ≡ some guid) ↔ IsPartition nodes guid
partition_guid_lem nodes guid = (
  partition_guid-IsPartition nodes guid,
  λ is. ap partition_guid is.split ∙ partition_guid-first is.before is.after guid is.others,
)

abbrev called : Call → Machine → Machine
called c s = record s { calls = c ∷ s.calls }

-- what one export has done, and that it sets nothing
abbrev Quiet : Machine → Outcome (Unit {0}) × Machine → Type 0
Quiet s r = (t : Machine) × (r ≡ (ok tt, t)) × (sets t.calls ≡ sets s.calls)

module _ (firmware : Firmware) (printer : Printer) where
  export_variable-kept :
      (name value : List ℕ) (s : Machine)
      → firmware.variable_exists s name ≡ true
      → export_variable firmware printer name value s
        ≡ (ok tt, called (Call.variable_exists name) s)
  unfolding export_variable
  export_variable-kept name value s e = rw e

  module _ (exist : (t : Machine) (name : List ℕ) → firmware.variable_exists t name ≡ true) where
    export_disk-Quiet :
        (device : Option ℕ) (s : Machine) → Quiet s (export_disk firmware printer device s)
    unfolding export_disk sets
    export_disk-Quiet none s = (s, refl, refl)
    export_disk-Quiet (some device) s = elim (Option-cases (firmware.open_device_path s device)) [
      | inl closed ↦ (called (Call.open_device_path device) s, rw closed, refl)
      | inr (nodes, path) ↦
          let opened = called (Call.open_device_path device) s in
          elim (Option-cases (partition_guid nodes)) [
            | inl missing ↦ (called Call.close_device_path opened, rw (path, missing), refl)
            | inr (guid, found) ↦ (
              called Call.close_device_path (called (Call.variable_exists device_part_uuid) opened),
              rw (
                path,
                found,
                export_variable-kept device_part_uuid (printer.guid guid) opened
                    (exist opened device_part_uuid),
              ),
              refl,
            )
          ]
    ]

  -- If every variable exists already, export never fails and asks for none to be set, whatever the
  -- device and its path.
  pub export_existing :
      (vendor : List ℕ) (revision : ℕ) (device : Option ℕ) (s : Machine)
      → ((t : Machine) (name : List ℕ) → firmware.variable_exists t name ≡ true)
      → (t : Machine) × (export firmware printer vendor revision device s ≡ (ok tt, t))
        × (sets t.calls ≡ sets s.calls)
  unfolding export export_firmware sets
  export_existing vendor revision device s exist =
      let a = called (Call.variable_exists firmware_info) s in
      let b = called (Call.variable_exists firmware_type) a in
      let (t, e, quiet) = export_disk-Quiet exist device b in
      (
        t,
        rw
            (
              export_variable-kept firmware_info (format_info vendor revision) s
                  (exist s firmware_info),
              export_variable-kept firmware_type (uefi_word ++ printer.uefi_revision) a
                  (exist a firmware_type),
            )
            e,
        quiet,
      )

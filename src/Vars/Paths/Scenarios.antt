-- ===== src/Vars/Paths/Scenarios.antt =====
-- The tests of src/vars/disk.rs, each with what it asserts, named after it. The uefi
-- crate reads the bytes as nodes, and prints the GUID that is found.
use stub.Prelude.{ℕ, ◌≡◌, refl, ap, ◌∙◌, Option, some, none, List, [], ◌∷◌, All, replicate}
use stub.Word.{from_le}
use stub.Machine.{Node}
use stub.Vars.{partition_guid, device_part_uuid}
use stub.Vars.Paths.{
  hard_drive_node, pci_node, file_path_node, device_path_bytes, ReadsPaths, Part, IsPart,
  part_nodes, parts_bytes, device_path_bytes-part_nodes,
}

-- SIGNATURE_BYTES, and the GUID that it stands for
abbrev pub signature_bytes : List ℕ
signature_bytes =
    0x44 ∷ 0x2d ∷ 0x1f ∷ 0x6b ∷ 0x85 ∷ 0x9c ∷ 0x8a ∷ 0x4c ∷ 0x9d ∷ 0x1e ∷ 0x0e ∷ 0x2f ∷ 0x31 ∷ 0xa4
    ∷ 0xb5 ∷ 0xc6 ∷ []

-- PARTUUID_TEXT, as a number
abbrev pub partuuid : ℕ
partuuid = 0x6b1f_2d44_9c85_4c8a_9d1e_0e2f_31a4_b5c6

-- "LoaderDevicePartUUID"
abbrev VariableNameMatchesSystemdStub : Type 0
VariableNameMatchesSystemdStub =
    device_part_uuid
    ≡ b'L' ∷ b'o' ∷ b'a' ∷ b'd' ∷ b'e' ∷ b'r' ∷ b'D' ∷ b'e' ∷ b'v' ∷ b'i' ∷ b'c' ∷ b'e' ∷ b'P'
      ∷ b'a' ∷ b'r' ∷ b't' ∷ b'U' ∷ b'U' ∷ b'I' ∷ b'D' ∷ []

module _ (node_iter : List ℕ → List Node) where
  abbrev GptHardDriveNodeYieldsGuid : Type 0
  GptHardDriveNodeYieldsGuid =
      let bytes =
        device_path_bytes (pci_node ∷ hard_drive_node 2 signature_bytes ∷ file_path_node ∷ []) in
      partition_guid (node_iter bytes) ≡ some partuuid

  abbrev MbrSignatureNodeIsSkipped : Type 0
  MbrSignatureNodeIsSkipped =
      let signature = 0xaa ∷ 0xbb ∷ 0xcc ∷ 0xdd ∷ replicate 12 0 in
      let bytes = device_path_bytes (hard_drive_node 1 signature ∷ []) in
      partition_guid (node_iter bytes) ≡ none

  abbrev PathWithoutPartitionNodeYieldsNone : Type 0
  PathWithoutPartitionNodeYieldsNone =
      let bytes = device_path_bytes (pci_node ∷ file_path_node ∷ []) in
      partition_guid (node_iter bytes) ≡ none

  abbrev FirstGuidSignedNodeWins : Type 0
  FirstGuidSignedNodeWins =
      let mbr_signature = 0x12 ∷ 0x34 ∷ 0x56 ∷ 0x78 ∷ replicate 12 0 in
      let bytes =
        device_path_bytes
          (hard_drive_node 1 mbr_signature ∷ hard_drive_node 2 signature_bytes ∷ []) in
      partition_guid (node_iter bytes) ≡ some partuuid

  -- All of them hold, for a reader that finds the nodes.
  scenarios :
      ReadsPaths node_iter
      → VariableNameMatchesSystemdStub × GptHardDriveNodeYieldsGuid × MbrSignatureNodeIsSkipped
        × PathWithoutPartitionNodeYieldsNone × FirstGuidSignedNodeWins
  scenarios reads = (
    refl,
    guid (Part.pci ∷ Part.hard_drive 2 signature_bytes ∷ Part.file_path ∷ []) (tt, (refl, (tt, tt)))
        signed_guid,
    guid (Part.hard_drive 1 (0xaa ∷ 0xbb ∷ 0xcc ∷ 0xdd ∷ replicate 12 0) ∷ []) (refl, tt)
        (unfold partition_guid in refl),
    guid (Part.pci ∷ Part.file_path ∷ []) (tt, (tt, tt)) (unfold partition_guid in refl),
    guid
        (Part.hard_drive 1 (0x12 ∷ 0x34 ∷ 0x56 ∷ 0x78 ∷ replicate 12 0)
          ∷ Part.hard_drive 2 signature_bytes
          ∷ [])
        (refl, (refl, tt)) second_guid,
  )
    where
      guid :
          (parts : List Part) {found : Option ℕ}
          → All IsPart parts
          → partition_guid (part_nodes parts) ≡ found
          → partition_guid (node_iter (device_path_bytes (parts_bytes parts))) ≡ found
      guid parts are e =
          ap partition_guid (device_path_bytes-part_nodes node_iter reads parts are) ∙ e

      signed_guid :
          partition_guid
            (part_nodes (Part.pci ∷ Part.hard_drive 2 signature_bytes ∷ Part.file_path ∷ []))
          ≡ some partuuid
      signed_guid = unfold partition_guid from_le in refl

      second_guid :
          partition_guid (
            part_nodes (
              Part.hard_drive 1 (0x12 ∷ 0x34 ∷ 0x56 ∷ 0x78 ∷ replicate 12 0)
              ∷ Part.hard_drive 2 signature_bytes
              ∷ []))
          ≡ some partuuid
      second_guid = unfold partition_guid from_le in refl

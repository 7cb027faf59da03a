-- ===== src/Vars/Paths.antt =====
-- Device paths as bytes, as the tests of src/vars/disk.rs build them, and what is relied on of the
-- uefi crate, which finds the nodes.
--
-- A device path is a list of nodes: a kind, a subkind, the length of the node in two bytes, and its
-- body; a node of kind 0x7f ends it. A hard-drive node (4, 1) has 42 bytes: twenty of fields behind
-- the header, the signature of sixteen, the partition's format, and the type of the signature.
mod Scenarios
mod Tests
use stub.Prelude.{
  ℕ, ◌+◌, ◌*◌, ◌^◌, ◌<◌, ◌≡◌, ◌≢◌, ◌↔◌, refl, ap, sym, ◌∙◌, some, List, [], ◌∷◌, ◌++◌, All, arith,
  length, append_assoc, take, drop, ◌==◌, if◌then◌else◌,
}
use stub.Word.{to_le, from_le, length-to_le}
use stub.Machine.{Node}
use stub.Vars.{partition_guid}
use stub.Vars.Export.{IsPartition, partition_guid_lem}

-- `hard_drive_node`, of the first GPT partition
unfoldable pub hard_drive_node : ℕ → List ℕ → List ℕ
hard_drive_node signature_type signature =
    (0x04 ∷ 0x01 ∷ [])
    ++ (to_le 2 42
        ++ (to_le 4 1
            ++ (to_le 8 2048 ++ (to_le 8 2048 ++ (signature ++ 0x02 ∷ signature_type ∷ [])))))

unfoldable pub pci_node : List ℕ
pci_node = (0x01 ∷ 0x01 ∷ []) ++ (to_le 2 6 ++ 0x05 ∷ 0x18 ∷ [])

unfoldable pub file_path_node : List ℕ
file_path_node = (0x04 ∷ 0x04 ∷ []) ++ (to_le 2 6 ++ 0x00 ∷ 0x00 ∷ [])

unfoldable pub end_node : List ℕ
end_node = (0x7f ∷ 0xff ∷ []) ++ to_le 2 4

-- the loop of `device_path_bytes`, and the end node behind it
unfoldable pub device_path_bytes : List (List ℕ) → List ℕ
device_path_bytes [] = end_node
device_path_bytes (node ∷ nodes) = node ++ device_path_bytes nodes

-- The GUID in sixteen bytes: a u32 and two u16, lowest byte first, and eight bytes as they stand.
abbrev from_be : ℕ → List ℕ → ℕ
from_be acc [] = acc
from_be acc (b ∷ bs) = from_be (acc * 256 + b) bs

abbrev pub guid_of : List ℕ → ℕ
guid_of bs =
    from_be
      (((from_le (take 4 bs) * 2 ^ 16 + from_le (take 2 (drop 4 bs))) * 2 ^ 16)
        + from_le (take 2 (drop 6 bs)))
      (drop 8 bs)

-- the signature by its type: none, that of an MBR, a GUID, or one that is not known
abbrev pub signed : ℕ → List ℕ → Node
signed signature_type signature =
    if signature_type == 0
    then Node.unsigned
    else if signature_type == 1
    then Node.mbr_signed (from_le (take 4 signature))
    else if signature_type == 2
    then Node.guid_signed (guid_of signature)
    else Node.unknown_signature

-- The bytes of a node, and what the node is.
pub data Encoding : List ℕ → Node → Type 0 where
  hard_drive :
      (fields signature : List ℕ) (format signature_type : ℕ)
      → length fields ≡ 20
      → length signature ≡ 16
      → Encoding
          (4 ∷ 1 ∷ 42 ∷ 0 ∷ (fields ++ (signature ++ format ∷ signature_type ∷ [])))
          (signed signature_type signature)
  other :
      (kind subkind : ℕ) (body : List ℕ)
      → kind ≢ 0x7f
      → ¬ ((kind ≡ 4) × (subkind ≡ 1))
      → length body + 4 < 2 ^ 16
      → Encoding (kind ∷ subkind ∷ (to_le 2 (length body + 4) ++ body)) Node.not_hard_drive

-- What the stub relies on of `DevicePath::node_iter` and `HardDrive::partition_signature`: the nodes
-- are found one behind the other, up to the end node.
pub record ReadsPaths (node_iter : List ℕ → List Node) : Type 0 where
  pub end : (rest : List ℕ) → node_iter (0x7f ∷ 0xff ∷ 4 ∷ 0 ∷ rest) ≡ []
  pub node :
      {bytes : List ℕ} {n : Node}
      → Encoding bytes n
      → (rest : List ℕ) → node_iter (bytes ++ rest) ≡ n ∷ node_iter rest

-- a node of the tests, its bytes, and what it is
pub data Part : Type 0 where
  hard_drive : ℕ → List ℕ → Part
  pci file_path : Part

abbrev pub part_bytes : Part → List ℕ
part_bytes (Part.hard_drive signature_type signature) = hard_drive_node signature_type signature
part_bytes Part.pci = pci_node
part_bytes Part.file_path = file_path_node

abbrev pub part_node : Part → Node
part_node (Part.hard_drive signature_type signature) = signed signature_type signature
part_node _ = Node.not_hard_drive

abbrev pub parts_bytes : List Part → List (List ℕ)
parts_bytes [] = []
parts_bytes (part ∷ parts) = part_bytes part ∷ parts_bytes parts

abbrev pub part_nodes : List Part → List Node
part_nodes [] = []
part_nodes (part ∷ parts) = part_node part ∷ part_nodes parts

-- a signature has sixteen bytes
abbrev pub IsPart : Part → Type 0
IsPart (Part.hard_drive signature_type signature) = length signature ≡ 16
IsPart _ = Unit

Encoding-part_node : (part : Part) → IsPart part → Encoding (part_bytes part) (part_node part)
unfolding hard_drive_node pci_node file_path_node to_le
Encoding-part_node (Part.hard_drive signature_type signature) sixteen =
    Encoding.hard_drive (to_le 4 1 ++ (to_le 8 2048 ++ to_le 8 2048)) signature 0x02 signature_type
      refl sixteen
Encoding-part_node Part.pci is =
    Encoding.other 0x01 0x01 (0x05 ∷ 0x18 ∷ []) (omega arith) (omega arith) (omega arith)
Encoding-part_node Part.file_path is =
    Encoding.other 0x04 0x04 (0x00 ∷ 0x00 ∷ []) (omega arith) (omega arith) (omega arith)

module _ (node_iter : List ℕ → List Node) (reads : ReadsPaths node_iter) where
  -- the path that the tests build is read as the nodes that it was built from
  pub device_path_bytes-part_nodes :
      (parts : List Part)
      → All IsPart parts
      → node_iter (device_path_bytes (parts_bytes parts)) ≡ part_nodes parts
  unfolding device_path_bytes end_node to_le
  device_path_bytes-part_nodes [] h = reads.end []
  device_path_bytes-part_nodes (part ∷ parts) h =
      reads.node (Encoding-part_node part h.0) (device_path_bytes (parts_bytes parts))
      ∙ ap (λ ns. part_node part ∷ ns) (device_path_bytes-part_nodes parts h.1)

  -- If the uefi crate finds the nodes of a device path where its format has them, then of the
  -- bytes that device_path_bytes makes of any hard-drive (with signatures of sixteen bytes), PCI
  -- and file path nodes, partition_guid finds a GUID exactly if it is the signature of the first
  -- hard-drive node whose signature type is that of a GUID, read in the mixed byte order of a
  -- GUID.
  pub device_path_bytes-IsPartition :
      (parts : List Part) (guid : ℕ)
      → All IsPart parts
      → (partition_guid (node_iter (device_path_bytes (parts_bytes parts))) ≡ some guid)
        ↔ IsPartition (part_nodes parts) guid
  device_path_bytes-IsPartition parts guid h =
      let same = ap partition_guid (device_path_bytes-part_nodes parts h) in
      let is = partition_guid_lem (part_nodes parts) guid in
      (λ e. is.0 (sym same ∙ e), λ p. same ∙ is.1 p)

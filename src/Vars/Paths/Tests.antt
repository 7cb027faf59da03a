-- ===== src/Vars/Paths/Tests.antt =====
-- A reader of the format of device paths, and the theorem at two drives.
use stub.Prelude.{
  ℕ, zero, suc, ◌+◌, ◌-◌, ◌*◌, ◌/◌, ◌%◌, ◌≡◌, ◌≢◌, ◌<◌, ◌^◌, ◌↔◌, refl, ap, sym, ◌∙◌, ◌&&◌, false,
  some, take-length, drop-length, get_or-drop, List, [], ◌∷◌, ◌++◌, arith, get_or, take, drop,
  length, ◌==◌, if◌then◌else◌, append_assoc, length-append, replicate,
}
use stub.Word.{to_le}
use stub.Machine.{Node}
use stub.Vars.{partition_guid}
use stub.Vars.Export.{IsPartition}
use stub.Vars.Paths.{
  device_path_bytes, signed, Encoding, ReadsPaths, Part, parts_bytes, part_nodes,
  device_path_bytes-IsPartition,
}
use stub.Vars.Paths.Scenarios.{signature_bytes, partuuid}

-- the node that starts here
abbrev node_at : List ℕ → Node
node_at bytes =
    if get_or bytes 0 0 == 4 && get_or bytes 1 0 == 1
    then signed (get_or bytes 41 0) (take 16 (drop 24 bytes))
    else Node.not_hard_drive

-- its length, without the first byte
abbrev rest_length : List ℕ → ℕ
rest_length bytes = get_or bytes 2 0 + 256 * get_or bytes 3 0 - 1

-- the nodes behind `skip` bytes
abbrev nodes_from : ℕ → List ℕ → List Node
nodes_from skip [] = []
nodes_from (suc skip) (b ∷ bytes) = nodes_from skip bytes
nodes_from zero (b ∷ bytes) =
    let rest = nodes_from (rest_length (b ∷ bytes)) bytes in
    if b == 0x7f then [] else node_at (b ∷ bytes) ∷ rest

skip_all :
    (skipped rest : List ℕ) → nodes_from (length skipped) (skipped ++ rest) ≡ nodes_from 0 rest
skip_all [] rest = refl
skip_all (b ∷ skipped) rest = skip_all skipped rest

other_node :
    (kind subkind n : ℕ) (body rest : List ℕ)
    → kind ≢ 0x7f
    → ¬ ((kind ≡ 4) × (subkind ≡ 1))
    → length body ≡ n
    → n + 4 < 2 ^ 16
    → nodes_from 0 ((kind ∷ subkind ∷ (to_le 2 (n + 4) ++ body)) ++ rest)
      ≡ Node.not_hard_drive ∷ nodes_from 0 rest
unfolding to_le
other_node kind subkind n body rest inner other same short =
    let not_end : (kind == 0x7f) ≡ false = ground arith in
    let kinds : (kind == 4 && subkind == 1) ≡ false = ground arith in
    let long : (n + 4) % 256 + 256 * ((n + 4) / 256 % 256) - 1 ≡ suc (suc (suc n)) = omega arith in
    rw (not_end, kinds, long)
      (ap (λ ns. Node.not_hard_drive ∷ ns)
        (ap (λ k. nodes_from k (body ++ rest)) (sym same) ∙ skip_all body rest))

-- a hard drive's bytes behind its header: the type of the signature, the signature, and the rest
module _ (fields signature rest : List ℕ) (format signature_type : ℕ) (twenty : length fields ≡ 20)
    (sixteen : length signature ≡ 16) where
  abbrev end : List ℕ
  end = format ∷ signature_type ∷ rest

  spread :
      (fields ++ (signature ++ format ∷ signature_type ∷ [])) ++ rest ≡ fields ++ (signature ++ end)
  spread =
      append_assoc fields (signature ++ format ∷ signature_type ∷ []) rest
      ∙ ap (λ xs. fields ++ xs) (append_assoc signature (format ∷ signature_type ∷ []) rest)

  signature_found : take 16 (drop 20 (fields ++ (signature ++ end))) ≡ signature
  signature_found =
      ap (λ k. take 16 (drop k (fields ++ (signature ++ end)))) (sym twenty)
      ∙ ap (take 16) (drop-length fields (signature ++ end))
      ∙ ap (λ k. take k (signature ++ end)) (sym sixteen)
      ∙ take-length signature end

  type_found : get_or (fields ++ (signature ++ end)) 37 0 ≡ signature_type
  type_found =
      sym (get_or-drop 20 (fields ++ (signature ++ end)) 17 0)
      ∙ ap (λ k. get_or (drop k (fields ++ (signature ++ end))) 17 0) (sym twenty)
      ∙ ap (λ xs. get_or xs 17 0) (drop-length fields (signature ++ end))
      ∙ sym (get_or-drop 16 (signature ++ end) 1 0)
      ∙ ap (λ k. get_or (drop k (signature ++ end)) 1 0) (sym sixteen)
      ∙ ap (λ xs. get_or xs 1 0) (drop-length signature end)

  drive_skipped : nodes_from 38 (fields ++ (signature ++ end)) ≡ nodes_from 0 rest
  drive_skipped =
      ap (λ k. nodes_from k (fields ++ (signature ++ end)))
        (omega (
          arith,
          twenty,
          sixteen,
          length-append fields (signature ++ format ∷ signature_type ∷ []),
          length-append signature (format ∷ signature_type ∷ []),
        ))
      ∙ ap (nodes_from (length (fields ++ (signature ++ format ∷ signature_type ∷ []))))
          (sym spread)
      ∙ skip_all (fields ++ (signature ++ format ∷ signature_type ∷ [])) rest

  drive_node :
      nodes_from 0
        ((4 ∷ 1 ∷ 42 ∷ 0 ∷ (fields ++ (signature ++ format ∷ signature_type ∷ []))) ++ rest)
      ≡ signed signature_type signature ∷ nodes_from 0 rest
  drive_node = rw (spread, type_found, signature_found, drive_skipped) refl

reads_node :
    {bytes : List ℕ} {n : Node}
    → Encoding bytes n
    → (rest : List ℕ) → nodes_from 0 (bytes ++ rest) ≡ n ∷ nodes_from 0 rest
reads_node (Encoding.hard_drive fields signature format signature_type twenty sixteen) rest =
    drive_node fields signature rest format signature_type twenty sixteen
reads_node (Encoding.other kind subkind body inner other short) rest =
    other_node kind subkind (length body) body rest inner other refl short

reads : ReadsPaths (nodes_from 0)
reads = record { end = λ rest. refl; node = λ e rest. reads_node e rest }

-- a drive with the signature of an MBR and one with a GUID
abbrev two_drives : List Part
two_drives =
    Part.hard_drive 1 (0x12 ∷ 0x34 ∷ 0x56 ∷ 0x78 ∷ replicate 12 0)
    ∷ Part.hard_drive 2 signature_bytes
    ∷ []

device_path_bytes-IsPartition_example :
    (partition_guid (nodes_from 0 (device_path_bytes (parts_bytes two_drives))) ≡ some partuuid)
    ↔ IsPartition (part_nodes two_drives) partuuid
device_path_bytes-IsPartition_example =
    device_path_bytes-IsPartition (nodes_from 0) reads two_drives partuuid (refl, (refl, tt))

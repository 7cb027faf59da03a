-- ===== src/LoadFile2/Install.antt =====
-- `install` of src/loadfile2.rs: what it leaves behind, and the order of its calls.
use stub.Prelude.{ℕ, ◌<◌, ◌≡◌, ◌≢◌, ◌∙◌, inl, inr, List, ◌∷◌, arith, length, Option-cases}
use stub.Word.{usize_end}
use stub.Memory.{read}
use stub.Machine.{Machine, Firmware, ok, Call, MemoryType}
use stub.Machine.Bind.{resume-eq-ok}
use stub.LoadFile2.{Slice, build_device_path, install}
use stub.LoadFile2.Handshake.{Serves}

-- The slice is a nonempty file, somewhere but at the null address.
pub record IsFile (slice : Slice) (file : List ℕ) (s : Machine) : Type 0 where
  pub ptr : slice.ptr ≢ 0
  pub len : slice.len ≡ length file
  pub nonempty : slice.len ≢ 0
  pub word : slice.len < usize_end
  pub bytes : read s.memory slice.ptr slice.len ≡ file

-- The calls of a successful installation, latest first.
abbrev pub installation : ℕ → ℕ → ℕ → ℕ → List Call → List Call
installation guid pool path handle before =
    Call.install_load_file2 handle
    ∷ Call.install_device_path path
    ∷ Call.finalize_device_path pool
    ∷ Call.push_vendor_node pool guid
    ∷ Call.allocate_pool MemoryType.boot_services_data 24
    ∷ before

module _ (firmware : Firmware) (slice : Slice) (guid : ℕ) (s : Machine) where
  -- On every outcome, errors included, the statics name the slice and no memory has been written.
  pub install-statics :
      let s' = (install firmware slice guid s).1 in
      (s'.file_ptr ≡ slice.ptr) × (s'.file_len ≡ slice.len) × (s'.memory ≡ s.memory)
  unfolding install build_device_path
  install-statics = (ground arith, ground arith, ground arith)

  -- After install, whatever its outcome, a nonempty file that does not stand at the null address
  -- is served.
  pub install-Serves :
      (file : List ℕ) → IsFile slice file s → Serves (install firmware slice guid s).1 file
  install-Serves file is =
      let (ptr, len, memory) = install-statics in
      record {
        ptr = rw ptr is.ptr;
        len = len ∙ is.len;
        nonempty = rw len is.nonempty;
        word = rw len is.word;
        bytes = rw (ptr, len, memory) is.bytes;
      }

  build_calls :
      (t : Machine) {path : ℕ} {t' : Machine}
      → build_device_path firmware guid t ≡ (ok path, t')
      → (pool : ℕ) × (t'.calls
          ≡ Call.finalize_device_path pool
            ∷ Call.push_vendor_node pool guid
            ∷ Call.allocate_pool MemoryType.boot_services_data 24
            ∷ t.calls)
  unfolding build_device_path
  build_calls t e =
      elim (Option-cases (firmware.allocate_pool t MemoryType.boot_services_data 24)) [
        | inl refused ↦ ground arith
        | inr (pool, given) ↦ (pool, ground arith)
      ]

  -- If install returns a handle, these five calls have been made, in this order: pool memory of 24
  -- bytes, the vendor node with the GUID, the end node, DevicePath on a new handle, LoadFile2 on
  -- that handle.
  pub install-installation :
      {handle : ℕ} {s' : Machine}
      → install firmware slice guid s ≡ (ok handle, s')
      → (pool : ℕ) × (path : ℕ) × (s'.calls ≡ installation guid pool path handle s.calls)
  unfolding install
  install-installation e =
      let set : Machine = record s { file_ptr = slice.ptr; file_len = slice.len } in
      let (path, t, built, rest) = resume-eq-ok _ (build_device_path firmware guid set) e in
      let (pool, calls) = build_calls set built in (pool, path, ground arith)

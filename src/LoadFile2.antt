-- ===== src/LoadFile2.antt =====
-- src/loadfile2.rs: the initrd is served through the LoadFile2 protocol.
--
-- The two statics FILE_PTR and FILE_LEN are fields of the machine. The callback's pointers are
-- addresses in its memory, so the size cell, the buffer and the served file may overlap; 0 is null.
-- What the uefi crate writes into the 24 bytes of the new device path is not part of the model.
pub mod Callback
pub mod Handshake
pub mod Install
pub mod Session
mod Scenarios
mod Tests
use stub.Prelude.{
  ℕ, zero, Bool, true, false, ◌||◌, Option, none, some, List, ltb, ◌==◌, if◌then◌else◌,
}
use stub.Memory.{Memory, write, read, store_usize, load_usize}
use stub.Machine.{
  Machine, Firmware, Outcome, ok, Action, Error, Call, MemoryType, Status, pure, context, ask,
  ensure, ◌>>=◌, ◌>>◌,
}

abbrev pub device_path_len : ℕ
device_path_len = 24

-- the last part of the callback: the size is written first, and the data if the buffer takes it
unfoldable pub serve : ℕ → ℕ → ℕ → ℕ → Memory → Status × Memory
serve data_ptr data_len buffer_size buffer m =
    let available_size = load_usize m buffer_size in
    let sized = store_usize buffer_size data_len m in
    if buffer == 0 || ltb available_size data_len
    then (Status.buffer_too_small, sized)
    else (Status.success, write buffer (read sized data_ptr data_len) sized)

-- `load_file2_callback`
unfoldable pub load_file2_callback : Bool → ℕ → ℕ → Machine → Status × Machine
load_file2_callback boot_policy buffer_size buffer s =
    if boot_policy
    then (Status.unsupported, s)
    else if s.file_ptr == 0 || s.file_len == 0
    then (Status.not_found, s)
    else if buffer_size == 0
    then (Status.invalid_parameter, s)
    else let (status, m) = serve s.file_ptr s.file_len buffer_size buffer s.memory in
      (status, record s { memory = m })

-- a borrowed slice: where its bytes are, and how many
pub record Slice : Type 0 where
  pub ptr : ℕ
  pub len : ℕ

-- `FILE_PTR.store` and `FILE_LEN.store`
abbrev pub set_file : Slice → Action (Unit {0})
set_file file s = (ok tt, record s { file_ptr = file.ptr; file_len = file.len })

module _ (firmware : Firmware) where
  -- `build_device_path`
  unfoldable pub build_device_path : ℕ → Action ℕ
  build_device_path guid = do
    reply ←
        ask (Call.allocate_pool MemoryType.boot_services_data device_path_len)
          (λ s. firmware.allocate_pool s MemoryType.boot_services_data device_path_len)
    pool ← context reply Error.device_path_pool_unavailable
    pushed ← ask (Call.push_vendor_node pool guid) (λ s. firmware.push_vendor_node s pool guid)
    ensure pushed Error.device_path_node
    path ← ask (Call.finalize_device_path pool) (λ s. firmware.finalize_device_path s pool)
    context path Error.device_path_end

  -- `install`
  unfoldable pub install : Slice → ℕ → Action ℕ
  install file guid = do
    set_file file
    path ← build_device_path guid
    reply ← ask (Call.install_device_path path) (λ s. firmware.install_device_path s path)
    handle ← context reply Error.install_device_path_failed
    installed ← ask (Call.install_load_file2 handle) (λ s. firmware.install_load_file2 s handle)
    ensure installed Error.install_load_file2_failed
    pure handle

-- ===== src/Machine/Request.antt =====
-- The calls that the stub makes of the firmware, with the arguments that it passes. A run leaves
-- the list of them, and a theorem on the order of the stub's effects is one on this list.
use stub.Prelude.{ℕ, List, Option}

-- The pool memory types of src/pe/loader/cmdline.rs and src/loadfile2.rs
pub data MemoryType : Type 0 where
  loader_data boot_services_data : MemoryType

pub data Call : Type 0 where
  -- `allocate_pages(AnyPages, LOADER_CODE, pages)` and `allocate_pool(kind, size)`
  allocate_pages : ℕ → Call
  allocate_pool : MemoryType → ℕ → Call
  -- `locate_protocol(guid)`
  locate_protocol : ℕ → Call
  -- the two methods of EFI_MEMORY_ATTRIBUTE_PROTOCOL: protocol, base, length, attributes
  set_memory_attributes : ℕ → ℕ → ℕ → ℕ → Call
  clear_memory_attributes : ℕ → ℕ → ℕ → ℕ → Call
  -- LoadedImage: opened on a handle, its two setters, and closed again
  open_loaded_image : ℕ → Call
  set_image : ℕ → ℕ → Call
  set_load_options : ℕ → ℕ → Call
  close_loaded_image : Call
  -- the jump to the kernel: entry address, image handle, system table
  enter_kernel : ℕ → ℕ → ℕ → Call
  -- `DevicePathBuilder::push` of a vendor node into the pool at an address, and `finalize`
  push_vendor_node : ℕ → ℕ → Call
  finalize_device_path : ℕ → Call
  -- `install_protocol_interface` of the DevicePath at an address, on a new handle
  install_device_path : ℕ → Call
  -- `install_protocol_interface` of the LoadFile2 table on a handle
  install_load_file2 : ℕ → Call
  -- EFI_TCG2_PROTOCOL: handle search, open, close, and HashLogExtendEvent (PCR, name, data)
  locate_tcg : Call
  open_tcg : ℕ → Call
  close_tcg : Call
  hash_log_extend_event : ℕ → List ℕ → List ℕ → Call
  -- `std::fs::read("\\luks")`
  read_luks : Call
  -- variables: existence, read into a buffer of so many bytes, and write with data (name first, as
  -- code points)
  variable_exists : List ℕ → Call
  get_variable : List ℕ → ℕ → Call
  set_variable : List ℕ → ℕ → List ℕ → Call
  -- the DevicePath protocol of a device handle, opened and closed again
  open_device_path : ℕ → Call
  close_device_path : Call

-- What `std::fs::read` gives: the bytes, no such file, or another error.
pub data FileRead : Type 0 where
  contents : List ℕ → FileRead
  missing failed : FileRead

-- The signature of a hard-drive node, and the other kinds of device path nodes.
pub data Node : Type 0 where
  guid_signed : ℕ → Node
  mbr_signed : ℕ → Node
  unsigned unknown_signature not_hard_drive : Node

-- What LoadedImage says of the running image: its device, its address and its size.
pub record Loaded : Type 0 where
  pub device : Option ℕ
  pub image_base : ℕ
  pub image_size : ℕ

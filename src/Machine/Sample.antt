-- ===== src/Machine/Sample.antt =====
-- A firmware that grants every request, and a machine to start from: the data of the tests.
use stub.Prelude.{true, false, none, some, [], ◌∷◌}
use stub.Machine.{Machine, Firmware, Status, FileRead, Node}

-- Pages stand at 0x1000_0000, pool memory at 0x2000 and from there on.
abbrev pub firmware : Firmware
firmware = record {
  allocate_pages = λ s n. some 0x1000_0000;
  allocate_pool = λ s kind n. some 0x2000;
  has_system_table = λ s. true;
  locate_protocol = λ s guid. (Status.success, 0x300);
  set_memory_attributes = λ s this base len attributes. Status.success;
  clear_memory_attributes = λ s this base len attributes. Status.success;
  system_table = λ s. 0x40;
  enter_kernel = λ s entry handle table. some (Status.other 1);
  push_vendor_node = λ s pool guid. true;
  finalize_device_path = λ s pool. some pool;
  install_device_path = λ s path. some 7;
  install_load_file2 = λ s handle. true;
  locate_tcg = λ s. some (9 ∷ []);
  open_tcg = λ s handle. true;
  new_event = λ s size name. true;
  hash_log_extend_event = λ s pcr name bytes. true;
  read_luks = λ s. FileRead.missing;
  reserve = λ s n. true;
  to_cstr16 = λ name units. true;
  variable_exists = λ s name. false;
  get_variable = λ s name size. none;
  set_variable = λ s name attributes bytes. true;
  open_device_path = λ s device. some (Node.not_hard_drive ∷ Node.guid_signed 5 ∷ []);
  image_handle = λ s. 3;
  open_loaded_image =
      λ s handle. some (record { device = some 2; image_base = 0x800; image_size = 64 });
}

abbrev pub start : Machine
start = record { memory = λ a. 0xee; file_ptr = 0; file_len = 0; calls = [] }

-- ===== src/Machine/Failure.antt =====
-- The errors of the stub: one constructor for each context string or message that the sources
-- under src/ hand to anyhow. Values that a message prints are arguments where they name a section
-- or carry a number or a status.
use stub.Prelude.{ℕ, List}
use stub.Machine.Code.{Status}

pub data Error : Type 0 where
  -- src/pe/kernel.rs
  invalid_dos_header invalid_pe_headers invalid_section_table no_entry_point : Error
  unsupported_machine version_too_low has_base_relocations : ℕ → Error
  section_has_relocations : List ℕ → ℕ → Error
  -- src/pe/loader/mapping.rs
  image_size_exceeds_usize pages_unavailable raw_size_exceeds_usize : Error
  raw_offset_exceeds_usize virtual_size_exceeds_usize below_image_base : Error
  section_offset_exceeds_usize virtual_bounds_overflow raw_bounds_overflow : Error
  raw_data_unavailable zero_fill_offset_overflow zero_fill_length_underflow : Error
  outside_allocation : List ℕ → ℕ → ℕ → Error
  raw_data_out_of_bounds : List ℕ → ℕ → ℕ → Error
  -- src/pe/loader/cmdline.rs
  cmdline_length_overflow cmdline_byte_overflow cmdline_too_large : Error
  cmdline_pool_unavailable cmdline_buffer_empty : Error
  -- src/pe/loader/mod.rs
  base_exceeds_u64 entry_overflow entry_exceeds_usize : Error
  kernel_returned : Status → Error
  -- src/loadfile2.rs
  device_path_pool_unavailable device_path_node device_path_end : Error
  install_device_path_failed install_load_file2_failed : Error
  -- src/policy/mod.rs and src/policy/luks.rs
  cmdline_copy_failed combined_length_overflow key_destination_unavailable : Error
  encode_key_failed luks_unreadable : Error
  -- src/tpm2.rs
  tcg_search_failed tcg_unavailable tcg_open_failed event_size_overflow : Error
  event_not_built : Error
  extend_failed : List ℕ → Error
  -- src/main.rs
  null_image_handle loaded_image_unavailable loaded_image_size : Error
  uki_invalid entry_point_returned : Error

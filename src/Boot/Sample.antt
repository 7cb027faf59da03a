-- ===== src/Boot/Sample.antt =====
-- Platforms, an image that boots, and the state before its kernel is started: test data.
use stub.Prelude.{◌≡◌, refl, inr, true, none, some, [], ◌∷◌, arith}
use stub.Machine.{Machine, ok, Firmware, Loaded}
use stub.Machine.Sample.{firmware, start}
use stub.Pe.Kernel.{Target, parse, validate, directory_size, find_relocated, refuse_relocated}
use stub.Pe.Sample.{reader, sections, contents, kernel}
use stub.Tpm2.{measure_each, measure_section, open_tcg, hash_log_extend, is_available}
use stub.LoadFile2.{install, build_device_path}
use stub.Policy.{policy_cmdline}
use stub.Security.{read_bool_variable, is_setup_mode, is_secure_boot_enabled}
use stub.Vars.{export_variable, export_firmware, export_disk, export, partition_guid}
use stub.Loader.Start.Entry.{CanStart}
use stub.Boot.{Platform, Sections, parse_sections, measure, install_initrd, choose_cmdline, load}
use stub.Boot.Order.{opened}

abbrev pub platform : Platform
platform = record {
  target = Target.x86_64;
  tpm = true;
  muak = true;
  reader = reader sections;
  base64 = record { encoded_len = λ key. 0; encode = λ key n. none };
  printer = record { guid = λ g. 48 ∷ []; uefi_revision = 50 ∷ [] };
  uki = λ bytes. none;
  vendor = 69 ∷ [];
  revision = 0x2_0007;
}

-- pool memory behind the image's pages, and a TPM
abbrev pub high : Firmware
high = record firmware { allocate_pool = λ s kind n. some 0x2000_0000 }

-- an image with the sample kernel, an initrd, one measured section and no command line
abbrev pub found : Sections
found = record {
  kernel = contents;
  initrd = some (record { ptr = 0x880; len = 4 });
  cmdline = none;
  measured = (46 ∷ [], 7 ∷ []) ∷ [];
}

abbrev pub complete : Platform
complete = record platform { uki = λ bytes. some found }

abbrev pub loaded : Loaded
loaded = record { device = some 2; image_base = 0x800; image_size = 64 }

abbrev pub before : Machine
before = (load high complete loaded (opened high complete start)).1

pub loads : load high complete loaded (opened high complete start) ≡ (ok (kernel, none), before)
unfolding load parse_sections export export_firmware export_variable export_disk partition_guid
    is_setup_mode is_secure_boot_enabled read_bool_variable measure measure_each measure_section
    open_tcg hash_log_extend parse validate directory_size find_relocated refuse_relocated
    install_initrd install build_device_path choose_cmdline policy_cmdline is_available
loads = refl

pub can_start : (t : Machine) → CanStart high kernel none t 0x1000_0000
can_start t = record {
  kernel_fields = omega arith;
  pages = ground arith;
  fits = ground arith;
  room = omega arith;
  short = tt;
  pool = record { grant = λ u n. (0x2000_0000, refl, (λ e. omega arith), inr (omega arith)) };
}

pub CanStart-before : CanStart high kernel none before 0x1000_0000
CanStart-before = can_start before

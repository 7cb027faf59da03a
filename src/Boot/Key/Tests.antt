-- ===== src/Boot/Key/Tests.antt =====
-- A boot without a TPM, with a key file and a short command line in the image.
use stub.Prelude.{ℕ, List, inr, ◌+◌, ◌≡◌, refl, none, some, [], ◌∷◌, ◌++◌, arith}
use stub.Memory.{read}
use stub.Machine.{Machine, ok, Firmware, Call, FileRead}
use stub.Machine.Sample.{start}
use stub.Bytes.{rposition, is_ascii_whitespace}
use stub.Pe.Kernel.{parse, validate, directory_size, find_relocated, refuse_relocated}
use stub.Pe.Sample.{kernel}
use stub.Tpm2.{measure_each, measure_section, open_tcg, hash_log_extend, is_available}
use stub.LoadFile2.{install, build_device_path}
use stub.Policy.{policy_cmdline}
use stub.Policy.Luks.{combine, read_key, try_inject}
use stub.Policy.Sample.{letters, base64, is_encoding, key}
use stub.Policy.Final.{with_key}
use stub.Security.{read_bool_variable, is_setup_mode, is_secure_boot_enabled}
use stub.Vars.{export_variable, export_firmware, export_disk, export, partition_guid}
use stub.Loader.Cmdline.{strip_trailing_terminators}
use stub.Loader.Cmdline.Ucs2.{ucs2}
use stub.Loader.Cmdline.Encode.{buffer_size}
use stub.Loader.Start.Entry.{CanStart}
use stub.Boot.{
  Platform, Sections, parse_sections, measure, install_initrd, choose_cmdline, load, main,
}
use stub.Boot.Order.{opened}
use stub.Boot.Initrd.{Boots}
use stub.Boot.Key.{HasKey, main-with_key}
use stub.Boot.Sample.{high, found, complete, loaded}

abbrev firmware : Firmware
firmware = record high { locate_tcg = λ s. none; read_luks = λ s. FileRead.contents key }

-- "a\n"
abbrev sections : Sections
sections = record found { cmdline = some (b'a' ∷ b'\n' ∷ []) }

abbrev platform : Platform
platform = record complete { base64 = base64; uki = λ bytes. some sections }

-- "a luks.key=AA"
abbrev line : List ℕ
line = with_key (b'a' ∷ []) (letters key)

abbrev before : Machine
before = (load firmware platform loaded (opened firmware platform start)).1

loads :
    load firmware platform loaded (opened firmware platform start)
    ≡ (ok (kernel, some line), before)
unfolding load parse_sections export export_firmware export_variable export_disk partition_guid
    is_setup_mode is_secure_boot_enabled read_bool_variable measure measure_each measure_section
    open_tcg hash_log_extend parse validate directory_size find_relocated refuse_relocated
    install_initrd install build_device_path choose_cmdline policy_cmdline is_available try_inject
    read_key combine strip_trailing_terminators rposition is_ascii_whitespace
loads = refl

kept_line : strip_trailing_terminators line ≡ line
unfolding strip_trailing_terminators rposition is_ascii_whitespace
kept_line = refl

CanStart-before : CanStart firmware kernel (some line) before 0x1000_0000
CanStart-before = record {
  kernel_fields = omega arith;
  pages = ground arith;
  fits = ground arith;
  room = omega arith;
  short = rw kept_line (omega arith);
  pool = record { grant = λ t n. (0x2000_0000, refl, (λ e. omega arith), inr (omega arith)) };
}

boots : Boots firmware platform start loaded kernel (some line) before 0x1000_0000
boots = record { handle = refl; opens = refl; loads = loads; can = CanStart-before }

has_key : HasKey firmware key
has_key = record { no_tpm = λ t. refl; file = λ t. refl; some_key = λ e. cc }

image_line : strip_trailing_terminators (b'a' ∷ b'\n' ∷ []) ≡ b'a' ∷ []
unfolding strip_trailing_terminators rposition is_ascii_whitespace
image_line = refl

main-with_key_example :
    let line = with_key (strip_trailing_terminators (b'a' ∷ b'\n' ∷ [])) (letters key) in
    let t = (main firmware platform start).1 in
    (u : Machine) × (ptr : ℕ) × (rest : List Call) × (t.calls
      ≡ Call.enter_kernel (0x1000_0000 + 3) 3 0x40
        ∷ Call.close_loaded_image
        ∷ Call.set_load_options ptr (buffer_size line)
        ∷ rest)
    × (read t.memory ptr (buffer_size line) ≡ ucs2 line ++ 0 ∷ 0 ∷ [])
main-with_key_example =
    main-with_key firmware platform letters is_encoding key has_key refl start loaded kernel
      (some line) before 0x1000_0000 sections boots refl (rw image_line (omega arith))

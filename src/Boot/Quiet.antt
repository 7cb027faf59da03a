-- ===== src/Boot/Quiet.antt =====
-- What main in src/main.rs does apart from the measurements: it enters no kernel and extends no PCR.
use stub.Prelude.{ℕ, refl, Option, none, some, List, ◌++◌, arith}
use stub.Memory.{read}
use stub.Machine.{Firmware, Error, Call, Node, ask, pure}
use stub.Tpm2.{is_available}
use stub.LoadFile2.{Slice, build_device_path, install}
use stub.Vars.{
  Printer, export_variable, export_firmware, export_guid, export_path, export_disk, export,
  partition_guid, format_info, firmware_info, firmware_type, device_part_uuid, uefi_word,
}
use stub.Security.{read_bool_variable}
use stub.Policy.{or_base, copy_cmdline, policy_cmdline}
use stub.Policy.Luks.{Base64, combine, read_key, inject_key, try_inject, or_empty}
use stub.Loader.Cmdline.{strip_trailing_terminators}
use stub.Tpm2.Measures.{extends}
use stub.Boot.Steps.{entered, boot, Tame, bind-Tame, if-Tame, pure-Tame, context-Tame}
use stub.Boot.{choose_cmdline, Platform, linux_initrd_guid, install_initrd, parse_sections}

module _ (firmware : Firmware) where
  install-Tame : (slice : Slice) (guid : ℕ) → Tame boot (install firmware slice guid)
  unfolding install build_device_path entered extends
  install-Tame slice guid s = record { calls = ground arith; stays = λ t. ground arith }

  export_variable-Tame :
      (printer : Printer) (name value : List ℕ)
      → Tame boot (export_variable firmware printer name value)
  unfolding export_variable entered extends
  export_variable-Tame printer name value s = record {
    calls = ground arith;
    stays = λ t. ground arith;
  }

  pub read_bool_variable-Tame : (name : List ℕ) → Tame boot (read_bool_variable firmware name)
  unfolding read_bool_variable entered extends
  read_bool_variable-Tame name s = record { calls = ground arith; stays = λ t. ground arith }

  pub export-Tame :
      (printer : Printer) (vendor : List ℕ) (revision : ℕ) (device : Option ℕ)
      → Tame boot (export firmware printer vendor revision device)
  unfolding export export_firmware
  export-Tame printer vendor revision device =
      bind-Tame (export_firmware firmware printer vendor revision) _
        (bind-Tame (export_variable firmware printer firmware_info (format_info vendor revision)) _
          (export_variable-Tame printer firmware_info (format_info vendor revision))
          λ _. export_variable-Tame printer firmware_type (uefi_word ++ printer.uefi_revision))
        λ _. export_disk-Tame device
    where
      export_guid-Tame : (guid : Option ℕ) → Tame boot (export_guid firmware printer guid)
      export_guid-Tame none s = record { calls = refl; stays = λ t e. cc }
      export_guid-Tame (some guid) s =
          export_variable-Tame printer device_part_uuid (printer.guid guid) s

      close-Tame : Tame boot (ask Call.close_device_path (λ s. tt))
      close-Tame s = unfold entered extends in record { calls = refl; stays = λ t e. cc }

      export_path-Tame :
          (nodes : Option (List Node)) → Tame boot (export_path firmware printer nodes)
      export_path-Tame none s = record { calls = refl; stays = λ t e. cc }
      export_path-Tame (some nodes) s =
          bind-Tame (export_guid firmware printer (partition_guid nodes)) _
            (export_guid-Tame (partition_guid nodes)) (λ _. close-Tame) s

      open-Tame :
          (device : ℕ)
          → Tame boot (ask (Call.open_device_path device) (λ s. firmware.open_device_path s device))
      open-Tame device s = unfold entered extends in record { calls = refl; stays = λ t e. cc }

      export_disk-Tame : (device : Option ℕ) → Tame boot (export_disk firmware printer device)
      export_disk-Tame none s = unfold export_disk in record { calls = refl; stays = λ t e. cc }
      export_disk-Tame (some device) s =
          unfold export_disk in
          bind-Tame (ask (Call.open_device_path device) (λ t. firmware.open_device_path t device)) _
            (open-Tame device) export_path-Tame s

  combine-Tame : (base64 : Base64) (base key : List ℕ) → Tame boot (combine base64 base key)
  unfolding combine
  combine-Tame base64 base key s = record { calls = ground arith; stays = λ t. ground arith }

  read_key-Tame : Tame boot (read_key firmware)
  unfolding read_key entered extends
  read_key-Tame s = record { calls = ground arith; stays = λ t. ground arith }

  inject_key-Tame :
      (base64 : Base64) (base key : Option (List ℕ))
      → Tame boot (inject_key firmware base64 base key)
  inject_key-Tame base64 base none s = record { calls = refl; stays = λ t e. cc }
  inject_key-Tame base64 base (some key) s =
      combine-Tame base64 (strip_trailing_terminators (or_empty base)) key s

  is_available-Tame : Tame boot (is_available firmware)
  unfolding is_available entered extends
  is_available-Tame s = record { calls = refl; stays = λ t e. cc }

  policy_cmdline-Tame :
      (base64 : Base64) (base : Option (List ℕ)) → Tame boot (policy_cmdline firmware base64 base)
  unfolding policy_cmdline try_inject
  policy_cmdline-Tame base64 base =
      bind-Tame (is_available firmware) _ is_available-Tame λ available.
        if-Tame available (pure base) _ (pure-Tame base) (
          bind-Tame (try_inject firmware base64 base) _
            (bind-Tame (read_key firmware) _ read_key-Tame (inject_key-Tame base64 base))
            (λ combined. pure-Tame (or_base combined base)))

  copy_cmdline-Tame : (base : Option (List ℕ)) → Tame boot (copy_cmdline firmware base)
  unfolding copy_cmdline
  copy_cmdline-Tame none s = record { calls = refl; stays = λ t e. cc }
  copy_cmdline-Tame (some base) s = record { calls = ground arith; stays = λ t. ground arith }

  module _ (platform : Platform) where
    pub parse_sections-Tame :
        (base size : ℕ) → Tame boot (parse_sections firmware platform base size)
    unfolding parse_sections
    parse_sections-Tame base size s =
        context-Tame (platform.uki (read s.memory base size)) Error.uki_invalid s

    pub install_initrd-Tame :
        (initrd : Option Slice) → Tame boot (install_initrd firmware platform initrd)
    unfolding install_initrd
    install_initrd-Tame none = pure-Tame tt
    install_initrd-Tame (some slice) =
        bind-Tame (install firmware slice linux_initrd_guid) _
          (install-Tame slice linux_initrd_guid) λ _. pure-Tame tt

    pub choose_cmdline-Tame :
        (base : Option (List ℕ)) → Tame boot (choose_cmdline firmware platform base)
    unfolding choose_cmdline
    choose_cmdline-Tame base =
        if-Tame platform.muak _ _ (policy_cmdline-Tame platform.base64 base)
          (copy_cmdline-Tame base)

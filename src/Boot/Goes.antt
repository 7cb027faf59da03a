-- ===== src/Boot/Goes.antt =====
-- The parts of main in src/main.rs that cannot fail, and those that cannot if the firmware gives
-- what they ask for.
use stub.Prelude.{
  ℕ, ◌<◌, ◌≡◌, refl, ap, ◌∙◌, Bool, true, false, Option, none, some, List, ◌∷◌, ◌++◌, arith, length,
  Bool-cases, Option-cases, inl, inr,
}
use stub.Word.{usize_end, fit}
use stub.Memory.{read}
use stub.Machine.{
  Machine, ok, Firmware, Error, Call, Node, Loaded, MemoryType, FileRead, Action, context, ◌>>◌,
  ask,
}
use stub.Machine.Bind.{bind-ok}
use stub.LoadFile2.{Slice, build_device_path, device_path_len, install}
use stub.Tpm2.{has_handle}
use stub.Tpm2.Refusals.{measure_each-Requests}
use stub.Policy.{copy_cmdline}
use stub.Policy.Final.{IsEncoding}
use stub.Policy.Decision.{decide, decision_calls, policy_cmdline-decide}
use stub.Security.{
  read_bool_variable, setup_mode_name, secure_boot_name, is_setup_mode, is_secure_boot_enabled,
}
use stub.Security.Answers.{read_bool_variable-answer}
use stub.Vars.{
  Printer, export_variable, export_firmware, export_guid, export_path, export_disk, export,
  partition_guid, format_info, firmware_info, firmware_type, device_part_uuid, uefi_word,
}
use stub.Boot.{
  Platform, Sections, linux_initrd_guid, parse_sections, measure, install_initrd, choose_cmdline,
}
use stub.Boot.Order.{find}
use stub.Boot.Reads.{memory_of, Keeps-same, read_bool_variable-Keeps, export-Keeps}

-- An action that succeeds, from this machine.
abbrev pub Goes : {A : Type 0} → Action A → A → Machine → Type 0
Goes m a s = (t : Machine) × (m s ≡ (ok a, t))

abbrev Always : Action (Unit {0}) → Type 0
Always m = (s : Machine) → Goes m tt s

bind-Always : (m n : Action (Unit {0})) → Always m → Always n → Always (m >> n)
bind-Always m n first second s =
    let (t, e) = first s in let (u, e') = second t in (u, bind-ok m (λ _. n) s e ∙ e')

ok-Goes : {A : Type 0} (m : Action A) (s : Machine) {a : A} → (m s).0 ≡ ok a → Goes m a s
ok-Goes m s e = ((m s).1, ap (λ o. (o, (m s).1)) e)

module _ (firmware : Firmware) (printer : Printer) where
  export_variable-Always :
      (name value : List ℕ) → Always (export_variable firmware printer name value)
  unfolding export_variable
  export_variable-Always name value s =
      ok-Goes (export_variable firmware printer name value) s (ground arith)

  export_path-Always : (nodes : List Node) → Always (export_path firmware printer (some nodes))
  export_path-Always nodes =
      bind-Always (export_guid firmware printer (partition_guid nodes))
        (ask Call.close_device_path (λ s. tt)) (export_guid-Always (partition_guid nodes))
        (λ s. (_, refl))
    where
      export_guid-Always : (guid : Option ℕ) → Always (export_guid firmware printer guid)
      export_guid-Always none s = (s, refl)
      export_guid-Always (some guid) s =
          export_variable-Always device_part_uuid (printer.guid guid) s

  export_disk-Always : (device : Option ℕ) → Always (export_disk firmware printer device)
  unfolding export_disk
  export_disk-Always none s = (s, refl)
  export_disk-Always (some device) s = elim (Option-cases (firmware.open_device_path s device)) [
    | inl closed ↦ (record s { calls = Call.open_device_path device ∷ s.calls }, rw closed refl)
    | inr (nodes, opens) ↦
        let (t, e) =
          export_path-Always nodes (record s { calls = Call.open_device_path device ∷ s.calls }) in
        (t, rw opens e)
  ]

  pub export-Always :
      (vendor : List ℕ) (revision : ℕ) (device : Option ℕ)
      → Always (export firmware printer vendor revision device)
  unfolding export export_firmware
  export-Always vendor revision device =
      bind-Always (export_firmware firmware printer vendor revision)
        (export_disk firmware printer device)
        (bind-Always (export_variable firmware printer firmware_info (format_info vendor revision))
          (export_variable firmware printer firmware_type (uefi_word ++ printer.uefi_revision))
          (export_variable-Always firmware_info (format_info vendor revision))
          (export_variable-Always firmware_type (uefi_word ++ printer.uefi_revision)))
        (export_disk-Always device)

-- The firmware gives what `install` asks for.
pub record Installs (firmware : Firmware) : Type 0 where
  pub pool :
      (t : Machine) (n : ℕ)
      → (ptr : ℕ) × (firmware.allocate_pool t MemoryType.boot_services_data n ≡ some ptr)
  pub push : (t : Machine) (pool guid : ℕ) → firmware.push_vendor_node t pool guid ≡ true
  pub finalize :
      (t : Machine) (pool : ℕ) → (path : ℕ) × (firmware.finalize_device_path t pool ≡ some path)
  pub device_path :
      (t : Machine) (path : ℕ) → (handle : ℕ) × (firmware.install_device_path t path ≡ some handle)
  pub load_file2 : (t : Machine) (handle : ℕ) → firmware.install_load_file2 t handle ≡ true

-- The command line that the build and the answers of the firmware come to.
pub data Chooses (firmware : Firmware) (platform : Platform) (base : Option (List ℕ))
    : Option (List ℕ) → Type 0 where
  -- without the feature muak it is the image's
  copied :
      platform.muak ≡ false
      → ((t : Machine) (n : ℕ) → firmware.reserve t n ≡ true)
      → Chooses firmware platform base base
  -- with it, that of the policy
  decided :
      {cmdline : Option (List ℕ)} (text : List ℕ → List ℕ) (tpm : Bool) (file : FileRead)
      → platform.muak ≡ true
      → IsEncoding platform.base64 text
      → ((t : Machine) → has_handle (firmware.locate_tcg t) ≡ tpm)
      → ((t : Machine) → firmware.read_luks t ≡ file)
      → decide text tpm file base ≡ ok cmdline
      → Chooses firmware platform base cmdline

module _ (firmware : Firmware) (platform : Platform) where
  security-Goes :
      (name : List ℕ) (s : Machine)
      → (answer : Bool) × Goes (read_bool_variable firmware name) answer s
  security-Goes name s = (_, (_, read_bool_variable-answer firmware name s))

  pub measure-Always : (sections : Sections) → Always (measure firmware platform sections)
  unfolding measure
  measure-Always sections s = elim (Bool-cases platform.tpm) [
    | inr plain ↦ (s, rw plain refl)
    | inl tpm ↦
        let (t, _, e, _, _, _) = measure_each-Requests firmware sections.measured s in (t, rw tpm e)
  ]

  pub install_initrd-Always :
      Installs firmware → (initrd : Option Slice) → Always (install_initrd firmware platform initrd)
  unfolding install_initrd install build_device_path
  install_initrd-Always gives none s = (s, refl)
  install_initrd-Always gives (some initrd) s =
      let filed : Machine = record s { file_ptr = initrd.ptr; file_len = initrd.len } in
      let (ptr, pool) = gives.pool filed device_path_len in
      let a : Machine = record filed {
        calls = Call.allocate_pool MemoryType.boot_services_data device_path_len ∷ s.calls;
      } in
      let b : Machine = record a {
        calls = Call.push_vendor_node ptr linux_initrd_guid ∷ a.calls;
      } in
      let (path, ends) = gives.finalize b ptr in
      let c : Machine = record b { calls = Call.finalize_device_path ptr ∷ b.calls } in
      let (handle, installed) = gives.device_path c path in
      let d : Machine = record c { calls = Call.install_device_path path ∷ c.calls } in
      (
        record d { calls = Call.install_load_file2 handle ∷ d.calls },
        rw (pool, gives.push a ptr linux_initrd_guid, ends, installed, gives.load_file2 d handle)
            refl,
      )

  pub choose_cmdline-Chooses :
      (base cmdline : Option (List ℕ)) (s : Machine)
      → Chooses firmware platform base cmdline
      → Goes (choose_cmdline firmware platform base) cmdline s
  unfolding choose_cmdline copy_cmdline
  choose_cmdline-Chooses none cmdline s (Chooses.copied plain gives) = (s, rw plain refl)
  choose_cmdline-Chooses (some line) cmdline s (Chooses.copied plain gives) =
      (s, rw (plain, gives s (length line)) refl)
  choose_cmdline-Chooses base cmdline s
        (Chooses.decided text tpm file muak encodes answers reads is) =
      let asked : Machine = record s { calls = Call.locate_tcg ∷ s.calls } in
      let e = policy_cmdline-decide platform.base64 text encodes firmware base s in
      (
        record s { calls = decision_calls (has_handle (firmware.locate_tcg s)) s.calls },
        rw muak (
            e
            ∙ ap
                (λ o. (
                  o,
                  record s { calls = decision_calls (has_handle (firmware.locate_tcg s)) s.calls },
                ))
                (rw (answers s, reads asked) is)),
      )

  -- What the uki crate finds in the memory that LoadedImage names decides.
  pub find-uki :
      (loaded : Loaded) (s : Machine)
      → loaded.image_size < usize_end
      → (t : Machine) × (find firmware platform loaded s
          ≡ context
              (platform.uki (read s.memory loaded.image_base loaded.image_size))
              Error.uki_invalid
              t)
  unfolding is_setup_mode is_secure_boot_enabled parse_sections
  find-uki loaded s small =
      let exports =
        export firmware platform.printer platform.vendor platform.revision loaded.device in
      let (s1, e1) =
        export-Always firmware platform.printer platform.vendor platform.revision loaded.device s in
      let (setup, (s2, e2)) = security-Goes setup_mode_name s1 in
      let (secure, (s3, e3)) = security-Goes secure_boot_name s2 in
      let fits : context (fit usize_end loaded.image_size) Error.loaded_image_size s3
          ≡ (ok loaded.image_size, s3) =
        ground arith in
      let memory : s3.memory ≡ s.memory =
        Keeps-same {part = memory_of} (is_secure_boot_enabled firmware)
          (read_bool_variable-Keeps firmware _) e3
        ∙ Keeps-same {part = memory_of} (is_setup_mode firmware)
            (read_bool_variable-Keeps firmware _) e2
        ∙ Keeps-same {part = memory_of} exports
            (export-Keeps firmware platform.printer platform.vendor platform.revision loaded.device)
            e1 in
      let same = ap (λ m. platform.uki (read m loaded.image_base loaded.image_size)) memory in
      (
        s3,
        bind-ok exports _ s e1
            ∙ bind-ok (is_setup_mode firmware) _ s1 e2
            ∙ bind-ok (is_secure_boot_enabled firmware) _ s2 e3
            ∙ bind-ok (context (fit usize_end loaded.image_size) Error.loaded_image_size) _ s3 fits
            ∙ ap (λ o. context o Error.uki_invalid s3) same,
      )

  pub find-Goes :
      (loaded : Loaded) (sections : Sections) (s : Machine)
      → loaded.image_size < usize_end
      → platform.uki (read s.memory loaded.image_base loaded.image_size) ≡ some sections
      → Goes (find firmware platform loaded) sections s
  find-Goes loaded sections s small found =
      let (t, e) = find-uki loaded s small in (t, e ∙ ap (λ o. context o Error.uki_invalid t) found)

-- ===== src/Boot.antt =====
-- src/main.rs: the stub from its entry point to the kernel's.
--
-- The uki crate finds the sections of the image: `Uki` is its parser, and `Sections` what the code
-- reads of the result. The initrd is a slice of the running image's memory; the kernel, the command
-- line and the measured sections are only read, so they are values.
pub mod Steps
pub mod Quiet
pub mod Order
pub mod Whole
pub mod Loading
pub mod Once
pub mod Reads
pub mod Stages
pub mod Loads
pub mod Measured
pub mod Initrd
pub mod Key
pub mod Goes
pub mod Enters
pub mod Fails
pub mod Sample
mod Tests
use stub.Prelude.{ℕ, Bool, true, false, Option, none, some, List, ◌∷◌, ◌==◌, if◌then◌else◌}
use stub.Word.{usize_end, fit}
use stub.Memory.{read}
use stub.Machine.{
  Machine, Outcome, ok, err, gone, Firmware, Action, Error, Call, Loaded, pure, fail, context, ask,
  ensure, ◌>>=◌, ◌>>◌,
}
use stub.Result.{lift}
use stub.Pe.Kernel.{Target, PeReader, Image, parse}
use stub.Loader.Start.{start}
use stub.LoadFile2.{Slice, install}
use stub.Tpm2.{measure_each}
use stub.Policy.{copy_cmdline, policy_cmdline}
use stub.Policy.Luks.{Base64}
use stub.Security.{is_setup_mode, is_secure_boot_enabled}
use stub.Vars.{Printer, export}

-- 5568e427-68fc-4f3d-ac74-ca555231cc68
abbrev pub linux_initrd_guid : ℕ
linux_initrd_guid = 0x5568e42768fc4f3dac74ca555231cc68

-- `uki::section::Sections`
pub record Sections : Type 0 where
  pub kernel : List ℕ
  pub initrd : Option Slice
  pub cmdline : Option (List ℕ)
  -- `iter_sections`: names and data
  pub measured : List (List ℕ × List ℕ)

-- How the stub was built and what it stands on: the target, the features tpm and muak, the
-- crates' functions, and the firmware's vendor and revision.
pub record Platform : Type 0 where
  pub target : Target
  pub tpm : Bool
  pub muak : Bool
  pub reader : PeReader
  pub base64 : Base64
  pub printer : Printer
  pub uki : List ℕ → Option Sections
  pub vendor : List ℕ
  pub revision : ℕ

-- The owner of the open LoadedImage protocol runs `m`, and closes it if that ends in an error.
abbrev pub closing_on_error : {A : Type 0} → Outcome A × Machine → Outcome A × Machine
closing_on_error (ok a, s) = (ok a, s)
closing_on_error (err e, s) = (err e, record s { calls = Call.close_loaded_image ∷ s.calls })
closing_on_error (gone, s) = (gone, s)

module _ (firmware : Firmware) (platform : Platform) where
  -- `setup_uefi_crate`
  unfoldable pub setup_uefi_crate : Action ℕ
  setup_uefi_crate s =
      if firmware.image_handle s == 0
      then (err Error.null_image_handle, s)
      else (ok (firmware.image_handle s), s)

  -- `if let Some(initrd_bytes) = sections.initrd`
  unfoldable pub install_initrd : Option Slice → Action (Unit {0})
  install_initrd none = pure tt
  install_initrd (some initrd) = do handle ← install firmware initrd linux_initrd_guid; pure tt

  unfoldable pub measure : Sections → Action (Unit {0})
  measure sections = if platform.tpm then measure_each firmware sections.measured else pure tt

  unfoldable pub choose_cmdline : Option (List ℕ) → Action (Option (List ℕ))
  choose_cmdline base =
      if platform.muak
      then policy_cmdline firmware platform.base64 base
      else copy_cmdline firmware base

  -- `slice::from_raw_parts(base_addr, image_size)` and the parse of the image
  unfoldable pub parse_sections : ℕ → ℕ → Action Sections
  parse_sections base_addr image_size s =
      context (platform.uki (read s.memory base_addr image_size)) Error.uki_invalid s

  -- `main` between opening LoadedImage and `start`
  unfoldable pub load : Loaded → Action (Image × Option (List ℕ))
  load loaded = do
    export firmware platform.printer platform.vendor platform.revision loaded.device
    setup_mode ← is_setup_mode firmware
    secure_boot ← is_secure_boot_enabled firmware
    image_size ← context (fit usize_end loaded.image_size) Error.loaded_image_size
    sections ← parse_sections loaded.image_base image_size
    measure sections
    kernel ← lift (parse platform.target platform.reader sections.kernel)
    install_initrd sections.initrd
    cmdline ← choose_cmdline sections.cmdline
    pure (kernel, cmdline)

  -- `main`
  unfoldable pub main : Action (Unit {0})
  main = do
    image_handle ← setup_uefi_crate
    reply ←
        ask (Call.open_loaded_image image_handle) (λ s. firmware.open_loaded_image s image_handle)
    loaded ← context reply Error.loaded_image_unavailable
    (kernel, cmdline) ← (λ s. closing_on_error (load loaded s))
    start firmware kernel cmdline image_handle
    fail Error.entry_point_returned

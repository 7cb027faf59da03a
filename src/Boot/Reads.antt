-- ===== src/Boot/Reads.antt =====
-- What main in src/main.rs does before `start`: it writes no memory, and the choice of the command
-- line leaves the file that LoadFile2 serves.
use stub.Prelude.{
  Bool, true, false, if◌then◌else◌, ℕ, ◌≡◌, refl, ap, sym, ◌∙◌, Option, none, some, List, ◌++◌,
  arith,
}
use stub.Machine.{
  Machine, Outcome, ok, err, gone, Firmware, Action, Call, Node, resume, pure, ◌>>=◌, ask,
}
use stub.Memory.{Memory}
use stub.Tpm2.{is_available, measure_each}
use stub.Tpm2.Refusals.{measure_each-Requests}
use stub.Policy.{or_base, copy_cmdline, policy_cmdline}
use stub.Policy.Luks.{Base64, combine, read_key, inject_key, try_inject, or_empty}
use stub.Loader.Cmdline.{strip_trailing_terminators}
use stub.Boot.{Platform, Sections, measure, choose_cmdline}
use stub.Security.{read_bool_variable}
use stub.Vars.{
  Printer, export_variable, export_firmware, export_guid, export_path, export_disk, export,
  partition_guid, format_info, firmware_info, firmware_type, device_part_uuid, uefi_word,
}

-- An action that keeps a part of the machine.
abbrev pub Keeps : {X A : Type 0} → (Machine → X) → Action A → Type 0
Keeps part m = (s : Machine) → part (m s).1 ≡ part s

-- the memory, and with it the file that LoadFile2 serves
abbrev pub memory_of : Machine → Memory
memory_of s = s.memory

abbrev pub served_of : Machine → Memory × ℕ × ℕ
served_of s = (s.memory, s.file_ptr, s.file_len)

module _ {X : Type 0} {part : Machine → X} where
  resume-Keeps :
      {A B : Type 0} (f : A → Action B) (r : Outcome A × Machine) (s : Machine)
      → part r.1 ≡ part s
      → ((a : A) → Keeps part (f a))
      → part (resume f r).1 ≡ part s
  resume-Keeps f (ok a, t) s same next = next a t ∙ same
  resume-Keeps f (err e, t) s same next = same
  resume-Keeps f (gone, t) s same next = same

  bind-Keeps :
      {A B : Type 0} (m : Action A) (f : A → Action B)
      → Keeps part m
      → ((a : A) → Keeps part (f a))
      → Keeps part (m >>= f)
  bind-Keeps m f keeps next s = resume-Keeps f (m s) s (keeps s) next

  if-Keeps :
      {A : Type 0} (b : Bool) (m n : Action A)
      → Keeps part m
      → Keeps part n
      → Keeps part (if b then m else n)
  if-Keeps true m n hm hn = hm
  if-Keeps false m n hm hn = hn

  -- the same of a run by its result
  pub Keeps-same :
      {A : Type 0} (m : Action A) {r : Outcome A} {s t : Machine}
      → Keeps part m
      → m s ≡ (r, t)
      → part t ≡ part s
  Keeps-same m {s} keeps e = sym (ap (λ (q : Outcome _ × Machine). part q.1) e) ∙ keeps s

module _ (firmware : Firmware) where
  pub read_bool_variable-Keeps :
      (name : List ℕ) → Keeps memory_of (read_bool_variable firmware name)
  unfolding read_bool_variable
  read_bool_variable-Keeps name s = ground arith

  module _ (printer : Printer) where
    export_variable-Keeps :
        (name value : List ℕ) → Keeps memory_of (export_variable firmware printer name value)
    unfolding export_variable
    export_variable-Keeps name value s = ground arith

    export_guid-Keeps : (guid : Option ℕ) → Keeps memory_of (export_guid firmware printer guid)
    export_guid-Keeps none s = refl
    export_guid-Keeps (some guid) s = export_variable-Keeps device_part_uuid (printer.guid guid) s

    export_path-Keeps :
        (nodes : Option (List Node)) → Keeps memory_of (export_path firmware printer nodes)
    export_path-Keeps none s = refl
    export_path-Keeps (some nodes) s =
        bind-Keeps (export_guid firmware printer (partition_guid nodes)) _
          (export_guid-Keeps (partition_guid nodes)) (λ _ t. refl) s

    export_disk-Keeps : (device : Option ℕ) → Keeps memory_of (export_disk firmware printer device)
    unfolding export_disk
    export_disk-Keeps none s = refl
    export_disk-Keeps (some device) s =
        bind-Keeps (ask (Call.open_device_path device) (λ t. firmware.open_device_path t device))
          (export_path firmware printer) (λ t. refl) export_path-Keeps s

    pub export-Keeps :
        (vendor : List ℕ) (revision : ℕ) (device : Option ℕ)
        → Keeps memory_of (export firmware printer vendor revision device)
    unfolding export export_firmware
    export-Keeps vendor revision device =
        bind-Keeps (export_firmware firmware printer vendor revision) _
          (bind-Keeps (export_variable firmware printer firmware_info (format_info vendor revision))
            _ (export_variable-Keeps firmware_info (format_info vendor revision))
            λ _. export_variable-Keeps firmware_type (uefi_word ++ printer.uefi_revision))
          λ _. export_disk-Keeps device

  abbrev inject : Base64 → Option (List ℕ) → Action (Option (List ℕ))
  inject base64 base = do combined ← try_inject firmware base64 base; pure (or_base combined base)

  policy_cmdline-Keeps :
      (base64 : Base64) (base : Option (List ℕ))
      → Keeps served_of (policy_cmdline firmware base64 base)
  unfolding policy_cmdline is_available try_inject
  policy_cmdline-Keeps base64 base =
      bind-Keeps {part = served_of} (is_available firmware)
        (λ available. if available then pure base else inject base64 base) (λ s. refl)
        λ available.
          if-Keeps {part = served_of} available (pure base) (inject base64 base) (λ s. refl)
            (bind-Keeps {part = served_of} (try_inject firmware base64 base)
              (λ combined. pure (or_base combined base))
              (bind-Keeps {part = served_of} (read_key firmware) (inject_key firmware base64 base)
                read_key-Keeps inject_key-Keeps)
              (λ combined s. refl))
    where
      read_key-Keeps : Keeps served_of (read_key firmware)
      read_key-Keeps s = unfold read_key in ground arith

      combine-Keeps : (cmd key : List ℕ) → Keeps served_of (combine base64 cmd key)
      combine-Keeps cmd key s = unfold combine in ground arith

      inject_key-Keeps :
          (key : Option (List ℕ)) → Keeps served_of (inject_key firmware base64 base key)
      inject_key-Keeps none s = refl
      inject_key-Keeps (some key) s =
          combine-Keeps (strip_trailing_terminators (or_empty base)) key s

  copy_cmdline-Keeps : (base : Option (List ℕ)) → Keeps served_of (copy_cmdline firmware base)
  unfolding copy_cmdline
  copy_cmdline-Keeps none s = refl
  copy_cmdline-Keeps (some base) s = ground arith

  pub choose_cmdline-Keeps :
      (platform : Platform) (base : Option (List ℕ))
      → Keeps served_of (choose_cmdline firmware platform base)
  unfolding choose_cmdline
  choose_cmdline-Keeps platform base =
      if-Keeps platform.muak _ _ (policy_cmdline-Keeps platform.base64 base)
        (copy_cmdline-Keeps base)

  pub measure-Keeps :
      (platform : Platform) (sections : Sections)
      → Keeps memory_of (measure firmware platform sections)
  unfolding measure
  measure-Keeps platform sections = if-Keeps platform.tpm _ _ each-Keeps (λ s. refl)
    where
      each-Keeps : Keeps memory_of (measure_each firmware sections.measured)
      each-Keeps s =
          let (t, _, goes, _, _, memory) = measure_each-Requests firmware sections.measured s in
          ap (λ (r : Outcome (Unit {0}) × Machine). r.1.memory) goes ∙ memory

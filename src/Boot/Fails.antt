-- ===== src/Boot/Fails.antt =====
-- Why main of src/main.rs ends with an error before it starts a kernel.
use stub.Prelude.{
  ℕ, ◌<◌, ◌≡◌, refl, ap, ◌∙◌, Bool, true, false, Option, none, some, List, ◌∷◌, ◌==◌,
}
use stub.Word.{usize_end}
use stub.Memory.{read}
use stub.Machine.{Machine, Outcome, err, Firmware, Error, Call, Loaded, FileRead, context}
use stub.Machine.Bind.{bind-ok, bind-err}
use stub.Result.{Result, lift}
use stub.Pe.Kernel.{Image, parse}
use stub.Pe.Kernel.Refuses.{Unparsed, parse-Unparsed}
use stub.Tpm2.{has_handle}
use stub.Policy.Final.{IsEncoding}
use stub.Policy.Decision.{decide, policy_cmdline-decide}
use stub.Boot.{
  Platform, Sections, setup_uefi_crate, measure, install_initrd, choose_cmdline, load, main,
}
use stub.Boot.Steps.{entered}
use stub.Boot.Order.{opened, find, finish, load-parts, main-refused}
use stub.Boot.Stages.{Found}
use stub.Boot.Goes.{Installs, measure-Always, install_initrd-Always, find-uki, find-Goes}

-- Why what the stub stands on is refused, once LoadedImage is open.
pub data Refused (firmware : Firmware) (platform : Platform) (s : Machine) (loaded : Loaded)
    : Error → Type 0 where
  -- the uki crate finds no sections in the memory that LoadedImage names
  no_sections :
      platform.uki (read s.memory loaded.image_base loaded.image_size) ≡ none
      → Refused firmware platform s loaded Error.uki_invalid
  -- the kernel among the sections cannot be started
  unbootable :
      {e : Error} (sections : Sections)
      → Found firmware platform loaded s sections
      → Unparsed platform.target platform.reader sections.kernel e
      → Refused firmware platform s loaded e
  -- the policy has no command line, although the kernel is fine and the initrd is installed
  no_cmdline :
      {e : Error} (sections : Sections) (kernel : Image) (text : List ℕ → List ℕ) (tpm : Bool)
      (file : FileRead)
      → Found firmware platform loaded s sections
      → parse platform.target platform.reader sections.kernel ≡ Result.ok kernel
      → Installs firmware
      → platform.muak ≡ true
      → IsEncoding platform.base64 text
      → ((t : Machine) → has_handle (firmware.locate_tcg t) ≡ tpm)
      → ((t : Machine) → firmware.read_luks t ≡ file)
      → decide text tpm file sections.cmdline ≡ err e
      → Refused firmware platform s loaded e

-- Why the stub gives up.
pub data Fails (firmware : Firmware) (platform : Platform) (s : Machine) : Error → Type 0 where
  no_handle : firmware.image_handle s ≡ 0 → Fails firmware platform s Error.null_image_handle
  not_opened :
      (firmware.image_handle s == 0) ≡ false
      → firmware.open_loaded_image s (firmware.image_handle s) ≡ none
      → Fails firmware platform s Error.loaded_image_unavailable
  unfit :
      {e : Error} (loaded : Loaded)
      → (firmware.image_handle s == 0) ≡ false
      → firmware.open_loaded_image s (firmware.image_handle s) ≡ some loaded
      → loaded.image_size < usize_end
      → Refused firmware platform s loaded e
      → Fails firmware platform s e

module _ (firmware : Firmware) (platform : Platform) where
  -- the policy's command line, by `decide`
  choose_cmdline-decide :
      (base : Option (List ℕ)) (text : List ℕ → List ℕ) (tpm : Bool) (file : FileRead) (e : Error)
      (s : Machine)
      → platform.muak ≡ true
      → IsEncoding platform.base64 text
      → ((t : Machine) → has_handle (firmware.locate_tcg t) ≡ tpm)
      → ((t : Machine) → firmware.read_luks t ≡ file)
      → decide text tpm file base ≡ err e
      → (choose_cmdline firmware platform base s).0 ≡ err e
  unfolding choose_cmdline
  choose_cmdline-decide base text tpm file e s muak encodes answers reads is = rw muak (
      ap (λ (r : Outcome (Option (List ℕ)) × Machine). r.0)
        (policy_cmdline-decide platform.base64 text encodes firmware base s)
      ∙ rw (answers s, reads (record s { calls = Call.locate_tcg ∷ s.calls })) is)

  module _ (s : Machine) (loaded : Loaded) (small : loaded.image_size < usize_end) where
    abbrev start : Machine
    start = opened firmware platform s

    -- the part of `load` behind the measurements decides, once the sections are found
    load-finish :
        (sections : Sections)
        → Found firmware platform loaded s sections
        → (t : Machine) × (load firmware platform loaded start
            ≡ finish firmware platform sections t)
    load-finish sections found =
        let (t, finds) = find-Goes firmware platform loaded sections start small found in
        let (u, measures) = measure-Always firmware platform sections t in
        (
          u,
          load-parts firmware platform loaded start
              ∙ bind-ok (find firmware platform loaded) _ start finds
              ∙ bind-ok (measure firmware platform sections)
                  (λ _. finish firmware platform sections) t measures,
        )

    load-Refused :
        {e : Error}
        → Refused firmware platform s loaded e
        → (load firmware platform loaded start).0 ≡ err e
    load-Refused (Refused.no_sections missing) =
        let (t, finds) = find-uki firmware platform loaded start small in
        ap (λ (r : Outcome (Image × Option (List ℕ)) × Machine). r.0)
          (load-parts firmware platform loaded start
            ∙ bind-err (find firmware platform loaded) _ start
                (finds ∙ ap (λ o. context o Error.uki_invalid t) missing))
    load-Refused {e} (Refused.unbootable sections found unparsed) =
        let (t, finishes) = load-finish sections found in
        let r = parse platform.target platform.reader sections.kernel in
        let failed : r ≡ Result.err e =
          (parse-Unparsed platform.target platform.reader sections.kernel e).1 unparsed in
        ap (λ (q : Outcome (Image × Option (List ℕ)) × Machine). q.0)
          (finishes ∙ bind-err (lift r) _ t (ap (λ (q : Result Image). lift q t) failed))
    load-Refused {e}
          (Refused.no_cmdline sections kernel text tpm file found parsed installs muak encodes
            answers reads is) =
        let (t, finishes) = load-finish sections found in
        let (u, installed) = install_initrd-Always firmware platform installs sections.initrd t in
        let choice = choose_cmdline firmware platform sections.cmdline in
        let chosen : choice u ≡ (err e, (choice u).1) =
          ap (λ o. (o, (choice u).1))
            (choose_cmdline-decide sections.cmdline text tpm file e u muak encodes answers reads
              is) in
        ap (λ (q : Outcome (Image × Option (List ℕ)) × Machine). q.0)
          (finishes
            ∙ bind-ok (lift (parse platform.target platform.reader sections.kernel)) _ t
                (ap (λ (q : Result Image). lift q t) parsed)
            ∙ bind-ok (install_initrd firmware platform sections.initrd) _ t installed
            ∙ bind-err choice _ u chosen)

  -- Main ends with the error of what is amiss, and has entered no kernel, in each of these cases
  -- (Fails): the image handle is null; LoadedImage does not open; or it opens, with an image size
  -- that is a usize, and the uki crate finds no sections in the memory that it names; parse has an
  -- error for the kernel among the sections, which is that of its first check to fail; or, in a
  -- build of muak, the kernel is accepted and the firmware gives what the initrd takes, the base64
  -- crate encodes as documented, and the policy decides on an error from answers on the TPM and
  -- the key file that do not change.
  pub main-Fails :
      (s : Machine) (e : Error)
      → Fails firmware platform s e
      → (t : Machine) × (main firmware platform s ≡ (err e, t))
        × (entered t.calls ≡ entered s.calls)
  unfolding main setup_uefi_crate entered
  main-Fails s e (Fails.no_handle null) = (s, rw null refl, refl)
  main-Fails s e (Fails.not_opened given closed) =
      (opened firmware platform s, rw (given, closed) refl, refl)
  main-Fails s e (Fails.unfit loaded given opens small refused) =
      let (t, goes, none_entered) =
        main-refused firmware platform s loaded e given opens
          (load-Refused s loaded small refused) in
      (record t { calls = Call.close_loaded_image ∷ t.calls }, goes, none_entered)

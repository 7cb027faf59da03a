-- ===== src/Boot/Measured.antt =====
-- Measured boot: main in src/main.rs enters no kernel before it has asked for the measurements of
-- the image that the kernel comes from.
use stub.Prelude.{
  ℕ, ◌≡◌, refl, ap, ◌∙◌, true, Option, some, List, ◌∷◌, ◌++◌, ◌==◌, Bool-cases, Option-cases, inl,
  inr,
}
use stub.Machine.{
  Machine, Outcome, ok, err, gone, Firmware, Error, Call, Loaded, resume, fail, ◌>>◌,
}
use stub.Result.{Result}
use stub.Pe.Kernel.{Image, parse}
use stub.Tpm2.Measures.{Event, Takes, extends}
use stub.Loader.Start.{returned, start}
use stub.Boot.{Platform, Sections, setup_uefi_crate, closing_on_error, load, main}
use stub.Boot.Steps.{entered, boot, IsTame}
use stub.Boot.Order.{opened, load-Tame}
use stub.Boot.Once.{Ending, start-Ending, fail-Ending}
use stub.Boot.Stages.{Found}
use stub.Boot.Loads.{
  Digests, Loads, Asks, Names, Full, Full-Asks, Partial, Partial-Asks, load-Loads,
}

module _ (firmware : Firmware) (platform : Platform) where
  -- what `main` does with a kernel, from the start of it on
  abbrev pub run : Image → Option (List ℕ) → Machine → ℕ → Outcome (Unit {0}) × Machine
  run kernel cmdline t handle =
      (start firmware kernel cmdline handle >> fail Error.entry_point_returned) t

  -- How a run of `main` ends: with an error and no kernel entered, or with a jump into one, behind
  -- the measurements of the sections that it was found in.
  pub data Measured (digests : Digests) (s : Machine) (r : Outcome (Unit {0}) × Machine)
      : Type 0 where
    unentered :
        (e : Error) → r.0 ≡ err e → entered r.1.calls ≡ entered s.calls → Measured digests s r
    measured :
        (loaded : Loaded) (sections : Sections) (kernel : Image) (cmdline : Option (List ℕ))
        (t : Machine) (entry : ℕ) (u : Machine) (events : List Event)
        → firmware.open_loaded_image s (firmware.image_handle s) ≡ some loaded
        → Found firmware platform loaded s sections
        → parse platform.target platform.reader sections.kernel ≡ Result.ok kernel
        → r ≡ run kernel cmdline t (firmware.image_handle s)
        → digests sections events
        → extends u.calls ≡ extends s.calls ++ events
        → (let handle = firmware.image_handle s in
            let table = firmware.system_table u in
            r ≡ (
              returned (firmware.enter_kernel u entry handle table),
              record u { calls = Call.enter_kernel entry handle table ∷ u.calls },
            ))
        → Measured digests s r

  module _ {digests : Digests} (asks : Asks firmware platform digests) (s : Machine) where
    -- what `start` makes of the kernel that was loaded
    started-Measured :
        (loaded : Loaded) (kernel : Image) (cmdline : Option (List ℕ)) (t : Machine)
        → firmware.open_loaded_image s (firmware.image_handle s) ≡ some loaded
        → Loads firmware platform digests loaded (opened firmware platform s) t kernel
        → entered t.calls ≡ entered s.calls
        → Ending firmware boot t
            (firmware.image_handle s)
            (run kernel cmdline t (firmware.image_handle s))
        → Measured digests s (run kernel cmdline t (firmware.image_handle s))
    unfolding extends
    started-Measured loaded kernel cmdline t opens loads none_before (Ending.failed e is calls) =
        Measured.unentered e is (ap (λ v. v.0) calls ∙ none_before)
    started-Measured loaded kernel cmdline t opens loads none_before
          (Ending.jumped entry u rest closed calls is) =
        Measured.measured loaded loads.sections kernel cmdline t entry u loads.events opens
          loads.found loads.parsed refl loads.digested
          (ap extends closed ∙ ap (λ v. v.1) calls ∙ loads.calls) is

    loaded-Measured :
        (loaded : Loaded) (r : Outcome (Image × Option (List ℕ)) × Machine)
        → firmware.open_loaded_image s (firmware.image_handle s) ≡ some loaded
        → load firmware platform loaded (opened firmware platform s) ≡ r
        → IsTame entered r (opened firmware platform s)
        → Measured digests s (
            resume
              (λ (kernel, cmdline).
                start firmware kernel cmdline (firmware.image_handle s)
                >> fail Error.entry_point_returned)
              (closing_on_error r))
    unfolding entered
    loaded-Measured loaded (ok (kernel, cmdline), t) opens e tame =
        started-Measured loaded kernel cmdline t opens
          (load-Loads firmware platform digests asks loaded kernel cmdline
            (opened firmware platform s) t e)
          tame.calls
          (fail-Ending firmware (firmware.image_handle s) Error.entry_point_returned _ t
            (start-Ending firmware kernel cmdline (firmware.image_handle s) t))
    loaded-Measured loaded (err x, t) opens e tame = Measured.unentered x refl tame.calls
    loaded-Measured loaded (gone, t) opens e tame = absurd (tame.stays t refl)

    -- the measurements of every run
    run-Measured : Measured digests s (main firmware platform s)
    unfolding main setup_uefi_crate entered
    run-Measured =
        let handle = firmware.image_handle s in
        elim (Bool-cases (handle == 0)) [
          | inl null ↦ rw null (Measured.unentered Error.null_image_handle refl refl)
          | inr given ↦ elim (Option-cases (firmware.open_loaded_image s handle)) [
            | inl missing ↦
                rw (given, missing) (Measured.unentered Error.loaded_image_unavailable refl refl)
            | inr (loaded, opens) ↦
                rw (given, opens)
                  (loaded-Measured loaded
                    (load firmware platform loaded (opened firmware platform s)) opens refl
                    (load-Tame firmware platform loaded (opened firmware platform s)))
          ]
        ]

  -- In a build with a TPM, if the firmware has a TCG2 protocol that takes every event, and the
  -- sections that the uki crate finds have names short enough for an event's size to be a usize,
  -- then, whatever else the firmware answers, main either ends with an error and has entered no
  -- kernel, or it starts a kernel that parse made of the sections that the uki crate found in the
  -- memory of the stub's image, which LoadedImage names, and enters it as its last call, having
  -- asked before to extend PCR 11 for all measured sections of that image, in its order and each
  -- with its name and then its data, and for nothing else.
  pub main-Measured :
      {tcg : ℕ}
      → Takes firmware tcg
      → Names firmware platform
      → (s : Machine) → platform.tpm ≡ true
      → Measured (Full firmware platform) s (main firmware platform s)
  main-Measured takes names s tpm = run-Measured (Full-Asks firmware platform takes names tpm) s

  -- Whatever the firmware answers and whichever build it is, main either ends with an error and
  -- has entered no kernel, or it starts a kernel that parse made of the sections that the uki
  -- crate found in the memory of the stub's image, which LoadedImage names, and enters it as its
  -- last call; what it has asked to extend PCR 11 with before is nothing in a build without a TPM,
  -- and in one with a TPM, for each measured section of that image in its order, nothing, its name
  -- alone, or its name and then its data.
  pub main-Partial :
      (s : Machine) → Measured (Partial firmware platform) s (main firmware platform s)
  main-Partial s = run-Measured (Partial-Asks firmware platform) s

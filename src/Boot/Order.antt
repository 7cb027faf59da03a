-- ===== src/Boot/Order.antt =====
-- The parts of main in src/main.rs before `start`, and what follows where one of them is refused.
use stub.Prelude.{
  ℕ, ◌≡◌, refl, ap, sym, subst, false, Option, some, List, [], ◌∷◌, ◌++◌, arith, ◌==◌,
}
use stub.Word.{usize_end, fit}
use stub.Pe.Kernel.{Image, parse}
use stub.Machine.{
  Machine, Outcome, err, Firmware, Action, Error, Call, Loaded, context, pure, ◌>>=◌, ◌>>◌,
}
use stub.Machine.Bind.{resume-resume}
use stub.Result.{lift}
use stub.Tpm2.{open_tcg, hash_log_extend, measure_section, reported, measure_each}
use stub.Vars.{export}
use stub.Security.{is_setup_mode, is_secure_boot_enabled}
use stub.Boot.Steps.{
  entered, boot, boot-Tame, IsTame, Tame, resume-Tame, bind-Tame, closing_tcg-Tame, reported-Tame,
  if-Tame, pure-Tame, context-Tame, lift-Tame,
}
use stub.Boot.{
  Platform, Sections, setup_uefi_crate, install_initrd, measure, choose_cmdline, parse_sections,
  load, main,
}
use stub.Boot.Quiet.{
  read_bool_variable-Tame, export-Tame, choose_cmdline-Tame, parse_sections-Tame,
  install_initrd-Tame,
}

module _ (firmware : Firmware) where
  hash_log_extend-Tame : (name bytes : List ℕ) → Tame entered (hash_log_extend firmware name bytes)
  unfolding hash_log_extend entered
  hash_log_extend-Tame name bytes s = record { calls = ground arith; stays = λ t. ground arith }

  open_tcg-Tame : Tame entered (open_tcg firmware)
  unfolding open_tcg entered
  open_tcg-Tame s = record { calls = ground arith; stays = λ t. ground arith }

  measure_section-Tame : (name bytes : List ℕ) → Tame entered (measure_section firmware name bytes)
  unfolding measure_section
  measure_section-Tame name bytes = bind-Tame (open_tcg firmware) _ open_tcg-Tame λ tcg.
      closing_tcg-Tame _ (
        bind-Tame (hash_log_extend firmware name (name ++ 0 ∷ [])) _
          (hash_log_extend-Tame name (name ++ 0 ∷ [])) λ _. hash_log_extend-Tame name bytes)

  measure_each-Tame :
      (sections : List (List ℕ × List ℕ)) → Tame entered (measure_each firmware sections)
  unfolding measure_each
  measure_each-Tame [] s = record { calls = refl; stays = λ t e. cc }
  measure_each-Tame ((name, bytes) ∷ rest) s =
      resume-Tame (λ _. measure_each firmware rest)
        (reported (measure_section firmware name bytes s)) s
        (reported-Tame (measure_section firmware name bytes s) s
          (measure_section-Tame name bytes s))
        (λ _. measure_each-Tame rest)

  module _ (platform : Platform) where
    -- the part of `load` behind the measurements
    abbrev pub finish : Sections → Action (Image × Option (List ℕ))
    finish sections = do
      kernel ← lift (parse platform.target platform.reader sections.kernel)
      install_initrd firmware platform sections.initrd
      cmdline ← choose_cmdline firmware platform sections.cmdline
      pure (kernel, cmdline)

    pub finish-Tame : (sections : Sections) → Tame boot (finish sections)
    finish-Tame sections =
        bind-Tame _ _ (lift-Tame (parse platform.target platform.reader sections.kernel)) λ kernel.
          bind-Tame _ _ (install_initrd-Tame firmware platform sections.initrd) λ _.
            bind-Tame _ _ (choose_cmdline-Tame firmware platform sections.cmdline)
              λ cmdline. pure-Tame (kernel, cmdline)

    -- the part before them
    abbrev pub find : Loaded → Action Sections
    find loaded = do
      export firmware platform.printer platform.vendor platform.revision loaded.device
      setup_mode ← is_setup_mode firmware
      secure_boot ← is_secure_boot_enabled firmware
      image_size ← context (fit usize_end loaded.image_size) Error.loaded_image_size
      parse_sections firmware platform loaded.image_base image_size

    pub find-Tame : (loaded : Loaded) → Tame boot (find loaded)
    unfolding is_setup_mode is_secure_boot_enabled
    find-Tame loaded =
        bind-Tame _ _
          (export-Tame firmware platform.printer platform.vendor platform.revision loaded.device)
          λ _. bind-Tame _ _ (read_bool_variable-Tame firmware _) λ _.
            bind-Tame _ _ (read_bool_variable-Tame firmware _) λ _.
              bind-Tame _ _ (context-Tame (fit usize_end loaded.image_size) Error.loaded_image_size)
                λ size. parse_sections-Tame firmware platform loaded.image_base size

    pub load-parts :
        (loaded : Loaded) (s : Machine)
        → load firmware platform loaded s
          ≡ (find loaded >>= λ sections. measure firmware platform sections >> finish sections) s
    unfolding load
    load-parts loaded s =
        resume-resume
          (export firmware platform.printer platform.vendor platform.revision loaded.device s) _ _ _
          λ _ t. resume-resume (is_setup_mode firmware t) _ _ _ λ _ u.
            resume-resume (is_secure_boot_enabled firmware u) _ _ _ λ _ v.
              resume-resume (context (fit usize_end loaded.image_size) Error.loaded_image_size v) _
                _ _ λ size w. refl

    pub load-Tame : (loaded : Loaded) → Tame entered (load firmware platform loaded)
    unfolding measure
    load-Tame loaded s =
        subst (λ r. IsTame entered r s) (sym (load-parts loaded s))
          (bind-Tame (find loaded) _ (boot-Tame (find loaded) (find-Tame loaded))
            (λ sections.
              bind-Tame (measure firmware platform sections) _
                (if-Tame platform.tpm _ _ (measure_each-Tame sections.measured) (pure-Tame tt))
                (λ _. boot-Tame (finish sections) (finish-Tame sections)))
            s)

    -- the machine once LoadedImage is open
    abbrev pub opened : Machine → Machine
    opened s = record s { calls = Call.open_loaded_image (firmware.image_handle s) ∷ s.calls }

    -- If the image handle is not null, LoadedImage opens, and what main does before start, from
    -- the variables to the command line, ends in an error, then main ends with that error, closes
    -- LoadedImage last and has entered no kernel.
    pub main-refused :
        (s : Machine) (loaded : Loaded) (e : Error)
        → (firmware.image_handle s == 0) ≡ false
        → firmware.open_loaded_image s (firmware.image_handle s) ≡ some loaded
        → (load firmware platform loaded (opened s)).0 ≡ err e
        → (t : Machine) × (main firmware platform s
            ≡ (err e, record t { calls = Call.close_loaded_image ∷ t.calls }))
          × (entered t.calls ≡ entered s.calls)
    unfolding main setup_uefi_crate entered
    main-refused s loaded e handle opens refused =
        let r = load firmware platform loaded (opened s) in
        let whole : r ≡ (err e, r.1) =
          ap (λ (o : Outcome (Image × Option (List ℕ))). (o, r.1)) refused in
        (r.1, rw (handle, opens, whole), (load-Tame loaded (opened s)).calls)

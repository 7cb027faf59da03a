-- ===== src/Boot/Stages.antt =====
-- The stages of `load`, the part of main in src/main.rs before `start`, when it goes through.
use stub.Prelude.{ℕ, ◌≡◌, ap, sym, ◌∙◌, Option, some, List, arith}
use stub.Word.{usize_end, fit}
use stub.Memory.{read}
use stub.Machine.{Machine, ok, Firmware, Error, Loaded, context, ◌>>◌}
use stub.Machine.Bind.{resume-eq-ok, context-eq-ok}
use stub.Result.{Result, lift}
use stub.Pe.Kernel.{Image, parse}
use stub.Security.{is_setup_mode, is_secure_boot_enabled}
use stub.Vars.{export}
use stub.Boot.{Platform, Sections, parse_sections, measure, install_initrd, choose_cmdline, load}
use stub.Boot.Reads.{memory_of, Keeps-same, read_bool_variable-Keeps, export-Keeps}
use stub.Boot.Order.{find, finish, load-parts}

lift-eq-ok :
    {A : Type 0} (r : Result A) (a : A) (s t : Machine)
    → lift r s ≡ (ok a, t)
    → (r ≡ Result.ok a) × (t ≡ s)
lift-eq-ok (Result.ok x) a s t e = (cc, cc)
lift-eq-ok (Result.err x) a s t e = cc

module _ (firmware : Firmware) (platform : Platform) where
  -- The sections are those of the image that LoadedImage names, as it stands in memory.
  abbrev pub Found : Loaded → Machine → Sections → Type 0
  Found loaded s sections =
      platform.uki (read s.memory loaded.image_base loaded.image_size) ≡ some sections

  parse_sections-uki :
      (base size : ℕ) (sections : Sections) (s t : Machine)
      → parse_sections firmware platform base size s ≡ (ok sections, t)
      → (platform.uki (read s.memory base size) ≡ some sections) × (t ≡ s)
  unfolding parse_sections
  parse_sections-uki base size sections s t e =
      context-eq-ok (platform.uki (read s.memory base size)) Error.uki_invalid e

  fit-eq :
      (n size : ℕ) (s t : Machine)
      → context (fit usize_end n) Error.loaded_image_size s ≡ (ok size, t)
      → (size ≡ n) × (t ≡ s)
  fit-eq n size s t e =
      let (fits, same) = context-eq-ok (fit usize_end n) Error.loaded_image_size e in
      (ground (arith, fits), same)

  pub find-Found :
      (loaded : Loaded) (sections : Sections) (s t : Machine)
      → find firmware platform loaded s ≡ (ok sections, t)
      → Found loaded s sections × (t.memory ≡ s.memory)
  unfolding is_setup_mode is_secure_boot_enabled
  find-Found loaded sections s t e =
      let exports =
        export firmware platform.printer platform.vendor platform.revision loaded.device in
      let (_, s1, e0, e1) = resume-eq-ok _ (exports s) e in
      let (_, s2, d1, e2) = resume-eq-ok _ (is_setup_mode firmware s1) e1 in
      let (_, s3, d2, e3) = resume-eq-ok _ (is_secure_boot_enabled firmware s2) e2 in
      let (size, s4, d3, e4) =
        resume-eq-ok _ (context (fit usize_end loaded.image_size) Error.loaded_image_size s3) e3 in
      let (whole, same) = fit-eq loaded.image_size size s3 s4 d3 in
      let memory : s4.memory ≡ s.memory =
        ap (λ (m : Machine). m.memory) same
        ∙ Keeps-same {part = memory_of} (is_secure_boot_enabled firmware)
            (read_bool_variable-Keeps firmware _) d2
        ∙ Keeps-same {part = memory_of} (is_setup_mode firmware)
            (read_bool_variable-Keeps firmware _) d1
        ∙ Keeps-same {part = memory_of} exports
            (export-Keeps firmware platform.printer platform.vendor platform.revision loaded.device)
            e0 in
      let (found, still) = parse_sections-uki loaded.image_base size sections s4 t e4 in
      (
        ap (λ m. platform.uki (read m loaded.image_base loaded.image_size)) (sym memory)
            ∙ ap (λ n. platform.uki (read s4.memory loaded.image_base n)) (sym whole)
            ∙ found,
        ap (λ (m : Machine). m.memory) still ∙ memory,
      )

  -- The sections were found, measured, the kernel of them parsed, the initrd offered, and the
  -- command line chosen, each in the machine that the stage before has left.
  pub record Stages (loaded : Loaded) (s t : Machine) (kernel : Image) (cmdline : Option (List ℕ))
      : Type 0 where
    pub sections : Sections
    pub first : Machine
    pub second : Machine
    pub third : Machine
    pub finds : find firmware platform loaded s ≡ (ok sections, first)
    pub found : Found loaded s sections
    pub memory : first.memory ≡ s.memory
    pub measures : measure firmware platform sections first ≡ (ok tt, second)
    pub parsed : parse platform.target platform.reader sections.kernel ≡ Result.ok kernel
    pub installs : install_initrd firmware platform sections.initrd second ≡ (ok tt, third)
    pub chooses : choose_cmdline firmware platform sections.cmdline third ≡ (ok cmdline, t)

  finish-Stages :
      (sections : Sections) (kernel : Image) (cmdline : Option (List ℕ)) (s t : Machine)
      → finish firmware platform sections s ≡ (ok (kernel, cmdline), t)
      → (third : Machine) × (parse platform.target platform.reader sections.kernel
          ≡ Result.ok kernel)
        × (install_initrd firmware platform sections.initrd s ≡ (ok tt, third))
        × (choose_cmdline firmware platform sections.cmdline third ≡ (ok cmdline, t))
  finish-Stages sections kernel cmdline s t e =
      let r = parse platform.target platform.reader sections.kernel in
      let (k, s1, e0, e1) = resume-eq-ok _ (lift r s) e in
      let (u, s2, e2, e3) =
        resume-eq-ok _ (install_initrd firmware platform sections.initrd s1) e1 in
      let (c, s3, e4, e5) =
        resume-eq-ok _ (choose_cmdline firmware platform sections.cmdline s2) e3 in
      let (parsed, same) = lift-eq-ok r k s s1 e0 in
      let kernel_same : k ≡ kernel = cc e5 in
      (
        s2,
        parsed ∙ ap Result.ok kernel_same,
        ap (install_initrd firmware platform sections.initrd) (sym same) ∙ e2,
        e4 ∙ cc e5,
      )

  pub load-Stages :
      (loaded : Loaded) (kernel : Image) (cmdline : Option (List ℕ)) (s t : Machine)
      → load firmware platform loaded s ≡ (ok (kernel, cmdline), t)
      → Stages loaded s t kernel cmdline
  load-Stages loaded kernel cmdline s t e =
      let (sections, first, finds, rest) =
        resume-eq-ok
          (λ sections. measure firmware platform sections >> finish firmware platform sections)
          (find firmware platform loaded s) (sym (load-parts firmware platform loaded s) ∙ e) in
      let (u, second, measures, last) =
        resume-eq-ok (λ _. finish firmware platform sections)
          (measure firmware platform sections first) rest in
      let (third, parsed, installs, chooses) =
        finish-Stages sections kernel cmdline second t last in
      record {
        sections = sections;
        first = first;
        second = second;
        third = third;
        finds = finds;
        found = (find-Found loaded sections s first finds).0;
        memory = (find-Found loaded sections s first finds).1;
        measures = measures;
        parsed = parsed;
        installs = installs;
        chooses = chooses;
      }

-- ===== src/Boot/Enters.antt =====
-- A boot from its first call to the kernel, for an image and a firmware that have what it takes:
-- src/main.rs with all that it calls.
use stub.Prelude.{
  ℕ, ◌+◌, ◌<◌, ◌≡◌, refl, ap, ◌∙◌, false, Option, none, some, List, ◌∷◌, ◌==◌, arith,
}
use stub.Word.{usize_end}
use stub.Machine.{Machine, ok, Firmware, Call, Loaded}
use stub.Machine.Bind.{bind-ok}
use stub.Result.{Result, lift}
use stub.Pe.Kernel.{SectionHeader, NtHeaders, Image, parse}
use stub.Pe.Kernel.Accepts.{IsBootable, Decodes, Describes, parse-IsBootable}
use stub.LoadFile2.{Slice, install, build_device_path}
use stub.Loader.Mapping.Layout.{layout, or_old}
use stub.Loader.Start.{returned}
use stub.Loader.Start.Entry.{CanStart, IsReady}
use stub.Boot.{Platform, Sections, measure, install_initrd, choose_cmdline, load, main}
use stub.Boot.Order.{opened, find, finish, load-parts}
use stub.Boot.Reads.{memory_of, Keeps, Keeps-same, choose_cmdline-Keeps, measure-Keeps}
use stub.Boot.Stages.{Found, find-Found}
use stub.Boot.Goes.{
  Installs, Chooses, measure-Always, install_initrd-Always, choose_cmdline-Chooses, find-Goes,
}
use stub.Boot.Whole.{main-IsReady}

-- The image's sections and its kernel, as they stand in memory.
pub record Bootable (firmware : Firmware) (platform : Platform) (s : Machine) (loaded : Loaded)
    (sections : Sections) (headers : NtHeaders) (table : List SectionHeader) (kernel : Image)
    : Type 0 where
  pub small : loaded.image_size < usize_end
  pub found : Found firmware platform loaded s sections
  pub decodes : Decodes platform.reader sections.kernel headers table
  pub bootable : IsBootable platform.target headers table
  pub describes : Describes headers table sections.kernel kernel

-- What the firmware has to give, whenever it is asked.
pub record Supplies (firmware : Firmware) (platform : Platform) (s : Machine) (loaded : Loaded)
    (sections : Sections) (kernel : Image) (cmdline : Option (List ℕ)) (base : ℕ) : Type 0 where
  pub handle : (firmware.image_handle s == 0) ≡ false
  pub opens : firmware.open_loaded_image s (firmware.image_handle s) ≡ some loaded
  pub installs : Installs firmware
  pub chooses : Chooses firmware platform sections.cmdline cmdline
  pub can : (t : Machine) → CanStart firmware kernel cmdline t base

module _ (firmware : Firmware) (platform : Platform) where
  install_initrd-Keeps :
      (initrd : Option Slice) → Keeps memory_of (install_initrd firmware platform initrd)
  unfolding install_initrd install build_device_path
  install_initrd-Keeps none s = refl
  install_initrd-Keeps (some initrd) s = ground arith

  module _ (s : Machine) (loaded : Loaded) (sections : Sections) (headers : NtHeaders)
      (table : List SectionHeader) (kernel : Image) (cmdline : Option (List ℕ)) (base : ℕ)
      (is : Bootable firmware platform s loaded sections headers table kernel)
      (supplies : Supplies firmware platform s loaded sections kernel cmdline base) where
    parsed : parse platform.target platform.reader sections.kernel ≡ Result.ok kernel
    parsed =
        (parse-IsBootable platform.target platform.reader sections.kernel headers table kernel
            is.decodes).1
          (is.bootable, is.describes)

    finish-Goes :
        (t : Machine)
        → (u : Machine) × (finish firmware platform sections t ≡ (ok (kernel, cmdline), u))
          × (u.memory ≡ t.memory)
    finish-Goes t =
        let (v, installs) =
          install_initrd-Always firmware platform supplies.installs sections.initrd t in
        let (u, chooses) =
          choose_cmdline-Chooses firmware platform sections.cmdline cmdline v supplies.chooses in
        (
          u,
          bind-ok (lift (parse platform.target platform.reader sections.kernel)) _ t
                (ap (λ (r : Result Image). lift r t) parsed)
              ∙ bind-ok (install_initrd firmware platform sections.initrd) _ t installs
              ∙ bind-ok (choose_cmdline firmware platform sections.cmdline) _ v chooses,
          ap (λ x. x.0)
                (Keeps-same (choose_cmdline firmware platform sections.cmdline)
                  (choose_cmdline-Keeps firmware platform sections.cmdline) chooses)
              ∙ Keeps-same {part = memory_of} (install_initrd firmware platform sections.initrd)
                  (install_initrd-Keeps sections.initrd) installs,
        )

    load-Goes :
        (t : Machine) × (load firmware platform loaded (opened firmware platform s)
          ≡ (ok (kernel, cmdline), t))
        × (t.memory ≡ s.memory)
    load-Goes =
        let start = opened firmware platform s in
        let (t1, finds) = find-Goes firmware platform loaded sections start is.small is.found in
        let (_, same) = find-Found firmware platform loaded sections start t1 finds in
        let (t2, measures) = measure-Always firmware platform sections t1 in
        let (t3, finishes, kept) = finish-Goes t2 in
        (
          t3,
          load-parts firmware platform loaded start
              ∙ bind-ok (find firmware platform loaded) _ start finds
              ∙ bind-ok (measure firmware platform sections)
                  (λ _. finish firmware platform sections) t1 measures
              ∙ finishes,
          kept
              ∙ Keeps-same {part = memory_of} (measure firmware platform sections)
                  (measure-Keeps firmware platform sections) measures
              ∙ same,
        )

    -- For an image whose sections the uki crate finds in the memory that LoadedImage names, with a
    -- kernel in them whose headers decode and are bootable (Bootable), and a firmware that gives
    -- what it is asked for (Supplies: an image handle that is not null, LoadedImage, the pool
    -- memory, path and handles for the initrd, the memory or the answers for the command line, and
    -- CanStart in any machine), main gets through all its steps, whatever the firmware says of
    -- variables and of the TPM's events, and enters the kernel at the address of its pages plus
    -- its entry point, with the image handle and the system table, when its image is laid out over
    -- the memory that main was called with and its load options are set; main ends as that call
    -- ends.
    pub main-Enters :
        (t : Machine) × (let handle = firmware.image_handle s in
          let system = firmware.system_table t in
          let entry = base + kernel.entry_point_rva in
          main firmware platform s ≡ (
            returned (firmware.enter_kernel t entry handle system),
            record t { calls = Call.enter_kernel entry handle system ∷ t.calls },
          ))
        × IsReady kernel cmdline base s t
    main-Enters =
        let (before, loads, memory) = load-Goes in
        let (t, goes, ready, _) =
          main-IsReady firmware platform s loaded kernel cmdline before base supplies.handle
            supplies.opens loads (supplies.can before) in
        (
          t,
          goes,
          record {
            before = ready.before;
            closed = ready.closed;
            options = ready.options;
            bytes = λ o inside.
                ready.bytes o inside
                ∙ ap (λ m. or_old (layout kernel kernel.sections o) (m (base + o))) memory;
          },
        )

-- ===== src/Boot/Whole.antt =====
-- A boot that gets as far as the kernel: src/main.rs from its first call to the jump.
use stub.Prelude.{ℕ, ◌+◌, ◌≡◌, refl, ap, sym, ◌∙◌, false, Option, none, some, List, ◌∷◌, ◌==◌}
use stub.Machine.{Machine, Outcome, ok, Firmware, Error, Call, Loaded, Status, resume, fail}
use stub.Pe.Kernel.{Image}
use stub.Loader.Start.{returned}
use stub.Loader.Start.Entry.{CanStart, IsReady, start-IsReady}
use stub.Boot.{Platform, setup_uefi_crate, load, main}
use stub.Boot.Steps.{entered}
use stub.Boot.Order.{opened, load-Tame}

-- what `main` makes of the end of `start`
resume-returned :
    (reply : Option Status) (t : Machine)
    → resume (λ (u : Unit {0}). fail {A = Unit {0}} Error.entry_point_returned) (returned reply, t)
      ≡ (returned reply, t)
resume-returned none t = refl
resume-returned (some status) t = refl

module _ (firmware : Firmware) (platform : Platform) (s : Machine) where
  -- If the image handle is not null, LoadedImage opens, what main does before start yields a
  -- kernel and a command line, and CanStart holds of them at that point, then main has entered no
  -- kernel until then, and enters this one at the address of its pages plus its entry point, with
  -- the image handle and the system table, when its image is laid out and its load options are
  -- set; main ends as that call ends.
  pub main-IsReady :
      (loaded : Loaded) (kernel : Image) (cmdline : Option (List ℕ)) (before : Machine) (base : ℕ)
      → (firmware.image_handle s == 0) ≡ false
      → firmware.open_loaded_image s (firmware.image_handle s) ≡ some loaded
      → load firmware platform loaded (opened firmware platform s) ≡ (ok (kernel, cmdline), before)
      → CanStart firmware kernel cmdline before base
      → (t : Machine) × (let handle = firmware.image_handle s in
          let table = firmware.system_table t in
          let entry = base + kernel.entry_point_rva in
          main firmware platform s ≡ (
            returned (firmware.enter_kernel t entry handle table),
            record t { calls = Call.enter_kernel entry handle table ∷ t.calls },
          ))
        × IsReady kernel cmdline base before t
        × (entered before.calls ≡ entered s.calls)
  unfolding main setup_uefi_crate entered
  main-IsReady loaded kernel cmdline before base handle opens loads can =
      let (t, e, ready) =
        start-IsReady firmware kernel cmdline before can (firmware.image_handle s) in
      let table = firmware.system_table t in
      let entry = base + kernel.entry_point_rva in
      (
        t,
        rw (handle, opens, loads)
            (ap (resume (λ (u : Unit {0}). fail {A = Unit {0}} Error.entry_point_returned)) e
              ∙ resume-returned (firmware.enter_kernel t entry (firmware.image_handle s) table)
                  (record t {
                    calls = Call.enter_kernel entry (firmware.image_handle s) table ∷ t.calls;
                  })),
        ready,
        sym (ap (λ (r : Outcome (Image × Option (List ℕ)) × Machine). entered r.1.calls) loads)
            ∙ (load-Tame firmware platform loaded (opened firmware platform s)).calls,
      )

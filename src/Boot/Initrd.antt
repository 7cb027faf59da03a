-- ===== src/Boot/Initrd.antt =====
-- The initrd from the image of the stub to the kernel: src/main.rs, src/loadfile2.rs and the loader
-- together.
use stub.Prelude.{ℕ, ◌+◌, ◌≡◌, ◌≢◌, refl, ap, ap₂, sym, ◌∙◌, false, Option, some, List, ◌∷◌, ◌==◌}
use stub.Memory.{read, load_usize}
use stub.Memory.Laws.{Apart, read-same}
use stub.Machine.{
  Machine, Outcome, ok, err, gone, Firmware, Error, Call, Loaded, Status, resume, fail,
}
use stub.Machine.Bind.{resume-eq-ok}
use stub.Pe.Kernel.{Image}
use stub.LoadFile2.{Slice, install, load_file2_callback}
use stub.LoadFile2.Handshake.{Serves, two_calls}
use stub.LoadFile2.Install.{IsFile, install-statics, install-Serves}
use stub.Loader.Start.{start}
use stub.Loader.Start.Steps.{GrantsPool, SameImage}
use stub.Loader.Start.Entry.{CanStart, start-IsReady}
use stub.Loader.Start.Region.{SameFile, start-Region}
use stub.Boot.{
  Platform, Sections, setup_uefi_crate, linux_initrd_guid, install_initrd, choose_cmdline, measure,
  load, main,
}
use stub.Boot.Order.{opened}
use stub.Boot.Stages.{Found, load-Stages}
use stub.Boot.Reads.{memory_of, served_of, Keeps-same, choose_cmdline-Keeps, measure-Keeps}

-- A boot that gets to `start` with this kernel and this command line, from a machine in which the
-- kernel can be started.
pub record Boots (firmware : Firmware) (platform : Platform) (s : Machine) (loaded : Loaded)
    (kernel : Image) (cmdline : Option (List ℕ)) (before : Machine) (base : ℕ) : Type 0 where
  pub handle : (firmware.image_handle s == 0) ≡ false
  pub opens : firmware.open_loaded_image s (firmware.image_handle s) ≡ some loaded
  pub loads :
      load firmware platform loaded (opened firmware platform s) ≡ (ok (kernel, cmdline), before)
  pub can : CanStart firmware kernel cmdline before base

resume-fail :
    (e : Error) (r : Outcome (Unit {0}) × Machine)
    → (resume (λ (u : Unit {0}). fail {A = Unit {0}} e) r).1 ≡ r.1
resume-fail e (ok u, t) = refl
resume-fail e (err x, t) = refl
resume-fail e (gone, t) = refl

-- a machine with the same memory and statics serves the same
Serves-served_of :
    (s t : Machine) (file : List ℕ) → served_of t ≡ served_of s → Serves s file → Serves t file
Serves-served_of s t file same serves =
    let ptr : t.file_ptr ≡ s.file_ptr = ap (λ v. v.1) same in
    let len : t.file_len ≡ s.file_len = ap (λ v. v.2) same in
    let memory : t.memory ≡ s.memory = ap (λ v. v.0) same in
    record {
      ptr = rw ptr serves.ptr;
      len = len ∙ serves.len;
      nonempty = rw len serves.nonempty;
      word = rw len serves.word;
      bytes = rw (ptr, len, memory) serves.bytes;
    }

-- and so does one with the same bytes where the file stands
Serves-SameImage :
    (s t : Machine) (file : List ℕ) (p n : ℕ)
    → s.file_ptr ≡ p
    → s.file_len ≡ n
    → SameImage p n s t
    → SameFile s t
    → Serves s file
    → Serves t file
Serves-SameImage s t file p n at size same (ptr, len) serves = record {
  ptr = rw ptr serves.ptr;
  len = len ∙ serves.len;
  nonempty = rw len serves.nonempty;
  word = rw len serves.word;
  bytes =
      ap₂ (read t.memory) (ptr ∙ at) (len ∙ size)
      ∙ read-same s.memory t.memory p n same
      ∙ sym (ap₂ (read s.memory) at size)
      ∙ serves.bytes;
}

module _ (firmware : Firmware) (platform : Platform) where
  install_initrd-Serves :
      (initrd : Slice) (file : List ℕ) (s t : Machine)
      → IsFile initrd file s
      → install_initrd firmware platform (some initrd) s ≡ (ok tt, t)
      → Serves t file × (t.file_ptr ≡ initrd.ptr) × (t.file_len ≡ initrd.len)
  unfolding install_initrd
  install_initrd-Serves initrd file s t is e =
      let (h, u, installed, rest) =
        resume-eq-ok _ (install firmware initrd linux_initrd_guid s) e in
      let same : t ≡ (install firmware initrd linux_initrd_guid s).1 =
        ap (λ (r : Outcome (Unit {0}) × Machine). r.1) (sym rest)
        ∙ ap (λ (r : Outcome ℕ × Machine). r.1) (sym installed) in
      let (ptr, len, _) = install-statics firmware initrd linux_initrd_guid s in
      rw same (install-Serves firmware initrd linux_initrd_guid s file is, ptr, len)

  module _ (s : Machine) (loaded : Loaded) (kernel : Image) (cmdline : Option (List ℕ))
      (before : Machine) (base : ℕ)
      (boots : Boots firmware platform s loaded kernel cmdline before base) where
    -- from there on `main` is `start`
    pub main-start :
        (main firmware platform s).1
        ≡ (start firmware kernel cmdline (firmware.image_handle s) before).1
    unfolding main setup_uefi_crate
    main-start =
        rw (boots.handle, boots.opens, boots.loads)
          (resume-fail Error.entry_point_returned
            (start firmware kernel cmdline (firmware.image_handle s) before))

    module _ (sections : Sections) (initrd : Slice) (file : List ℕ)
        (found : Found firmware platform loaded s sections) (given : sections.initrd ≡ some initrd)
        (is : IsFile initrd file s) where
      -- the initrd is served when `load` has gone through
      before-Serves :
          Serves before file
          × SameFile (record s { file_ptr = initrd.ptr; file_len = initrd.len }) before
      before-Serves =
          let stages =
            load-Stages firmware platform loaded kernel cmdline (opened firmware platform s) before
              boots.loads in
          let same : stages.sections ≡ sections = cc (found, stages.found) in
          let memory : stages.second.memory ≡ s.memory =
            Keeps-same {part = memory_of} (measure firmware platform stages.sections)
              (measure-Keeps firmware platform stages.sections) stages.measures
            ∙ stages.memory in
          let moved : IsFile initrd file stages.second = record {
            ptr = is.ptr;
            len = is.len;
            nonempty = is.nonempty;
            word = is.word;
            bytes = ap (λ m. read m initrd.ptr initrd.len) memory ∙ is.bytes;
          } in
          let installs =
            ap (λ i. install_initrd firmware platform i stages.second)
              (sym given ∙ ap (λ (x : Sections). x.initrd) (sym same))
            ∙ stages.installs in
          let (serves, ptr, len) =
            install_initrd-Serves initrd file stages.second stages.third moved installs in
          let kept =
            Keeps-same {part = served_of} (choose_cmdline firmware platform stages.sections.cmdline)
              (choose_cmdline-Keeps firmware platform stages.sections.cmdline) stages.chooses in
          (
            Serves-served_of stages.third before file kept serves,
            (ap (λ v. v.1) kept ∙ ptr, ap (λ v. v.2) kept ∙ len),
          )

      -- If the image handle is not null, LoadedImage opens, what main does before start yields a
      -- kernel and a command line, and CanStart holds of them at that point, and if the uki crate
      -- finds an initrd in the stub's image, a nonempty file that does not stand at the null
      -- address, apart from the kernel's pages and from all memory that the pool gives, then main
      -- enters the kernel as its last call, and on the memory that main leaves, a kernel that asks
      -- LoadFile2 for the size without a buffer and then with a buffer of that size gets
      -- Status.success and the bytes of that initrd, if neither its size cell nor its buffer is
      -- null, and the cell, the buffer and the initrd do not overlap.
      pub main-Serves :
          (cell buffer : ℕ)
          → Apart base kernel.size initrd.ptr initrd.len
          → GrantsPool firmware initrd.ptr initrd.len
          → cell ≢ 0
          → Apart cell 8 initrd.ptr initrd.len
          → buffer ≢ 0
          → Apart buffer initrd.len initrd.ptr initrd.len
          → Apart buffer initrd.len cell 8
          → let t = (main firmware platform s).1 in
            let asked = (load_file2_callback false cell 0 t).1 in
            let (status, got) = load_file2_callback false cell buffer asked in
            (u : Machine) × (t.calls
              ≡ Call.enter_kernel
                  (base + kernel.entry_point_rva)
                  (firmware.image_handle s)
                  (firmware.system_table u)
                ∷ u.calls)
            × (status ≡ Status.success)
            × (read got.memory buffer (load_usize asked.memory cell) ≡ file)
      main-Serves cell buffer clear pool cell_given cell_apart target buffer_apart both_apart =
          let handle = firmware.image_handle s in
          let (serves, (ptr, len)) = before-Serves in
          let end = (start firmware kernel cmdline handle before).1 in
          let (u, e, _) = start-IsReady firmware kernel cmdline before boots.can handle in
          let (region, file_same) =
            start-Region firmware kernel cmdline before boots.can initrd.ptr initrd.len clear pool
              handle in
          let still : Serves end file =
            Serves-SameImage before end file initrd.ptr initrd.len ptr len region file_same
              serves in
          let end_ptr : end.file_ptr ≡ initrd.ptr = file_same.0 ∙ ptr in
          let end_len : end.file_len ≡ initrd.len = file_same.1 ∙ len in
          let (success, copied) =
            two_calls cell buffer end file still cell_given (rw (end_ptr, end_len) cell_apart)
              target (rw (end_ptr, end_len) buffer_apart) (rw end_len both_apart) in
          (
            u,
            ap (λ (m : Machine). m.calls) main-start
                ∙ ap (λ (r : Outcome (Unit {0}) × Machine). r.1.calls) e,
            rw main-start success,
            rw main-start copied,
          )

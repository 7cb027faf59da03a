-- ===== src/Loader/Start/Region.antt =====
-- What `start` of src/pe/loader/mod.rs leaves alone: memory apart from the image and from the pool,
-- and the statics of src/loadfile2.rs.
use stub.Prelude.{ℕ, ◌+◌, ◌≡◌, refl, ap, sym, ◌∙◌, true, Option, none, some, List, ◌∷◌, arith, ltb}
use stub.Word.{u64_end, usize_end}
use stub.Memory.Laws.{Apart}
use stub.Machine.{Machine, ok, Firmware, Call}
use stub.Pe.Kernel.{Image}
use stub.Loader.Mapping.Whole.{map_sections-IsMapped}
use stub.Loader.Cmdline.{encode_ucs2, encode_content}
use stub.Loader.Start.{prepare, set_cmdline, enter, start}
use stub.Loader.Start.Steps.{protect-SameMemory, GrantsPool, SameImage, set_cmdline-Options}
use stub.Loader.Start.Entry.{CanStart}

-- the statics of LoadFile2
abbrev pub SameFile : Machine → Machine → Type 0
SameFile s t = (t.file_ptr ≡ s.file_ptr) × (t.file_len ≡ s.file_len)

module _ (firmware : Firmware) where
  set_cmdline-SameFile :
      (cmdline : Option (List ℕ)) (s : Machine) → SameFile s (set_cmdline firmware cmdline s).1
  unfolding set_cmdline encode_ucs2 encode_content
  set_cmdline-SameFile none s = (refl, refl)
  set_cmdline-SameFile (some cmdline) s = (ground arith, ground arith)

  module _ (kernel : Image) (cmdline : Option (List ℕ)) (s : Machine) {base : ℕ}
      (can : CanStart firmware kernel cmdline s base) (p n : ℕ) (clear : Apart base kernel.size p n)
      (pool : GrantsPool firmware p n) where
    prepare-Region :
        (m : Machine) × (prepare firmware kernel cmdline s
          ≡ (ok (base + kernel.entry_point_rva), m))
        × SameImage p n s m
        × SameFile s m
    unfolding prepare
    prepare-Region =
        let (a, mapped, is) =
          map_sections-IsMapped firmware kernel s can.kernel_fields can.pages can.fits in
        let (b, protected, same) =
          protect-SameMemory firmware kernel base a can.kernel_fields.headers can.room in
        let c : Machine = record b { calls = Call.set_image base kernel.size ∷ b.calls } in
        let (d, set, _, region) = set_cmdline-Options firmware p n pool c cmdline can.short in
        let (ptr, len) = set_cmdline-SameFile cmdline c in
        let low : ltb base u64_end ≡ true = ground (arith, can.room) in
        let sum : ltb (base + kernel.entry_point_rva) u64_end ≡ true =
          ground (arith, can.room, can.kernel_fields.entry) in
        (
          d,
          rw (mapped, protected, set, low, sum),
          (λ o l. region o l ∙ ap (λ m. m (p + o)) same.memory ∙ is.outside (p + o) (ground arith)),
          (
            ap (λ (r : _ × Machine). r.1.file_ptr) (sym set) ∙ ptr ∙ same.file_ptr ∙ is.file_ptr,
            ap (λ (r : _ × Machine). r.1.file_len) (sym set) ∙ len ∙ same.file_len ∙ is.file_len,
          ),
        )

    pub start-Region :
        (image_handle : ℕ)
        → let t = (start firmware kernel cmdline image_handle s).1 in
          SameImage p n s t × SameFile s t
    unfolding start enter
    start-Region image_handle =
        let (m, prepared, region, file) = prepare-Region in
        let fits : ltb (base + kernel.entry_point_rva) usize_end ≡ true =
          ground (arith, can.room, can.kernel_fields.entry) in
        rw (prepared, fits) (region, file)

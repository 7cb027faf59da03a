-- ===== src/Boot/Loading.antt =====
-- start of src/pe/loader/mod.rs up to the jump: it enters no kernel and hands control back.
use stub.Prelude.{ℕ, ◌≡◌, refl, Option, none, some, List, [], ◌∷◌, arith, ◌==◌}
use stub.Word.{u64_end, usize_end, fit, checked_add}
use stub.Machine.{Machine, Firmware, Error, Call, ask}
use stub.Pe.Kernel.{Image, SectionHeader}
use stub.Loader.Protocol.{locate_raw}
use stub.Loader.Mapping.{
  page_count, copy_section_data, zero_section_tail, map_section, map_each, map_sections,
}
use stub.Loader.Protection.{locate, protect_range, protect_section, protect_each, apply}
use stub.Loader.Cmdline.{encode_ucs2, encode_content}
use stub.Loader.Start.{protect_at, protect, set_cmdline, prepare}
use stub.Tpm2.Measures.{extends}
use stub.Boot.Steps.{boot, entered, Tame, bind-Tame, if-Tame, pure-Tame, context-Tame}

copy_section_data-Tame :
    (kernel : Image) (section : SectionHeader) (base raw_offset dest_offset copy_size : ℕ)
    → Tame boot (copy_section_data kernel section base raw_offset dest_offset copy_size)
unfolding copy_section_data
copy_section_data-Tame kernel section base raw_offset dest_offset copy_size s = record {
  calls = ground arith;
  stays = λ t. ground arith;
}

zero_section_tail-Tame :
    (base dest_offset virt_size copy_size : ℕ)
    → Tame boot (zero_section_tail base dest_offset virt_size copy_size)
unfolding zero_section_tail
zero_section_tail-Tame base dest_offset virt_size copy_size s = record {
  calls = ground arith;
  stays = λ t. ground arith;
}

map_section-Tame :
    (kernel : Image) (size base : ℕ) (section : SectionHeader)
    → Tame boot (map_section kernel size base section)
unfolding map_section copy_section_data zero_section_tail
map_section-Tame kernel size base section s = record {
  calls = ground arith;
  stays = λ t. ground arith;
}

map_each-Tame :
    (kernel : Image) (size base : ℕ) (sections : List SectionHeader)
    → Tame boot (map_each kernel size base sections)
unfolding map_each
map_each-Tame kernel size base [] = pure-Tame tt
map_each-Tame kernel size base (section ∷ rest) =
    bind-Tame _ _ (map_section-Tame kernel size base section)
      (λ _. map_each-Tame kernel size base rest)

-- a call that is no jump into a kernel
ask-Tame :
    {A : Type 0} (c : Call) (reply : Machine → A)
    → ((rest : List Call) → boot (c ∷ rest) ≡ boot rest)
    → Tame boot (ask c reply)
ask-Tame c reply same s = record { calls = same s.calls; stays = λ t e. cc }

module _ (firmware : Firmware) where
  map_sections-Tame : (kernel : Image) → Tame boot (map_sections firmware kernel)
  unfolding map_sections entered extends
  map_sections-Tame kernel =
      bind-Tame _ _ (context-Tame (fit usize_end kernel.size) Error.image_size_exceeds_usize)
        λ size.
          bind-Tame _ _
            (ask-Tame (Call.allocate_pages (page_count size))
              (λ s. firmware.allocate_pages s (page_count size)) (λ rest. refl))
            λ reply. bind-Tame _ _ (context-Tame reply Error.pages_unavailable) λ base.
              bind-Tame _ _ (map_each-Tame kernel size base kernel.sections) λ _. pure-Tame base

  protect_range-Tame : (proto at len : ℕ) → Tame boot (protect_range firmware proto at len)
  unfolding protect_range entered extends
  protect_range-Tame proto at len s = record { calls = ground arith; stays = λ t. ground arith }

  protect_section-Tame :
      (proto base : ℕ) (kernel : Image) (section : SectionHeader)
      → Tame boot (protect_section firmware proto base kernel section)
  unfolding protect_section protect_range entered extends
  protect_section-Tame proto base kernel section s = record {
    calls = ground arith;
    stays = λ t. ground arith;
  }

  protect_each-Tame :
      (proto base : ℕ) (kernel : Image) (sections : List SectionHeader)
      → Tame boot (protect_each firmware proto base kernel sections)
  unfolding protect_each
  protect_each-Tame proto base kernel [] = pure-Tame tt
  protect_each-Tame proto base kernel (section ∷ rest) =
      bind-Tame _ _ (protect_section-Tame proto base kernel section)
        (λ _. protect_each-Tame proto base kernel rest)

  locate-Tame : Tame boot (locate firmware)
  unfolding locate locate_raw entered extends
  locate-Tame s = record { calls = ground arith; stays = λ t. ground arith }

  protect_at-Tame :
      (proto : Option ℕ) (base : ℕ) (kernel : Image)
      → Tame boot (protect_at firmware proto base kernel)
  unfolding protect_at apply
  protect_at-Tame none base kernel = pure-Tame tt
  protect_at-Tame (some proto) base kernel = protect_each-Tame proto base kernel kernel.sections

  protect-Tame : (base : ℕ) (kernel : Image) → Tame boot (protect firmware base kernel)
  unfolding protect
  protect-Tame base kernel =
      if-Tame kernel.nx_compat _ _
        (bind-Tame _ _ locate-Tame (λ proto. protect_at-Tame proto base kernel)) (pure-Tame tt)

  encode_ucs2-Tame : (cmdline : List ℕ) → Tame boot (encode_ucs2 firmware cmdline)
  unfolding encode_ucs2 encode_content entered extends
  encode_ucs2-Tame cmdline s = record { calls = ground arith; stays = λ t. ground arith }

  set_cmdline-Tame : (cmdline : Option (List ℕ)) → Tame boot (set_cmdline firmware cmdline)
  unfolding set_cmdline entered extends
  set_cmdline-Tame none = pure-Tame tt
  set_cmdline-Tame (some cmdline) = bind-Tame _ _ (encode_ucs2-Tame cmdline) λ (ptr, size).
      if-Tame (ptr == 0) _ _ (pure-Tame tt)
        (ask-Tame (Call.set_load_options ptr size) (λ s. tt) (λ rest. refl))

  pub prepare-Tame :
      (kernel : Image) (cmdline : Option (List ℕ)) → Tame boot (prepare firmware kernel cmdline)
  unfolding prepare entered extends
  prepare-Tame kernel cmdline = bind-Tame _ _ (map_sections-Tame kernel) λ base.
      bind-Tame _ _ (protect-Tame base kernel) λ _.
        bind-Tame _ _ (ask-Tame (Call.set_image base kernel.size) (λ s. tt) (λ rest. refl)) λ _.
          bind-Tame _ _ (set_cmdline-Tame cmdline) λ _.
            bind-Tame _ _ (context-Tame (fit u64_end base) Error.base_exceeds_u64) λ base_addr.
              context-Tame (checked_add base_addr kernel.entry_point_rva) Error.entry_overflow

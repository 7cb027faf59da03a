-- ===== src/Loader/Protection/Inside.antt =====
-- The ranges that `apply` of src/pe/loader/protection.rs names to the firmware, against the pages
-- that src/pe/loader/mapping.rs has allocated.
use stub.Prelude.{
  ℕ, ◌+◌, ◌*◌, ◌%◌, ◌≤◌, ◌≡◌, refl, ap, sym, ◌∙◌, List, [], ◌∷◌, ◌++◌, arith, All, All-append,
  append_assoc,
}
use stub.Word.{u32_end, u64_end}
use stub.Machine.{Machine, Firmware, ok, Call}
use stub.Pe.Kernel.{Image, SectionHeader}
use stub.Loader.Mapping.{page_count}
use stub.Loader.Mapping.Section.{IsHeader, dest_offset, Fits}
use stub.Loader.Protection.{efi_memory_ro, efi_memory_xp, apply}
use stub.Loader.Protection.Ranges.{page_bytes}
use stub.Loader.Protection.Blocks.{Range, Sweep, apply-Sweep}

-- A request for the attributes of whole pages among the `n` bytes from `base`.
abbrev pub InPages : ℕ → ℕ → ℕ → ℕ → Type 0
InPages base n at len = (base ≤ at) × (at + len ≤ base + n) × (at % 0x1000 ≡ 0) × (len % 0x1000 ≡ 0)

pub data Inside (base n : ℕ) : Call → Type 0 where
  set :
      {proto at len attributes : ℕ}
      → InPages base n at len
      → Inside base n (Call.set_memory_attributes proto at len attributes)
  clear :
      {proto at len attributes : ℕ}
      → InPages base n at len
      → Inside base n (Call.clear_memory_attributes proto at len attributes)

-- The section fits and starts at a page of the image.
abbrev pub Placed : Image → SectionHeader → Type 0
Placed kernel section = Fits kernel section × (dest_offset kernel section % 0x1000 ≡ 0)

Placed-InPages :
    (kernel : Image) (base : ℕ) (section : SectionHeader)
    → base % 0x1000 ≡ 0
    → Placed kernel section
    → InPages base
        (page_count kernel.size * 0x1000)
        (base + dest_offset kernel section)
        (page_bytes section)
Placed-InPages kernel base section page (fits, aligned) =
    (omega arith, omega (arith, fits.inside, aligned), omega (arith, page, aligned), omega arith)

module _ (firmware : Firmware) (proto : ℕ) (kernel : Image) (base : ℕ) where
  -- calls that were made between two machines, all of them inside the pages
  abbrev Made : Machine → Machine → Type 0
  Made s t =
      (calls : List Call) × (t.calls ≡ calls ++ s.calls)
      × All (Inside base (page_count kernel.size * 0x1000)) calls

  Range-Made :
      (at len : ℕ) (s t : Machine)
      → InPages base (page_count kernel.size * 0x1000) at len
      → Range firmware proto at len s t
      → Made s t
  Range-Made at len s t h (Range.refused _ e) = (
    Call.set_memory_attributes proto at len efi_memory_ro ∷ [],
    ap (λ (m : Machine). m.calls) e,
    (Inside.set h, tt),
  )
  Range-Made at len s t h (Range.protected _ _ e) = (
    Call.clear_memory_attributes proto at len efi_memory_xp
        ∷ Call.set_memory_attributes proto at len efi_memory_ro
        ∷ [],
    ap (λ (m : Machine). m.calls) e,
    (Inside.clear h, (Inside.set h, tt)),
  )
  Range-Made at len s t h (Range.rolled_back _ _ e) = (
    Call.clear_memory_attributes proto at len efi_memory_ro
        ∷ Call.clear_memory_attributes proto at len efi_memory_xp
        ∷ Call.set_memory_attributes proto at len efi_memory_ro
        ∷ [],
    ap (λ (m : Machine). m.calls) e,
    (Inside.clear h, (Inside.clear h, (Inside.set h, tt))),
  )

  Sweep-Made :
      {sections : List SectionHeader} {s t : Machine}
      → base % 0x1000 ≡ 0
      → All (Placed kernel) sections
      → Sweep firmware proto kernel base sections s t
      → Made s t
  Sweep-Made page placed Sweep.done = ([], refl, tt)
  Sweep-Made page placed (Sweep.other plain sweep) = Sweep-Made page placed.1 sweep
  Sweep-Made page placed (Sweep.code {section} {s} {t = u} code range sweep) =
      let (first, e, inside) =
        Range-Made _ _ s u (Placed-InPages kernel base section page placed.0) range in
      let (later, e', inside') = Sweep-Made page placed.1 sweep in
      (
        later ++ first,
        e' ∙ ap (λ cs. later ++ cs) e ∙ sym (append_assoc later first s.calls),
        All-append (Inside base (page_count kernel.size * 0x1000)) later first inside' inside,
      )

  -- If the section headers are u32, a u32 offset from the base stays below 2 ^ 64, the base is the
  -- address of a page, and every section fits and starts at a whole page of the image, then all
  -- calls that apply makes ask for attributes of whole pages, from the start of a page on, within
  -- those that map_sections has allocated.
  pub apply-Inside :
      (s : Machine)
      → All IsHeader kernel.sections
      → base + u32_end ≤ u64_end
      → base % 0x1000 ≡ 0
      → All (Placed kernel) kernel.sections
      → (t : Machine) × (calls : List Call) × (apply firmware proto base kernel s ≡ (ok tt, t))
        × (t.calls ≡ calls ++ s.calls)
        × All (Inside base (page_count kernel.size * 0x1000)) calls
  apply-Inside s headers room page placed =
      let (t, goes, sweep) = apply-Sweep firmware proto kernel base s headers room in
      let (calls, e, inside) = Sweep-Made page placed sweep in (t, calls, goes, e, inside)

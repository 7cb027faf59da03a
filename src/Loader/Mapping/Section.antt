-- ===== src/Loader/Mapping/Section.antt =====
-- One section: when `map_section` of src/pe/loader/mapping.rs places it, and what the memory is
-- afterwards.
use stub.Prelude.{
  ℕ, ◌+◌, ◌-◌, ◌≤◌, ◌<◌, ◌≡◌, ◌⊎◌, inl, inr, ap, arith, leb, ◌==◌, if◌then◌else◌, min, length, take,
  drop,
}
use stub.Word.{u32_end, u64_end, wrapping_add}
use stub.Memory.{Memory, write, fill}
use stub.Machine.{Machine, ok, err, Error}
use stub.Pe.Kernel.{Image, SectionHeader}
use stub.Loader.Mapping.{copy_section_data, zero_section_tail, map_section}

-- The fields of a section header are u32.
pub record IsHeader (section : SectionHeader) : Type 0 where
  pub virtual_size : section.virtual_size < u32_end
  pub virtual_address : section.virtual_address < u32_end
  pub raw_size : section.size_of_raw_data < u32_end
  pub raw_offset : section.pointer_to_raw_data < u32_end

abbrev pub copy_size : SectionHeader → ℕ
copy_size section = min section.size_of_raw_data section.virtual_size

abbrev pub dest_offset : Image → SectionHeader → ℕ
dest_offset kernel section = section.virtual_address - kernel.base_address

-- The section lies inside the image, and the data that it takes from the file is there.
pub record Fits (kernel : Image) (section : SectionHeader) : Type 0 where
  pub above : kernel.base_address ≤ section.virtual_address
  pub inside : dest_offset kernel section + section.virtual_size ≤ kernel.size
  pub backed :
      (copy_size section ≡ 0)
      ⊎ (section.pointer_to_raw_data + copy_size section ≤ length kernel.bytes)

-- the memory after the copy, and after the zeros behind it
abbrev pub copied : Image → ℕ → ℕ → ℕ → ℕ → Memory → Memory
copied kernel base raw_offset at n m =
    if n == 0 then m else write (wrapping_add base at) (take n (drop raw_offset kernel.bytes)) m

abbrev pub zeroed : ℕ → ℕ → ℕ → ℕ → Memory → Memory
zeroed base at virt_size n m =
    if leb virt_size n then m else fill (wrapping_add base (at + n)) 0 (virt_size - n) m

-- the memory with the section's data copied and the rest of it zeroed
abbrev pub placed : Image → ℕ → SectionHeader → Memory → Memory
placed kernel base section m =
    let n = copy_size section in
    let at = dest_offset kernel section in
    zeroed base at section.virtual_size n (copied kernel base section.pointer_to_raw_data at n m)

copy_section_data-backed :
    (kernel : Image) (section : SectionHeader) (base raw_offset at n : ℕ) (s : Machine)
    → raw_offset < u32_end
    → n < u32_end
    → (n ≡ 0) ⊎ (raw_offset + n ≤ length kernel.bytes)
    → copy_section_data kernel section base raw_offset at n s
      ≡ (ok tt, record s { memory = copied kernel base raw_offset at n s.memory })
unfolding copy_section_data
copy_section_data-backed kernel section base raw_offset at n s hr hn (inl none_left) = rw none_left
copy_section_data-backed kernel section base raw_offset at n s hr hn (inr backed) =
    let same : raw_offset + n - raw_offset ≡ n = omega arith in
    ground (arith, ap (λ k. take k (drop raw_offset kernel.bytes)) same)

zero_section_tail-inside :
    (base at virt_size n : ℕ) (s : Machine)
    → at + n < u64_end
    → zero_section_tail base at virt_size n s
      ≡ (ok tt, record s { memory = zeroed base at virt_size n s.memory })
unfolding zero_section_tail
zero_section_tail-inside base at virt_size n s h = ground arith

module _ (kernel : Image) (base : ℕ) (section : SectionHeader) (s : Machine)
    (header : IsHeader section) where
  -- A section that fits is placed.
  pub map_section-Fits :
      Fits kernel section
      → map_section kernel kernel.size base section s
        ≡ (ok tt, record s { memory = placed kernel base section s.memory })
  unfolding map_section
  map_section-Fits fits =
      let n = copy_size section in
      let at = dest_offset kernel section in
      let m = copied kernel base section.pointer_to_raw_data at n s.memory in
      ground (
        arith,
        copy_section_data-backed kernel section base section.pointer_to_raw_data at n s
            header.raw_offset (omega arith) fits.backed,
        zero_section_tail-inside base at section.virtual_size n (record s { memory = m })
            (omega arith),
      )

  -- A section that is placed fits.
  pub Fits-map_section :
      {s' : Machine}
      → map_section kernel kernel.size base section s ≡ (ok tt, s')
      → Fits kernel section
  unfolding map_section copy_section_data zero_section_tail
  Fits-map_section e = ground arith

  -- A section that fails leaves the machine as it was.
  pub map_section-err :
      {e : Error} {s' : Machine}
      → map_section kernel kernel.size base section s ≡ (err e, s')
      → s' ≡ s
  unfolding map_section copy_section_data zero_section_tail
  map_section-err e = ground arith

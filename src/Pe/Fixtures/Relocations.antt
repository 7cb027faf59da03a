-- ===== src/Pe/Fixtures/Relocations.antt =====
-- What `set_last_ptr_relocs` of src/pe/fixtures.rs makes of the section table.
use stub.Prelude.{◌-◌, ℕ, ◌+◌, ◌*◌, ◌≤◌, ◌<◌, ◌≡◌, refl, ap, sym, ◌∙◌, List, [], ◌∷◌, arith, length}
use stub.Word.{u32_end, to_le, from_le, from_le-four, length-to_le}
use stub.Memory.{Memory, read, write}
use stub.Memory.Laws.{write-Outside}
use stub.Pe.Kernel.{SectionHeader, NtHeaders}
use stub.Pe.Format.{le_at, sizes_at, headers_at, section_at, sections_at}
use stub.Pe.Fixtures.Edits.{relocate_last}
use stub.Pe.Fixtures.Holds.{Fixed, Holds}
use stub.Pe.Fixtures.Table.{header_of}

-- `set_last_ptr_relocs` sets one field of the last entry.
module _ (h : NtHeaders) (m : Memory) (ptr : ℕ) (small : ptr < u32_end) where
  relocs_zeros :
      (ss : List SectionHeader) (at a : ℕ)
      → Holds m (record { headers = h; sections = ss })
      → at + 4 ≤ 0x148 + 40 * length ss
      → 0x148 + 40 * length ss ≤ a
      → a < 0x200
      → write at (to_le 4 ptr) m a ≡ 0
  relocs_zeros ss at a is inside l u =
      write-Outside at (to_le 4 ptr) m a (ground (arith, length-to_le 4 ptr)) ∙ is.zeros a l u

  relocs-Holds :
      (ss : List SectionHeader) (at : ℕ)
      → at + 4 ≤ 0x148 + 40 * length ss
      → Holds m (record { headers = h; sections = ss })
      → length (relocate_last ptr ss) ≡ length ss
      → (let m' = write at (to_le 4 ptr) m in
          Fixed m'
          × (le_at 2 m' 0x46 ≡ le_at 2 m 0x46)
          × (headers_at m' 0x40 16 ≡ headers_at m 0x40 16)
          × (sections_at m' 0x148 (length ss)
              ≡ relocate_last (from_le (to_le 4 ptr)) (sections_at m 0x148 (length ss))))
      → Holds (write at (to_le 4 ptr) m) (record { headers = h; sections = relocate_last ptr ss })
  relocs-Holds ss at inside is same (fixed, count, headers, table) = record {
    fixed = fixed;
    room = omega (arith, same, is.room);
    count = count ∙ is.count ∙ sym same;
    headers = headers ∙ is.headers;
    table =
        ap (sections_at (write at (to_le 4 ptr) m) 0x148) same
        ∙ table
        ∙ ap (λ p. relocate_last p (sections_at m 0x148 (length ss))) (from_le-four ptr small)
        ∙ ap (relocate_last ptr) is.table;
    zeros = λ a l u. relocs_zeros ss at a is inside (omega (arith, same)) u;
  }

  pub last_ptr_relocs-Holds :
      (ss : List SectionHeader)
      → Holds m (record { headers = h; sections = ss })
      → 0 < length ss
      → Holds
          (write (header_of (length ss - 1) + 24) (to_le 4 ptr) m)
          (record { headers = h; sections = relocate_last ptr ss })
  unfolding le_at read write to_le from_le headers_at sizes_at sections_at section_at
  last_ptr_relocs-Holds [] is some_section = absurd (omega arith)
  last_ptr_relocs-Holds (a ∷ []) is some_section =
      relocs-Holds (a ∷ []) 0x160 (omega arith) is refl (is.fixed, refl, refl, refl)
  last_ptr_relocs-Holds (a ∷ b ∷ []) is some_section =
      relocs-Holds (a ∷ b ∷ []) 0x188 (omega arith) is refl (is.fixed, refl, refl, refl)
  last_ptr_relocs-Holds (a ∷ b ∷ c ∷ []) is some_section =
      relocs-Holds (a ∷ b ∷ c ∷ []) 0x1b0 (omega arith) is refl (is.fixed, refl, refl, refl)
  last_ptr_relocs-Holds (a ∷ b ∷ c ∷ d ∷ []) is some_section =
      relocs-Holds (a ∷ b ∷ c ∷ d ∷ []) 0x1d8 (omega arith) is refl (is.fixed, refl, refl, refl)
  last_ptr_relocs-Holds (a ∷ b ∷ c ∷ d ∷ x ∷ ss) is some_section = absurd (omega (arith, is.room))

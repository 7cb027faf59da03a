-- ===== src/Pe/Fixtures/Holds.antt =====
-- When a memory holds the fields of an image, and what single writes make of that.
use stub.Prelude.{
  ℕ, zero, suc, ◌+◌, ◌*◌, ◌≤◌, ◌<◌, ◌≡◌, refl, ap, ◌∙◌, List, [], ◌∷◌, arith, length,
}
use stub.Word.{u16_end, u32_end, to_le, from_le, from_le-two, from_le-four}
use stub.Memory.{Memory, read, write}
use stub.Memory.Laws.{read-same, write-Outside}
use stub.Pe.Kernel.{NtHeaders}
use stub.Pe.Format.{le_at, sizes_at, headers_at, section_at, sections_at}
use stub.Pe.Fixtures.Edits.{Fields, set_nth}

-- the bytes that no edit changes
abbrev pub Fixed : Memory → Type 0
Fixed m =
    (read m 0 2 ≡ b'M' ∷ b'Z' ∷ [])
    × (le_at 4 m 0x3c ≡ 0x40)
    × (read m 0x40 4 ≡ b'P' ∷ b'E' ∷ 0 ∷ 0 ∷ [])
    × (le_at 2 m 0x54 ≡ 0xf0)
    × (le_at 2 m 0x58 ≡ 0x20b)
    × (le_at 4 m 0xc4 ≡ 16)

-- The memory holds these fields, and zeros in the rest of the section table.
pub record Holds (m : Memory) (f : Fields) : Type 0 where
  pub fixed : Fixed m
  pub room : length f.sections ≤ 4
  pub count : le_at 2 m 0x46 ≡ length f.sections
  pub headers : headers_at m 0x40 16 ≡ f.headers
  pub table : sections_at m 0x148 (length f.sections) ≡ f.sections
  pub zeros : (a : ℕ) → 0x148 + 40 * length f.sections ≤ a → a < 0x200 → m a ≡ 0

le_at-same :
    (k : ℕ) (m m' : Memory) (p : ℕ) → ((a : ℕ) → p ≤ a → m' a ≡ m a) → le_at k m' p ≡ le_at k m p
unfolding le_at
le_at-same k m m' p h = ap from_le (read-same m m' p k (λ i l. h (p + i) (omega arith)))

pub sections_at-same :
    (m m' : Memory) (p n : ℕ)
    → ((a : ℕ) → p ≤ a → m' a ≡ m a)
    → sections_at m' p n ≡ sections_at m p n
unfolding sections_at section_at
sections_at-same m m' p zero h = refl
sections_at-same m m' p (suc n) h =
    let at = λ (k d : ℕ). le_at-same k m m' (p + d) (λ a l. h a (omega arith)) in
    rw (
      read-same m m' p 8 (λ i l. h (p + i) (omega arith)),
      at 4 8,
      at 4 12,
      at 4 16,
      at 4 20,
      at 4 24,
      at 4 36,
      sections_at-same m m' (p + 40) n (λ a l. h a (omega arith)),
    )

module _ (m : Memory) (f : Fields) (is : Holds m f) (p : ℕ) (bs : List ℕ)
    (before : p + length bs ≤ 0x148) where
  behind : (a : ℕ) → 0x148 ≤ a → write p bs m a ≡ m a
  behind a l = write-Outside p bs m a (ground arith)

  -- A write before the section table leaves the table and what is behind it.
  pub table_kept : sections_at (write p bs m) 0x148 (length f.sections) ≡ f.sections
  table_kept = sections_at-same m (write p bs m) 0x148 (length f.sections) behind ∙ is.table

  pub zeros_kept : (a : ℕ) → 0x148 + 40 * length f.sections ≤ a → a < 0x200 → write p bs m a ≡ 0
  zeros_kept a l h = behind a (omega arith) ∙ is.zeros a l h

module _ (m : Memory) (f : Fields) (is : Holds m f) where
  pub machine-Holds :
      (v : ℕ)
      → v < u16_end
      → Holds (write 0x44 (to_le 2 v) m) (record f { headers = record f.headers { machine = v } })
  unfolding le_at read write to_le headers_at sizes_at
  machine-Holds v h = record {
    fixed = is.fixed;
    room = is.room;
    count = is.count;
    headers =
        ap (λ k. record (headers_at m 0x40 16) { machine = k }) (from_le-two v h)
        ∙ ap (λ (g : NtHeaders). record g { machine = v }) is.headers;
    table = table_kept m f is 0x44 (to_le 2 v) (omega arith);
    zeros = zeros_kept m f is 0x44 (to_le 2 v) (omega arith);
  }

  pub entry_point-Holds :
      (v : ℕ)
      → v < u32_end
      → Holds
          (write 0x68 (to_le 4 v) m)
          (record f { headers = record f.headers { address_of_entry_point = v } })
  unfolding le_at read write to_le headers_at sizes_at
  entry_point-Holds v h = record {
    fixed = is.fixed;
    room = is.room;
    count = is.count;
    headers =
        ap (λ k. record (headers_at m 0x40 16) { address_of_entry_point = k }) (from_le-four v h)
        ∙ ap (λ (g : NtHeaders). record g { address_of_entry_point = v }) is.headers;
    table = table_kept m f is 0x68 (to_le 4 v) (omega arith);
    zeros = zeros_kept m f is 0x68 (to_le 4 v) (omega arith);
  }

  pub major_image_version-Holds :
      (v : ℕ)
      → v < u16_end
      → Holds
          (write 0x84 (to_le 2 v) m)
          (record f { headers = record f.headers { major_image_version = v } })
  unfolding le_at read write to_le headers_at sizes_at
  major_image_version-Holds v h = record {
    fixed = is.fixed;
    room = is.room;
    count = is.count;
    headers =
        ap (λ k. record (headers_at m 0x40 16) { major_image_version = k }) (from_le-two v h)
        ∙ ap (λ (g : NtHeaders). record g { major_image_version = v }) is.headers;
    table = table_kept m f is 0x84 (to_le 2 v) (omega arith);
    zeros = zeros_kept m f is 0x84 (to_le 2 v) (omega arith);
  }

  pub dll_characteristics-Holds :
      (v : ℕ)
      → v < u16_end
      → Holds
          (write 0x9e (to_le 2 v) m)
          (record f { headers = record f.headers { dll_characteristics = v } })
  unfolding le_at read write to_le headers_at sizes_at
  dll_characteristics-Holds v h = record {
    fixed = is.fixed;
    room = is.room;
    count = is.count;
    headers =
        ap (λ k. record (headers_at m 0x40 16) { dll_characteristics = k }) (from_le-two v h)
        ∙ ap (λ (g : NtHeaders). record g { dll_characteristics = v }) is.headers;
    table = table_kept m f is 0x9e (to_le 2 v) (omega arith);
    zeros = zeros_kept m f is 0x9e (to_le 2 v) (omega arith);
  }

  pub base_reloc_dir-Holds :
      (vaddr size : ℕ)
      → size < u32_end
      → Holds (write 0xf4 (to_le 4 size) (write 0xf0 (to_le 4 vaddr) m)) (record f {
        headers = record f.headers { directory_sizes = set_nth 5 size f.headers.directory_sizes };
      })
  unfolding le_at read write to_le headers_at sizes_at
  base_reloc_dir-Holds vaddr size h =
      let m' : Memory = write 0xf0 (to_le 4 vaddr) m in
      let with_size : ℕ → NtHeaders → NtHeaders =
        λ k g. record g { directory_sizes = set_nth 5 k g.directory_sizes } in
      record {
        fixed = is.fixed;
        room = is.room;
        count = is.count;
        headers =
            ap (λ k. with_size k (headers_at m 0x40 16)) (from_le-four size h)
            ∙ ap (with_size size) is.headers;
        table =
            sections_at-same m (write 0xf4 (to_le 4 size) m') 0x148 (length f.sections)
              (both vaddr size)
            ∙ is.table;
        zeros = λ a l u. both vaddr size a (omega arith) ∙ is.zeros a l u;
      }
    where
      both :
          (vaddr size a : ℕ)
          → 0x148 ≤ a
          → write 0xf4 (to_le 4 size) (write 0xf0 (to_le 4 vaddr) m) a ≡ m a
      both vaddr size a l =
          write-Outside 0xf4 (to_le 4 size) (write 0xf0 (to_le 4 vaddr) m) a (ground arith)
          ∙ write-Outside 0xf0 (to_le 4 vaddr) m a (ground arith)

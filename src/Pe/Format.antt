-- ===== src/Pe/Format.antt =====
-- The PE32+ format, as far as src/pe/kernel.rs and src/pe/fixtures.rs go: where the fields stand
-- that the stub reads, and what is relied on of the object crate, which reads them.
use stub.Prelude.{ℕ, zero, suc, ◌+◌, ◌*◌, ◌≤◌, ◌≡◌, some, List, [], ◌∷◌, length, get_or}
use stub.Word.{from_le}
use stub.Memory.{Memory, read}
use stub.Pe.Kernel.{SectionHeader, NtHeaders, PeReader}

abbrev pub bytes_of : List ℕ → Memory
bytes_of bs a = get_or bs a 0

-- the little-endian number in the `k` bytes at `p`
unfoldable pub le_at : ℕ → Memory → ℕ → ℕ
le_at k m p = from_le (read m p k)

-- the sizes of `n` data directories from `p`
unfoldable pub sizes_at : Memory → ℕ → ℕ → List ℕ
sizes_at m p zero = []
sizes_at m p (suc n) = le_at 4 m (p + 4) ∷ sizes_at m (p + 8) n

-- the fields of the NT headers at `p` with `n` data directories
unfoldable pub headers_at : Memory → ℕ → ℕ → NtHeaders
headers_at m p n = record {
  machine = le_at 2 m (p + 4);
  address_of_entry_point = le_at 4 m (p + 40);
  image_base = le_at 8 m (p + 48);
  size_of_image = le_at 4 m (p + 80);
  major_image_version = le_at 2 m (p + 68);
  dll_characteristics = le_at 2 m (p + 94);
  directory_sizes = sizes_at m (p + 136) n;
}

unfoldable pub section_at : Memory → ℕ → SectionHeader
section_at m p = record {
  name = read m p 8;
  virtual_size = le_at 4 m (p + 8);
  virtual_address = le_at 4 m (p + 12);
  size_of_raw_data = le_at 4 m (p + 16);
  pointer_to_raw_data = le_at 4 m (p + 20);
  pointer_to_relocations = le_at 4 m (p + 24);
  characteristics = le_at 4 m (p + 36);
}

-- the section table at `p` with `n` entries
unfoldable pub sections_at : Memory → ℕ → ℕ → List SectionHeader
sections_at m p zero = []
sections_at m p (suc n) = section_at m p ∷ sections_at m (p + 40) n

-- A DOS header, and NT headers at `p` with a 64-bit optional header and `n` data directories.
pub record IsDos (bytes : List ℕ) : Type 0 where
  pub long : 64 ≤ length bytes
  pub magic : read (bytes_of bytes) 0 2 ≡ b'M' ∷ b'Z' ∷ []

pub record IsNt (bytes : List ℕ) (p n : ℕ) : Type 0 where
  pub signature : read (bytes_of bytes) p 4 ≡ b'P' ∷ b'E' ∷ 0 ∷ 0 ∷ []
  pub magic : le_at 2 (bytes_of bytes) (p + 24) ≡ 0x20b
  pub directories : le_at 4 (bytes_of bytes) (p + 132) ≡ n
  pub optional_size : 112 + 8 * n ≤ le_at 2 (bytes_of bytes) (p + 20)
  pub long : p + 24 + le_at 2 (bytes_of bytes) (p + 20) ≤ length bytes

-- What the stub relies on of the object crate: headers that are there are found where the format
-- puts them.
pub record ReadsPe (reader : PeReader) : Type 0 where
  pub dos :
      (bytes : List ℕ)
      → IsDos bytes
      → reader.nt_headers_offset bytes ≡ some (le_at 4 (bytes_of bytes) 0x3c)
  pub nt :
      (bytes : List ℕ) (p n : ℕ)
      → IsNt bytes p n
      → reader.nt_headers bytes p
        ≡ some (headers_at (bytes_of bytes) p n, p + 24 + le_at 2 (bytes_of bytes) (p + 20))
  pub table :
      (bytes : List ℕ) (p at : ℕ) (h : NtHeaders)
      → reader.nt_headers_offset bytes ≡ some p
      → reader.nt_headers bytes p ≡ some (h, at)
      → at + 40 * le_at 2 (bytes_of bytes) (p + 6) ≤ length bytes
      → reader.section_table bytes h at
        ≡ some (sections_at (bytes_of bytes) at (le_at 2 (bytes_of bytes) (p + 6)))

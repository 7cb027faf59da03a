-- ===== src/Pe/Fixtures/Tests.antt =====
-- A reader of the PE32+ format, and the theorems on the images of src/pe/fixtures.rs.
use stub.Prelude.{
  ℕ, ◌+◌, ◌*◌, ◌≤◌, ◌≡◌, refl, ◌∙◌, true, ◌&&◌, some, none, List, [], ◌∷◌, arith, leb, ◌==◌,
  if◌then◌else◌, length, replicate, get_or,
}
use stub.Word.{from_le}
use stub.Memory.{read}
use stub.Machine.{err, Error}
use stub.Machine.Sample.{firmware, start}
use stub.Result.{Result}
use stub.Pe.Kernel.{
  Target, PeReader, Image, NtHeaders, validate, parse, image_of, directory_size, find_relocated,
  refuse_relocated,
}
use stub.Pe.Sample.{text_name}
use stub.Pe.Format.{bytes_of, le_at, headers_at, sections_at, ReadsPe, IsDos, IsNt}
use stub.Pe.Fixtures.{Builder, ◌>>=◌, new}
use stub.Pe.Fixtures.Edits.{Edit, edit_all, initial, apply_edits, AllFitting}
use stub.Pe.Fixtures.Parse.{edit_all-parse}
use stub.Pe.Fixtures.Based.{edit_all-below_image_base}
use stub.Loader.Mapping.{map_sections}

abbrev format_reader : PeReader
format_reader = record {
  nt_headers_offset = λ bytes.
      if leb 64 (length bytes) && (get_or bytes 0 0 == b'M' && get_or bytes 1 0 == b'Z')
      then some (le_at 4 (bytes_of bytes) 0x3c)
      else none;
  nt_headers = λ bytes p.
      let m = bytes_of bytes in
      let n = le_at 4 m (p + 132) in
      let size = le_at 2 m (p + 20) in
      if (le_at 4 m p == 0x4550 && le_at 2 m (p + 24) == 0x20b)
        && (leb (112 + 8 * n) size && leb (p + 24 + size) (length bytes))
      then some (headers_at m p n, p + 24 + size)
      else none;
  section_table = λ bytes h at.
      let m = bytes_of bytes in
      let n = le_at 2 m (le_at 4 m 0x3c + 6) in
      if leb (at + 40 * n) (length bytes) then some (sections_at m at n) else none;
}

format_reader-dos :
    (bytes : List ℕ)
    → IsDos bytes
    → format_reader.nt_headers_offset bytes ≡ some (le_at 4 (bytes_of bytes) 0x3c)
unfolding read
format_reader-dos bytes is = ground (arith, is.long, is.magic)

signature_number :
    (bytes : List ℕ) (p : ℕ)
    → read (bytes_of bytes) p 4 ≡ b'P' ∷ b'E' ∷ 0 ∷ 0 ∷ []
    → le_at 4 (bytes_of bytes) p ≡ 0x4550
unfolding le_at from_le
signature_number bytes p e = rw e

format_reader-nt :
    (bytes : List ℕ) (p n : ℕ)
    → IsNt bytes p n
    → format_reader.nt_headers bytes p
      ≡ some (headers_at (bytes_of bytes) p n, p + 24 + le_at 2 (bytes_of bytes) (p + 20))
format_reader-nt bytes p n is =
    let enough : leb (112 + 8 * n) (le_at 2 (bytes_of bytes) (p + 20)) ≡ true =
      ground (arith, is.optional_size) in
    let inside : leb (p + 24 + le_at 2 (bytes_of bytes) (p + 20)) (length bytes) ≡ true =
      ground (arith, is.long) in
    rw (signature_number bytes p is.signature, is.magic, is.directories, enough, inside)

format_reader-table :
    (bytes : List ℕ) (p at : ℕ) (h : NtHeaders)
    → format_reader.nt_headers_offset bytes ≡ some p
    → at + 40 * le_at 2 (bytes_of bytes) (p + 6) ≤ length bytes
    → format_reader.section_table bytes h at
      ≡ some (sections_at (bytes_of bytes) at (le_at 2 (bytes_of bytes) (p + 6)))
format_reader-table bytes p at h found inside =
    let same : le_at 4 (bytes_of bytes) 0x3c ≡ p = ground (arith, found) in
    let fits : leb (at + 40 * le_at 2 (bytes_of bytes) (p + 6)) (length bytes) ≡ true =
      ground (arith, inside) in
    rw (same, fits)

reads : ReadsPe format_reader
reads = record {
  dos = format_reader-dos;
  nt = format_reader-nt;
  table = λ bytes p at h found headers inside. format_reader-table bytes p at h found inside;
}

-- a section of sixteen zero bytes, and one that is made to have relocations
abbrev happy_path : List Edit
happy_path = Edit.section text_name (replicate 16 0) ∷ []

abbrev section_relocations : List Edit
section_relocations = Edit.section text_name (replicate 16 0) ∷ Edit.last_ptr_relocs 0x500 ∷ []

fitting : AllFitting section_relocations (initial Target.x86_64)
fitting = ((refl, omega arith, omega arith), ((omega arith, omega arith), tt))

edit_all-parse_example :
    (b : Builder) × (new Target.x86_64 >>= edit_all section_relocations ≡ some b)
    × (parse Target.x86_64 format_reader b.bytes
        ≡ validate Target.x86_64 b.bytes
            (apply_edits section_relocations (initial Target.x86_64)).headers
            (apply_edits section_relocations (initial Target.x86_64)).sections)
edit_all-parse_example =
    edit_all-parse Target.x86_64 format_reader section_relocations reads fitting

abbrev happy_image : List ℕ → Image
happy_image bytes =
    let f = apply_edits happy_path (initial Target.x86_64) in image_of bytes f.headers f.sections

accepted :
    (bytes : List ℕ)
    → validate Target.x86_64 bytes
        (apply_edits happy_path (initial Target.x86_64)).headers
        (apply_edits happy_path (initial Target.x86_64)).sections
      ≡ Result.ok (happy_image bytes)
unfolding validate directory_size find_relocated refuse_relocated
accepted bytes = refl

happy_fitting : AllFitting happy_path (initial Target.x86_64)
happy_fitting = ((refl, omega arith, omega arith), tt)

happy :
    (b : Builder) × (new Target.x86_64 >>= edit_all happy_path ≡ some b)
    × (parse Target.x86_64 format_reader b.bytes ≡ Result.ok (happy_image b.bytes))
happy =
    let (b, made, read_back) =
      edit_all-parse Target.x86_64 format_reader happy_path reads happy_fitting in
    (b, made, read_back ∙ accepted b.bytes)

edit_all-below_image_base_example :
    (map_sections firmware (happy_image happy.0.bytes) start).0 ≡ err Error.below_image_base
edit_all-below_image_base_example =
    edit_all-below_image_base Target.x86_64 format_reader happy_path happy.0
      (happy_image happy.0.bytes) firmware start 0x1000_0000 reads happy_fitting (omega arith)
      happy.1 happy.2 refl

-- ===== src/Loader/Cmdline/Tests.antt =====
-- The tests of src/pe/loader/cmdline.rs, and the theorems at a short command line.
use stub.Prelude.{ℕ, ◌≡◌, ◌≢◌, ◌↔◌, refl, ◌<◌, List, [], ◌∷◌, arith}
use stub.Word.{u32_end}
use stub.Memory.{read, write}
use stub.Machine.{Machine, ok}
use stub.Machine.Sample.{firmware, start}
use stub.Bytes.{rposition, is_ascii_whitespace}
use stub.Bytes.Trim.{Trimmed}
use stub.Loader.Cmdline.{strip_trailing_terminators, encode_ucs2, encode_content, fill_chunks}
use stub.Loader.Cmdline.Strip.{is_terminator, strip-Trimmed}
use stub.Loader.Cmdline.Ucs2.{units, before_nul}
use stub.Loader.Cmdline.Encode.{
  IsEncoded, buffer_size, encode_ucs2-IsEncoded, encode_ucs2-before_nul,
}

-- "a\0b \n\0"
abbrev line : List ℕ
line = b'a' ∷ 0 ∷ b'b' ∷ b' ' ∷ 0x0a ∷ 0 ∷ []

abbrev kept : List ℕ
kept = b'a' ∷ 0 ∷ b'b' ∷ []

strip_all : strip_trailing_terminators (b' ' ∷ 0x0a ∷ 0x09 ∷ 0 ∷ []) ≡ []
unfolding strip_trailing_terminators rposition is_ascii_whitespace
strip_all = refl

strip_line : strip_trailing_terminators line ≡ kept
unfolding strip_trailing_terminators rposition is_ascii_whitespace
strip_line = refl

strip-Trimmed_example : (strip_trailing_terminators line ≡ kept) ↔ Trimmed is_terminator line kept
strip-Trimmed_example = strip-Trimmed line kept (omega arith)

line_content : strip_trailing_terminators line ≢ []
line_content = rw strip_line (ground arith)

encode_line :
    read (encode_ucs2 firmware line start).1.memory 0x2000 9
    ≡ b'a' ∷ 0 ∷ 0 ∷ 0 ∷ b'b' ∷ 0 ∷ 0 ∷ 0 ∷ 0xee ∷ []
unfolding encode_ucs2 encode_content strip_trailing_terminators rposition is_ascii_whitespace read
    write fill_chunks
encode_line = refl

small_line : buffer_size (strip_trailing_terminators line) < u32_end
small_line = rw strip_line (omega arith)

encode_ucs2-IsEncoded_example :
    (s' : Machine) × (encode_ucs2 firmware line start
      ≡ (ok (0x2000, buffer_size (strip_trailing_terminators line)), s'))
    × IsEncoded (strip_trailing_terminators line) 0x2000 start s'
encode_ucs2-IsEncoded_example =
    encode_ucs2-IsEncoded firmware line start 0x2000 line_content small_line refl

encode_ucs2-before_nul_example :
    (size : ℕ) × (s' : Machine) × (encode_ucs2 firmware line start ≡ (ok (0x2000, size), s'))
    × (before_nul (units (read s'.memory 0x2000 size))
        ≡ before_nul (strip_trailing_terminators line))
encode_ucs2-before_nul_example =
    encode_ucs2-before_nul firmware line start 0x2000 line_content small_line refl

-- ===== src/Vars/Scenarios.antt =====
-- The tests of src/vars/mod.rs and src/vars/firmware.rs, each with what it asserts, by the name
-- that it has there.
use stub.Prelude.{ℕ, ◌≡◌, refl, Option, some, none, List, [], ◌∷◌, ◌++◌, zero, suc, length}
use stub.Word.{to_le}
use stub.Vars.{encode_utf16, unit_bytes, utf16_bytes, digits, format_info}

-- SAMPLE, "6b1f2d44"
abbrev sample : List ℕ
sample = b'6' ∷ b'b' ∷ b'1' ∷ b'f' ∷ b'2' ∷ b'd' ∷ b'4' ∷ b'4' ∷ []

-- `data.get(i)` and `data.last()`
abbrev get_elem? : List ℕ → ℕ → Option ℕ
get_elem? [] i = none
get_elem? (x ∷ xs) zero = some x
get_elem? (x ∷ xs) (suc i) = get_elem? xs i

abbrev last : List ℕ → Option ℕ
last [] = none
last (x ∷ []) = some x
last (_ ∷ y ∷ ys) = last (y ∷ ys)

-- the loop of the test, over the units of a text
abbrev expected_bytes : List ℕ → List ℕ → List ℕ
expected_bytes expected [] = expected
expected_bytes expected (unit ∷ units) = expected_bytes (expected ++ to_le 2 unit) units

abbrev Utf16BytesEncodeLittleEndianWithoutTerminator : Type 0
Utf16BytesEncodeLittleEndianWithoutTerminator =
    let expected = expected_bytes [] (encode_utf16 sample) in
    let bytes = utf16_bytes sample in
    (length bytes ≡ 16)
    × (get_elem? bytes 0 ≡ some 0x36)
    × (get_elem? bytes 1 ≡ some 0x00)
    × (last bytes ≡ some 0x00)
    × (bytes ≡ expected)

-- "ACME" and "ACME 5.05"
abbrev acme : List ℕ
acme = b'A' ∷ b'C' ∷ b'M' ∷ b'E' ∷ []

abbrev FormatInfoZeroPadsMinorRevision : Type 0
FormatInfoZeroPadsMinorRevision =
    format_info acme 0x0005_0005 ≡ b'A' ∷ b'C' ∷ b'M' ∷ b'E' ∷ b' ' ∷ b'5' ∷ b'.' ∷ b'0' ∷ b'5' ∷ []

-- Both hold.
scenarios : Utf16BytesEncodeLittleEndianWithoutTerminator × FormatInfoZeroPadsMinorRevision
unfolding utf16_bytes encode_utf16 unit_bytes to_le format_info digits
scenarios = ((refl, refl, refl, refl, refl), refl)

-- ===== src/Vars/Utf16.antt =====
-- The texts that src/vars/mod.rs and src/vars/firmware.rs make, and readers of them.
use stub.Prelude.{
  ℕ, zero, suc, ◌+◌, ◌-◌, ◌*◌, ◌/◌, ◌%◌, ◌^◌, ◌≤◌, ◌<◌, ◌≡◌, ◌⊎◌, inl, inr, refl, ap, ◌∙◌, Option,
  none, some, List, [], ◌∷◌, ◌++◌, arith, All, ltb, leb, ◌&&◌, if◌then◌else◌, length, Bool-cases,
  bit_and,
}
use stub.Word.{to_le}
use stub.Bits.{and-0xffff}
use stub.Loader.Cmdline.Ucs2.{units}
use stub.Vars.{encode_utf16, unit_bytes, utf16_bytes, digits, decimal, two_digits, format_info}

-- A Unicode scalar value: no surrogate, and at most 0x10FFFF.
abbrev pub IsScalar : ℕ → Type 0
IsScalar c = (c < 0xd800) ⊎ ((0xe000 ≤ c) × (c < 0x11_0000))

-- A reader of UTF-16: a high surrogate waits for the low one.
unfoldable pub decode_utf16 : Option ℕ → List ℕ → List ℕ
decode_utf16 h [] = []
decode_utf16 none (u ∷ us) =
    let text = decode_utf16 none us in
    let pair = decode_utf16 (some u) us in if leb 0xd800 u && ltb u 0xdc00 then pair else u ∷ text
decode_utf16 (some h) (u ∷ us) =
    (0x1_0000 + (h - 0xd800) * 0x400 + (u - 0xdc00)) ∷ decode_utf16 none us

decode-encode : (cs : List ℕ) → All IsScalar cs → decode_utf16 none (encode_utf16 cs) ≡ cs
unfolding decode_utf16 encode_utf16
decode-encode [] h = refl
decode-encode (c ∷ cs) h = ground (arith, decode-encode cs h.1)

encode-units : (cs : List ℕ) → All IsScalar cs → All (λ u. u < 0x1_0000) (encode_utf16 cs)
unfolding encode_utf16
encode-units [] h = tt
encode-units (c ∷ cs) h = ground (arith, encode-units cs h.1)

units-unit_bytes : (us : List ℕ) → All (λ u. u < 0x1_0000) us → units (unit_bytes us) ≡ us
unfolding units unit_bytes to_le
units-unit_bytes [] h = refl
units-unit_bytes (u ∷ us) h = ground (arith, units-unit_bytes us h.1)

-- The bytes of a variable are its text in little-endian UTF-16: for a text of Unicode scalar
-- values, a reader of that gets the text back, characters outside the basic plane included.
pub decode-utf16_bytes :
    (text : List ℕ) → All IsScalar text → decode_utf16 none (units (utf16_bytes text)) ≡ text
unfolding utf16_bytes
decode-utf16_bytes text h =
    ap (decode_utf16 none) (units-unit_bytes (encode_utf16 text) (encode-units text h))
    ∙ decode-encode text h

-- the number that decimal digits stand for, `n` being that of the digits before them
unfoldable pub value_from : ℕ → List ℕ → ℕ
value_from n [] = n
value_from n (d ∷ ds) = value_from (n * 10 + (d - 48)) ds

-- '0' to '9'
abbrev pub IsDigit : ℕ → Type 0
IsDigit d = (48 ≤ d) × (d ≤ 57)

digits-IsDigit : (fuel n : ℕ) (acc : List ℕ) → All IsDigit acc → All IsDigit (digits fuel n acc)
unfolding digits
digits-IsDigit zero n acc h = h
digits-IsDigit (suc fuel) n acc h =
    let more = digits-IsDigit fuel (n / 10) ((48 + n % 10) ∷ acc) ((omega arith, omega arith), h) in
    elim (Bool-cases (ltb n 10)) [
      | inl small ↦ rw small ((omega arith, ground (arith, small)), h)
      | inr large ↦ rw large more
    ]

two_digits-IsDigit : (n : ℕ) → All IsDigit (two_digits n)
two_digits-IsDigit n = elim (Bool-cases (ltb (length (decimal n)) 2)) [
  | inr long ↦ rw long (digits-IsDigit 10 n [] tt)
  | inl short ↦ rw short ((omega arith, omega arith), digits-IsDigit 10 n [] tt)
]

-- what so many digits can hold
decimal_range : ℕ → ℕ
decimal_range zero = 1
decimal_range (suc k) = 10 * decimal_range k

value_from-digits :
    (fuel n : ℕ) (acc : List ℕ)
    → n < decimal_range fuel
    → value_from 0 (digits fuel n acc) ≡ value_from n acc
unfolding value_from digits decimal_range
value_from-digits zero n acc h = ap (λ k. value_from k acc) (omega arith)
value_from-digits (suc fuel) n acc h =
    let last : n / 10 * 10 + (48 + n % 10 - 48) ≡ n = omega arith in
    let only : 0 * 10 + (48 + n - 48) ≡ n = omega arith in
    ground (
      arith,
      ap (λ k. value_from k acc) last,
      ap (λ k. value_from k acc) only,
      value_from-digits fuel (n / 10) ((48 + n % 10) ∷ acc) (omega arith),
    )

value_from-decimal : (n : ℕ) → n < 2 ^ 32 → value_from 0 (decimal n) ≡ n
value_from-decimal n h =
    value_from-digits 10 n [] (unfold decimal_range in omega arith) ∙ (unfold value_from in refl)

length-digits : (fuel n : ℕ) (acc : List ℕ) → suc (length acc) ≤ length (digits (suc fuel) n acc)
unfolding digits
length-digits zero n acc = ground arith
length-digits (suc fuel) n acc = ground (arith, length-digits fuel (n / 10) ((48 + n % 10) ∷ acc))

two_digits_lem :
    (n : ℕ) → n < 2 ^ 32 → (value_from 0 (two_digits n) ≡ n) × (2 ≤ length (two_digits n))
two_digits_lem n h = elim (Bool-cases (ltb (length (decimal n)) 2)) [
  | inr long ↦ rw long (value_from-decimal n h, ground arith)
  | inl short ↦
      rw short ((unfold value_from in value_from-decimal n h), omega (arith, length-digits 9 n []))
]

-- For a revision that is a u32, the firmware's description is its vendor, a space, decimal digits,
-- a dot and at least two decimal digits; the numbers that the digits stand for are the upper and
-- the lower half of the revision.
pub format_info-halves :
    (vendor : List ℕ) (revision : ℕ)
    → revision < 2 ^ 32
    → (major : List ℕ) × (minor : List ℕ) × (format_info vendor revision
        ≡ vendor ++ b' ' ∷ (major ++ b'.' ∷ minor))
      × All IsDigit major
      × All IsDigit minor
      × (value_from 0 major ≡ revision / 2 ^ 16)
      × (value_from 0 minor ≡ revision % 2 ^ 16)
      × (2 ≤ length minor)
unfolding format_info
format_info-halves vendor revision h =
    let (same, long) =
      two_digits_lem (bit_and revision 0xffff) (omega (arith, and-0xffff revision)) in
    (
      decimal (revision / 2 ^ 16),
      two_digits (bit_and revision 0xffff),
      refl,
      digits-IsDigit 10 (revision / 2 ^ 16) [] tt,
      two_digits-IsDigit (bit_and revision 0xffff),
      value_from-decimal (revision / 2 ^ 16) (omega arith),
      same ∙ and-0xffff revision,
      long,
    )

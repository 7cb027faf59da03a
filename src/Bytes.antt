-- ===== src/Bytes.antt =====
-- The functions of core on byte slices and byte strings that the sources call: `rposition`,
-- `u8::is_ascii_whitespace`, `str::from_utf8` and `str::trim_end_matches`.
pub mod Trim
use stub.Prelude.{
  ℕ, zero, suc, ◌+◌, ◌≡◌, refl, Bool, true, false, ◌&&◌, ◌||◌, Option, none, some, List, [], ◌∷◌,
  leb, ltb, ◌==◌, if◌then◌else◌,
}

-- `iter().rposition(p)`: the index of the last item that passes
unfoldable pub rposition : (ℕ → Bool) → List ℕ → Option ℕ
rposition p [] = none
rposition p (x ∷ xs) = elim (rposition p xs) [
  | some i ↦ some (suc i)
  | none ↦ if p x then some 0 else none
]

-- space, tab, line feed, form feed, carriage return
unfoldable pub is_ascii_whitespace : ℕ → Bool
is_ascii_whitespace b = b == 0x20 || b == 0x09 || b == 0x0a || b == 0x0c || b == 0x0d

-- A UTF-8 decoder's state: the continuation bytes still wanted, and the range of the next.
pub record Decoder : Type 0 where
  pub wanted : ℕ
  pub low : ℕ
  pub high : ℕ

abbrev wants : ℕ → ℕ → ℕ → Option Decoder
wants n lo hi = some (record { wanted = n; low = lo; high = hi })

-- what a leading byte announces, by the table of the Unicode standard
unfoldable pub lead : ℕ → Option Decoder
lead b =
    if ltb b 0x80
    then wants 0 0 0
    else if ltb b 0xc2
    then none
    else if ltb b 0xe0
    then wants 1 0x80 0xbf
    else if b == 0xe0
    then wants 2 0xa0 0xbf
    else if b == 0xed
    then wants 2 0x80 0x9f
    else if ltb b 0xf0
    then wants 2 0x80 0xbf
    else if b == 0xf0
    then wants 3 0x90 0xbf
    else if ltb b 0xf4
    then wants 3 0x80 0xbf
    else if b == 0xf4
    then wants 3 0x80 0x8f
    else none

unfoldable pub continue_or_lead : Decoder → ℕ → Option Decoder
unfolding lead
continue_or_lead d b =
    if d.wanted == 0
    then lead b
    else if leb d.low b && leb b d.high
    then wants (Prim.Native.Nat.pred d.wanted) 0x80 0xbf
    else none

unfoldable pub decodes : Option Decoder → List ℕ → Bool
unfolding continue_or_lead
decodes none bs = false
decodes (some d) [] = d.wanted == 0
decodes (some d) (b ∷ bs) = decodes (continue_or_lead d b) bs

-- `str::from_utf8(bytes).is_ok()`
unfoldable pub is_utf8 : List ℕ → Bool
unfolding decodes
is_utf8 = decodes (wants 0 0 0)

-- the item before the end of the list, where `rest` is what remains of the tail
abbrev keep_unless : Bool → ℕ → List ℕ → List ℕ
keep_unless true x [] = []
keep_unless false x [] = x ∷ []
keep_unless _ x (y ∷ ys) = x ∷ y ∷ ys

-- `text.trim_end_matches(p)`, for a `p` on single-byte characters
unfoldable pub trim_end : (ℕ → Bool) → List ℕ → List ℕ
trim_end p [] = []
trim_end p (x ∷ xs) = keep_unless (p x) x (trim_end p xs)

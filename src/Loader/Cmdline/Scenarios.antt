-- ===== src/Loader/Cmdline/Scenarios.antt =====
-- The tests of src/pe/loader/cmdline.rs, each with what it asserts, named after it.
use stub.Prelude.{ℕ, ◌+◌, ◌*◌, ◌≡◌, refl, List, [], ◌∷◌, length}
use stub.Bytes.{rposition, is_ascii_whitespace}
use stub.Loader.Cmdline.{strip_trailing_terminators}

-- "hello" and "console=ttyS0"
abbrev hello : List ℕ
hello = b'h' ∷ b'e' ∷ b'l' ∷ b'l' ∷ b'o' ∷ []

abbrev console : List ℕ
console =
    b'c' ∷ b'o' ∷ b'n' ∷ b's' ∷ b'o' ∷ b'l' ∷ b'e' ∷ b'=' ∷ b't' ∷ b't' ∷ b'y' ∷ b'S' ∷ b'0' ∷ []

abbrev StripTrailingTerminatorsEmpty : Type 0
StripTrailingTerminatorsEmpty = strip_trailing_terminators [] ≡ []

abbrev StripTrailingTerminatorsAllTerminators : Type 0
StripTrailingTerminatorsAllTerminators =
    strip_trailing_terminators (b' ' ∷ b'\n' ∷ b'\t' ∷ 0 ∷ 0 ∷ []) ≡ []

abbrev StripTrailingTerminatorsNoTerminators : Type 0
StripTrailingTerminatorsNoTerminators = strip_trailing_terminators hello ≡ hello

abbrev StripTrailingTerminatorsTrailingNuls : Type 0
StripTrailingTerminatorsTrailingNuls =
    strip_trailing_terminators (b'h' ∷ b'e' ∷ b'l' ∷ b'l' ∷ b'o' ∷ 0 ∷ 0 ∷ []) ≡ hello

abbrev StripTrailingTerminatorsTrailingNewline : Type 0
StripTrailingTerminatorsTrailingNewline =
    strip_trailing_terminators (
      b'c' ∷ b'o' ∷ b'n' ∷ b's' ∷ b'o' ∷ b'l' ∷ b'e' ∷ b'=' ∷ b't' ∷ b't' ∷ b'y' ∷ b'S' ∷ b'0'
      ∷ b'\n' ∷ [])
    ≡ console

abbrev StripTrailingTerminatorsSingleNul : Type 0
StripTrailingTerminatorsSingleNul = strip_trailing_terminators (b'x' ∷ 0 ∷ []) ≡ b'x' ∷ []

abbrev StripTrailingTerminatorsNulInMiddle : Type 0
StripTrailingTerminatorsNulInMiddle =
    let input : List ℕ = b'h' ∷ b'e' ∷ b'l' ∷ 0 ∷ b'l' ∷ b'o' ∷ [] in
    strip_trailing_terminators input ≡ input

abbrev StripTrailingTerminatorsNulOnlyInMiddle : Type 0
StripTrailingTerminatorsNulOnlyInMiddle =
    let input : List ℕ = b'a' ∷ 0 ∷ b'b' ∷ [] in strip_trailing_terminators input ≡ input

-- `size_of::<u16>()` is 2
abbrev EncodeUcs2AccountsForUtf16NulTerminatorSize : Type 0
EncodeUcs2AccountsForUtf16NulTerminatorSize =
    let cmdline : List ℕ = b'a' ∷ b'b' ∷ b'c' ∷ [] in (length cmdline + 1) * 2 ≡ 8

-- All of them hold.
scenarios :
    StripTrailingTerminatorsEmpty × StripTrailingTerminatorsAllTerminators
    × StripTrailingTerminatorsNoTerminators × StripTrailingTerminatorsTrailingNuls
    × StripTrailingTerminatorsTrailingNewline × StripTrailingTerminatorsSingleNul
    × StripTrailingTerminatorsNulInMiddle × StripTrailingTerminatorsNulOnlyInMiddle
    × EncodeUcs2AccountsForUtf16NulTerminatorSize
unfolding strip_trailing_terminators rposition is_ascii_whitespace
scenarios = (refl, refl, refl, refl, refl, refl, refl, refl, refl)

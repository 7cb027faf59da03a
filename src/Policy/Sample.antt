-- ===== src/Policy/Sample.antt =====
-- An encoding that writes one 'A' per byte, and a firmware with a key file: test data.
use stub.Prelude.{
  ℕ, ◌≡◌, ◌≢◌, refl, none, some, List, [], ◌∷◌, All, arith, length, leb, if◌then◌else◌, false, ◌≤◌,
}
use stub.Machine.{Firmware, FileRead}
use stub.Machine.Sample.{firmware}
use stub.Bytes.{is_ascii_whitespace}
use stub.Loader.Cmdline.Strip.{is_terminator}
use stub.Policy.Luks.{Base64}
use stub.Policy.Final.{IsEncoding}

abbrev pub letters : List ℕ → List ℕ
letters [] = []
letters (b ∷ bs) = b'A' ∷ letters bs

abbrev pub base64 : Base64
base64 = record {
  encoded_len = λ key. length (letters key);
  encode = λ key n. if leb (length (letters key)) n then some (letters key) else none;
}

visible_letters : (key : List ℕ) → All (λ b. is_terminator b ≡ false) (letters key)
unfolding is_ascii_whitespace
visible_letters [] = tt
visible_letters (b ∷ bs) = (refl, visible_letters bs)

nonempty_letters : (key : List ℕ) → key ≢ [] → letters key ≢ []
nonempty_letters [] some_key e = some_key refl
nonempty_letters (b ∷ bs) some_key e = cc

fits_letters :
    (key : List ℕ) (n : ℕ)
    → length (letters key) ≤ n
    → (if leb (length (letters key)) n then some (letters key) else none) ≡ some (letters key)
fits_letters key n fits = ground arith

pub is_encoding : IsEncoding base64 letters
is_encoding = record {
  encoded_len = λ key. refl;
  encode = fits_letters;
  visible = visible_letters;
  nonempty = nonempty_letters;
}

abbrev pub key : List ℕ
key = 1 ∷ 2 ∷ []

-- a firmware without a TPM, and with a key file
abbrev pub keyed : Firmware
keyed = record firmware { locate_tcg = λ s. none; read_luks = λ s. FileRead.contents key }

-- ===== src/Policy/Luks.antt =====
-- src/policy/luks.rs: a key file on the ESP is put into the command line.
--
-- The base64ct crate is not part of the repository: `Base64` is the two functions of
-- `Base64Unpadded` that the code calls.
use stub.Prelude.{
  resize, ℕ, Option, none, some, List, [], ◌∷◌, ◌++◌, leb, if◌then◌else◌, length, take, drop,
}
use stub.Word.{checked_add}
use stub.Machine.{Firmware, Action, Error, Call, FileRead, pure, fail, context, ask, ◌>>=◌}
use stub.Loader.Cmdline.{strip_trailing_terminators}

pub record Base64 : Type 0 where
  -- `encoded_len(bytes)`
  pub encoded_len : List ℕ → ℕ
  -- `encode(bytes, dst)` for the length of `dst`: what it writes at the front of `dst`
  pub encode : List ℕ → ℕ → Option (List ℕ)

-- " luks.key="
abbrev pub luks_key_prefix : List ℕ
luks_key_prefix = b' ' ∷ b'l' ∷ b'u' ∷ b'k' ∷ b's' ∷ b'.' ∷ b'k' ∷ b'e' ∷ b'y' ∷ b'=' ∷ []

-- `xs.get_mut(start..)`
abbrev pub rest_from : List ℕ → ℕ → Option (List ℕ)
rest_from xs start = if leb start (length xs) then some (drop start xs) else none

abbrev pub or_empty : Option (List ℕ) → List ℕ
or_empty none = []
or_empty (some xs) = xs

-- `base.checked_add(prefix).and_then(|len| len.checked_add(encoded))`
abbrev pub add_third : Option ℕ → ℕ → Option ℕ
add_third none n = none
add_third (some len) n = checked_add len n

-- the arms of `read_key` on what the file system gave
abbrev pub key_of : FileRead → Action (Option (List ℕ))
key_of (FileRead.contents []) = pure none
key_of (FileRead.contents (b ∷ bs)) = pure (some (b ∷ bs))
key_of FileRead.missing = pure none
key_of FileRead.failed = fail Error.luks_unreadable

-- the command line with the encoded key behind it
unfoldable pub combine : Base64 → List ℕ → List ℕ → Action (Option (List ℕ))
combine base64 base_cmd luks_data = do
  let encoded_len = base64.encoded_len luks_data
  total_len ←
      context (add_third (checked_add (length base_cmd) (length luks_key_prefix)) encoded_len)
        Error.combined_length_overflow
  let combined = base_cmd ++ luks_key_prefix
  let start = length combined
  let resized = resize combined total_len 0
  dst ← context (rest_from resized start) Error.key_destination_unavailable
  text ← context (base64.encode luks_data (length dst)) Error.encode_key_failed
  pure (some (take start resized ++ (text ++ drop (length text) dst)))

module _ (firmware : Firmware) where
  -- `read_key`
  unfoldable pub read_key : Action (Option (List ℕ))
  read_key = do file ← ask Call.read_luks firmware.read_luks; key_of file

  abbrev pub inject_key : Base64 → Option (List ℕ) → Option (List ℕ) → Action (Option (List ℕ))
  inject_key base64 cmdline none = pure none
  inject_key base64 cmdline (some luks_data) =
      combine base64 (strip_trailing_terminators (or_empty cmdline)) luks_data

  -- `try_inject`
  unfoldable pub try_inject : Base64 → Option (List ℕ) → Action (Option (List ℕ))
  try_inject base64 cmdline = do key ← read_key; inject_key base64 cmdline key

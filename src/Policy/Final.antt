-- ===== src/Policy/Final.antt =====
-- The command line that src/policy/mod.rs and src/policy/luks.rs decide on, and what the
-- loader's trimming makes of it.
use stub.Prelude.{
  resize, ℕ, ◌+◌, ◌-◌, ◌≤◌, ◌<◌, ◌≡◌, ◌≢◌, ◌⊎◌, inl, inr, refl, sym, true, false, Option, some,
  List, [], ◌∷◌, ◌++◌, arith, All, ltb, leb, length, replicate, length-append, length-replicate,
  take-length, drop-length, take_all, drop_all, append-nil, Bool,
}
use stub.Word.{u64_end, usize_end}
use stub.Bytes.Trim.{EndsOutside}
use stub.Machine.{Machine, ok, Firmware, Call, FileRead}
use stub.Loader.Cmdline.{strip_trailing_terminators}
use stub.Loader.Cmdline.Strip.{is_terminator, strip-Trimmed}
use stub.Tpm2.{has_handle, is_available}
use stub.Policy.{policy_cmdline}
use stub.Policy.Luks.{Base64, luks_key_prefix, or_empty, combine, read_key, try_inject}

-- What the stub relies on of base64ct: the announced length is the text's, a destination of that
-- length is enough, and the text is made of visible characters, some for any key but the empty one.
pub record IsEncoding (base64 : Base64) (text : List ℕ → List ℕ) : Type 0 where
  pub encoded_len : (key : List ℕ) → base64.encoded_len key ≡ length (text key)
  pub encode :
      (key : List ℕ) (n : ℕ) → length (text key) ≤ n → base64.encode key n ≡ some (text key)
  pub visible : (key : List ℕ) → All (λ b. is_terminator b ≡ false) (text key)
  pub nonempty : (key : List ℕ) → key ≢ [] → text key ≢ []

-- the command line with the key behind it
abbrev pub with_key : List ℕ → List ℕ → List ℕ
with_key base text = (base ++ luks_key_prefix) ++ text

resize_append : (xs : List ℕ) (n : ℕ) → resize xs (length xs + n) 0 ≡ xs ++ replicate n 0
resize_append xs n =
    let more : length xs + n - length xs ≡ n = omega arith in
    rw (more, take_all (length xs + n) xs (omega arith))

module _ (base64 : Base64) (text : List ℕ → List ℕ) (is : IsEncoding base64 text) where
  combine-with_key :
      (base key : List ℕ) (s : Machine)
      → length base + 10 + length (text key) < usize_end
      → combine base64 base key s ≡ (ok (some (with_key base (text key))), s)
  unfolding combine
  combine-with_key base key s short =
      let n = length (text key) in
      let xs = base ++ luks_key_prefix in
      let size : length xs ≡ length base + 10 = omega (arith, length-append base luks_key_prefix) in
      let one : ltb (length base + 10) u64_end ≡ true = ground arith in
      let two : ltb (length base + 10 + n) u64_end ≡ true = ground arith in
      let total : length base + 10 + n ≡ length xs + n = omega (arith, size) in
      let inside : leb (length xs) (length (xs ++ replicate n 0)) ≡ true =
        ground (arith, length-append xs (replicate n 0)) in
      let rest = drop_all {A = ℕ} n (replicate n 0) (omega (arith, length-replicate {A = ℕ} n 0)) in
      rw (
        is.encoded_len key,
        one,
        two,
        total,
        resize_append xs n,
        inside,
        drop-length xs (replicate n 0),
        length-replicate {A = ℕ} n 0,
        is.encode key n (omega arith),
        take-length xs (replicate n 0),
        rest,
        append-nil,
      )

  module _ (firmware : Firmware) (base : Option (List ℕ)) (s : Machine) where
    -- If there is no TCG2 handle, the key file is there and not empty, the encoder behaves as
    -- documented and the combined length is a usize, then the policy returns the trimmed command
    -- line of the image, or nothing in its place, with " luks.key=" and the encoded key behind it,
    -- after one search for a TPM and one read of the file.
    pub policy_cmdline-with_key :
        (key : List ℕ)
        → has_handle (firmware.locate_tcg s) ≡ false
        → key ≢ []
        → firmware.read_luks (record s { calls = Call.locate_tcg ∷ s.calls })
          ≡ FileRead.contents key
        → length (strip_trailing_terminators (or_empty base)) + 10 + length (text key) < usize_end
        → policy_cmdline firmware base64 base s ≡ (
          ok (some (with_key (strip_trailing_terminators (or_empty base)) (text key))),
          record s { calls = Call.read_luks ∷ Call.locate_tcg ∷ s.calls },
        )
    unfolding policy_cmdline is_available try_inject read_key
    policy_cmdline-with_key [] no_tpm some_key file short = absurd (some_key refl)
    policy_cmdline-with_key (b ∷ bs) no_tpm some_key file short = rw (
      no_tpm,
      file,
      combine-with_key (strip_trailing_terminators (or_empty base)) (b ∷ bs)
          (record s { calls = Call.read_luks ∷ Call.locate_tcg ∷ s.calls }) short,
    )

-- There is a TPM, or else no key in the file system.
abbrev pub NoKey : Firmware → Machine → Type 0
NoKey firmware s =
    (has_handle (firmware.locate_tcg s) ≡ true)
    ⊎ ((has_handle (firmware.locate_tcg s) ≡ false)
        × (let asked = record s { calls = Call.locate_tcg ∷ s.calls } in
            (firmware.read_luks asked ≡ FileRead.missing)
            ⊎ (firmware.read_luks asked ≡ FileRead.contents [])))

-- If there is a TCG2 handle, or else no key file or an empty one, the policy returns the image's
-- own command line as it is.
pub policy_cmdline-NoKey :
    (base64 : Base64) (firmware : Firmware) (base : Option (List ℕ)) (s : Machine)
    → NoKey firmware s
    → (policy_cmdline firmware base64 base s).0 ≡ ok base
unfolding policy_cmdline is_available try_inject read_key
policy_cmdline-NoKey base64 firmware base s (inl tpm) = rw tpm
policy_cmdline-NoKey base64 firmware base s (inr (no_tpm, inl file)) = rw (no_tpm, file)
policy_cmdline-NoKey base64 firmware base s (inr (no_tpm, inr file)) = rw (no_tpm, file)

EndsOutside-append :
    (p : ℕ → Bool) (xs ys : List ℕ) → ys ≢ [] → All (λ b. p b ≡ false) ys → EndsOutside p (xs ++ ys)
EndsOutside-append p [] [] some_left h = tt
EndsOutside-append p [] (y ∷ []) some_left h = h.0
EndsOutside-append p [] (y ∷ z ∷ zs) some_left h = EndsOutside-append p [] (z ∷ zs) (λ e. cc) h.1
EndsOutside-append p (x ∷ []) [] some_left h = absurd (some_left refl)
EndsOutside-append p (x ∷ []) (y ∷ ys) some_left h = EndsOutside-append p [] (y ∷ ys) some_left h
EndsOutside-append p (x ∷ w ∷ ws) ys some_left h = EndsOutside-append p (w ∷ ws) ys some_left h

-- If the encoder behaves as documented, the key is not empty and the whole is shorter than 2 ^ 64,
-- the loader's trimming takes nothing off a command line with a key behind it.
pub strip-with_key :
    (base64 : Base64) (text : List ℕ → List ℕ) (base key : List ℕ)
    → IsEncoding base64 text
    → key ≢ []
    → length (with_key base (text key)) < usize_end
    → strip_trailing_terminators (with_key base (text key)) ≡ with_key base (text key)
strip-with_key base64 text base key is some_key short =
    (strip-Trimmed (with_key base (text key)) (with_key base (text key)) short).1 (record {
      tail = [];
      split = sym (append-nil _);
      dropped = tt;
      ends =
          EndsOutside-append is_terminator (base ++ luks_key_prefix) (text key)
            (is.nonempty key some_key) (is.visible key);
    })

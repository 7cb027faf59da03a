-- ===== src/Policy/Decision.antt =====
-- The policy of src/policy/mod.rs and src/policy/luks.rs as a decision on what it asks the firmware.
use stub.Prelude.{
  ℕ, ◌+◌, ◌≡◌, refl, Bool, true, false, Option, some, List, [], ◌∷◌, arith, ltb, length,
  if◌then◌else◌, Bool-cases, inl, inr,
}
use stub.Word.{usize_end}
use stub.Machine.{Machine, Outcome, ok, err, Firmware, Error, Call, FileRead}
use stub.Loader.Cmdline.{strip_trailing_terminators}
use stub.Tpm2.{has_handle, is_available}
use stub.Policy.{policy_cmdline}
use stub.Policy.Luks.{Base64, or_empty, combine, read_key, try_inject}
use stub.Policy.Final.{IsEncoding, with_key, policy_cmdline-with_key}

-- The command line with this key, if its length is a usize.
abbrev pub with_file_key : (List ℕ → List ℕ) → List ℕ → List ℕ → Outcome (Option (List ℕ))
with_file_key text base key =
    if ltb (length base + 10 + length (text key)) usize_end
    then ok (some (with_key base (text key)))
    else err Error.combined_length_overflow

-- What is decided: the image's command line where there is a TPM, no key file, or an empty one, and
-- an error where the file is there but cannot be read.
abbrev pub decide :
    (List ℕ → List ℕ) → Bool → FileRead → Option (List ℕ) → Outcome (Option (List ℕ))
decide text true file base = ok base
decide text false FileRead.missing base = ok base
decide text false FileRead.failed base = err Error.luks_unreadable
decide text false (FileRead.contents []) base = ok base
decide text false (FileRead.contents (b ∷ bs)) base =
    with_file_key text (strip_trailing_terminators (or_empty base)) (b ∷ bs)

-- what the firmware is asked for it
abbrev pub decision_calls : Bool → List Call → List Call
decision_calls true calls = Call.locate_tcg ∷ calls
decision_calls false calls = Call.read_luks ∷ Call.locate_tcg ∷ calls

module _ (base64 : Base64) (text : List ℕ → List ℕ) (is : IsEncoding base64 text) where
  combine-overflow :
      (base key : List ℕ) (s : Machine)
      → ltb (length base + 10 + length (text key)) usize_end ≡ false
      → combine base64 base key s ≡ (err Error.combined_length_overflow, s)
  unfolding combine
  combine-overflow base key s long = rw (is.encoded_len key) (ground (arith, long))

  module _ (firmware : Firmware) (base : Option (List ℕ)) (s : Machine) where
    abbrev asked : Machine
    asked = record s { calls = Call.locate_tcg ∷ s.calls }

    no_tpm-decide :
        (file : FileRead)
        → has_handle (firmware.locate_tcg s) ≡ false
        → firmware.read_luks asked ≡ file
        → policy_cmdline firmware base64 base s
          ≡ (decide text false file base, record s { calls = decision_calls false s.calls })
    unfolding policy_cmdline is_available try_inject read_key
    no_tpm-decide FileRead.missing no_tpm reads = rw (no_tpm, reads)
    no_tpm-decide FileRead.failed no_tpm reads = rw (no_tpm, reads)
    no_tpm-decide (FileRead.contents []) no_tpm reads = rw (no_tpm, reads)
    no_tpm-decide (FileRead.contents (b ∷ bs)) no_tpm reads =
        let trimmed = strip_trailing_terminators (or_empty base) in
        elim (Bool-cases (ltb (length trimmed + 10 + length (text (b ∷ bs))) usize_end)) [
          | inl fits ↦ rw fits (
              policy_cmdline-with_key base64 text is firmware base s (b ∷ bs) no_tpm (λ e. cc) reads
                (ground (arith, fits)))
          | inr long ↦ rw (
            no_tpm,
            reads,
            combine-overflow trimmed (b ∷ bs) (record s { calls = decision_calls false s.calls })
                long,
            long,
          )
        ]

    tpm-decide :
        has_handle (firmware.locate_tcg s) ≡ true
        → policy_cmdline firmware base64 base s
          ≡ (ok base, record s { calls = decision_calls true s.calls })
    unfolding policy_cmdline is_available
    tpm-decide tpm = rw tpm

    -- If the encoder behaves as documented, then whatever the firmware answers the policy comes to
    -- this, with no other call than the search for a TPM and, if there is none, one read of the
    -- key file: the image's own command line if there is a TCG2 handle, no key file or an empty
    -- one; the error luks_unreadable if the file cannot be read; and else the trimmed command line
    -- with " luks.key=" and the encoded key behind it, or an error if the combined length is no
    -- usize.
    pub policy_cmdline-decide :
        let tpm = has_handle (firmware.locate_tcg s) in
        policy_cmdline firmware base64 base s ≡ (
          decide text tpm (firmware.read_luks asked) base,
          record s { calls = decision_calls tpm s.calls },
        )
    policy_cmdline-decide = elim (Bool-cases (has_handle (firmware.locate_tcg s))) [
      | inl tpm ↦ rw tpm (tpm-decide tpm)
      | inr no_tpm ↦ rw no_tpm (no_tpm-decide (firmware.read_luks asked) no_tpm refl)
    ]

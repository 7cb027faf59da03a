-- ===== src/Tpm2/Measures.antt =====
-- What reaches PCR 11: the measurements of src/tpm2.rs and of the loop in src/main.rs.
use stub.Prelude.{
  ℕ, ◌+◌, ◌<◌, ◌≡◌, refl, ap, ◌∙◌, true, some, List, [], ◌∷◌, ◌++◌, arith, All, ltb, length,
  append_assoc, append-nil, sym,
}
use stub.Word.{u64_end}
use stub.Machine.{Machine, ok, Firmware, Call, resume}
use stub.Tpm2.{pcr_index, open_tcg, hash_log_extend, measure_section, reported, measure_each}

-- A request to extend a PCR: its index, the name of the event, and the data.
abbrev pub Event : Type 0
Event = ℕ × List ℕ × List ℕ

-- The requests to extend a PCR among some calls, earliest first, from the latest call on.
unfoldable pub extends : List Call → List Event
extends [] = []
extends (Call.hash_log_extend_event pcr name bytes ∷ rest) = extends rest ++ (pcr, name, bytes) ∷ []
extends (_ ∷ rest) = extends rest

-- The firmware has a TCG2 protocol and takes every event.
pub record Takes (firmware : Firmware) (handle : ℕ) : Type 0 where
  pub locate : (s : Machine) → firmware.locate_tcg s ≡ some (handle ∷ [])
  pub opens : (s : Machine) → firmware.open_tcg s handle ≡ true
  pub events : (s : Machine) (size : ℕ) (name : List ℕ) → firmware.new_event s size name ≡ true
  pub extend :
      (s : Machine) (name bytes : List ℕ)
      → firmware.hash_log_extend_event s pcr_index name bytes ≡ true

-- what a section contributes to PCR 11: its name with a NUL, and its data, both under its name
abbrev pub digest_events : List (List ℕ × List ℕ) → List Event
digest_events [] = []
digest_events ((name, bytes) ∷ rest) =
    (11, name, name ++ 0 ∷ []) ∷ (11, name, bytes) ∷ digest_events rest

abbrev pub IsName : List ℕ × List ℕ → Type 0
IsName (name, bytes) = 18 + length name < u64_end

module _ (firmware : Firmware) {handle : ℕ} (takes : Takes firmware handle) where
  hash_log_extend-ok :
      (name bytes : List ℕ) (s : Machine)
      → 18 + length name < u64_end
      → hash_log_extend firmware name bytes s
        ≡ (ok tt, record s { calls = Call.hash_log_extend_event pcr_index name bytes ∷ s.calls })
  unfolding hash_log_extend
  hash_log_extend-ok name bytes s short =
      let fits : ltb (18 + length name) u64_end ≡ true = ground arith in
      rw (fits, takes.events s (18 + length name) name, takes.extend s name bytes)

  -- the calls for one section, latest first
  abbrev section_calls : List ℕ → List ℕ → List Call → List Call
  section_calls name bytes before =
      Call.close_tcg
      ∷ Call.hash_log_extend_event pcr_index name bytes
      ∷ Call.hash_log_extend_event pcr_index name (name ++ 0 ∷ [])
      ∷ Call.open_tcg handle
      ∷ Call.locate_tcg
      ∷ before

  measure_section-ok :
      (name bytes : List ℕ) (s : Machine)
      → 18 + length name < u64_end
      → measure_section firmware name bytes s
        ≡ (ok tt, record s { calls = section_calls name bytes s.calls })
  unfolding measure_section open_tcg
  measure_section-ok name bytes s short =
      let a : Machine = record s { calls = Call.open_tcg handle ∷ Call.locate_tcg ∷ s.calls } in
      let b : Machine = record a {
        calls = Call.hash_log_extend_event pcr_index name (name ++ 0 ∷ []) ∷ a.calls;
      } in
      rw (
        takes.locate s,
        takes.opens (record s { calls = Call.locate_tcg ∷ s.calls }),
        hash_log_extend-ok name (name ++ 0 ∷ []) a short,
        hash_log_extend-ok name bytes b short,
      )

  -- If the firmware has a TCG2 protocol that takes every event, and the names are short enough for
  -- the event's size to be a usize, the loop over the sections succeeds, asks to extend PCR 11 for
  -- all of them in the order of the image, of each first with its name and a NUL and then with its
  -- data, and writes no memory.
  pub measure_each-extends :
      (sections : List (List ℕ × List ℕ)) (s : Machine)
      → All IsName sections
      → (t : Machine) × (measure_each firmware sections s ≡ (ok tt, t))
        × (extends t.calls ≡ extends s.calls ++ digest_events sections)
        × (t.memory ≡ s.memory)
  unfolding measure_each extends
  measure_each-extends [] s names = (s, refl, sym (append-nil _), refl)
  measure_each-extends ((name, bytes) ∷ rest) s names =
      let m : Machine = record s { calls = section_calls name bytes s.calls } in
      let (t, e, order, same) = measure_each-extends rest m names.1 in
      (
        t,
        ap (λ r. resume (λ _. measure_each firmware rest) (reported r))
              (measure_section-ok name bytes s names.0)
            ∙ e,
        order ∙ simp append_assoc,
        same,
      )

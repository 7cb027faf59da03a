-- ===== src/Tpm2/Taken.antt =====
-- What PCR 11 holds after src/tpm2.rs has measured a section: the events that the firmware took.
use stub.Prelude.{
  ℕ, ◌≡◌, ◌⊎◌, inl, inr, refl, ap, sym, ◌∙◌, List, [], ◌∷◌, ◌++◌, length, append_assoc, append-nil,
  if◌then◌else◌, Bool-cases, Option-cases,
}
use stub.Word.{checked_add}
use stub.Machine.{Machine, Outcome, ok, err, Firmware, Error, Call, ◌>>◌}
use stub.Machine.Bind.{bind-ok, bind-err}
use stub.Tpm2.{
  pcr_index, pcr_event_prefix_len, first, open_tcg, hash_log_extend, measure_section, closing_tcg,
}
use stub.Tpm2.Measures.{Event}
use stub.Tpm2.Refusals.{name_event, data_event}

-- The machine `s` with these calls on record.
module _ (firmware : Firmware) (s : Machine) where
  abbrev after : List Call → Machine
  after calls = record s { calls = calls }

  -- the events taken among some calls, earliest first: each is answered from the machine before it
  unfoldable pub taken : List Call → List Event
  taken [] = []
  taken (Call.hash_log_extend_event pcr name bytes ∷ rest) =
      let before = taken rest in
      if firmware.hash_log_extend_event (after rest) pcr name bytes
      then before ++ (pcr, name, bytes) ∷ []
      else before
  taken (_ ∷ rest) = taken rest

  -- A run ends with these calls: a success adds all of the events, an error none of them.
  abbrev Adds : {A : Type 0} → List Event → Outcome A × Machine → List Call → Type 0
  Adds {A} events r calls =
      (later : List Call) × (((a : A) × (r ≡ (ok a, after later))
          × (taken later ≡ taken calls ++ events))
        ⊎ ((e : Error) × (r ≡ (err e, after later)) × (taken later ≡ taken calls)))

  hash_log_extend-Adds :
      (name bytes : List ℕ) (calls : List Call)
      → Adds ((11, name, bytes) ∷ []) (hash_log_extend firmware name bytes (after calls)) calls
  unfolding hash_log_extend taken
  hash_log_extend-Adds name bytes calls =
      elim (Option-cases (checked_add pcr_event_prefix_len (length name))) [
        | inl overflow ↦ (calls, inr (Error.event_size_overflow, rw overflow refl, refl))
        | inr (size, fits) ↦ elim (Bool-cases (firmware.new_event (after calls) size name)) [
          | inr unbuilt ↦ (calls, inr (Error.event_not_built, rw (fits, unbuilt) refl, refl))
          | inl built ↦
              let later : List Call = Call.hash_log_extend_event pcr_index name bytes ∷ calls in
              elim (Bool-cases
                (firmware.hash_log_extend_event (after calls) pcr_index name bytes)) [
                  | inl takes ↦ (later, inl (tt, rw (fits, built, takes) refl, rw takes refl))
                  | inr refuses ↦ (
                    later,
                    inr (Error.extend_failed name, rw (fits, built, refuses) refl, rw refuses refl),
                  )
                ]
        ]
      ]

  open_tcg-Adds : (calls : List Call) → Adds [] (open_tcg firmware (after calls)) calls
  unfolding open_tcg taken
  open_tcg-Adds calls =
      let found = firmware.locate_tcg (after calls) in
      let located : List Call = Call.locate_tcg ∷ calls in
      elim (Option-cases found) [
        | inl missing ↦ (located, inr (Error.tcg_search_failed, rw missing refl, refl))
        | inr (handles, there) ↦ elim (Option-cases (first handles)) [
          | inl empty ↦ (located, inr (Error.tcg_unavailable, rw (there, empty) refl, refl))
          | inr (handle, is) ↦
              let opened : List Call = Call.open_tcg handle ∷ located in
              elim (Bool-cases (firmware.open_tcg (after located) handle)) [
                | inl opens ↦ (opened, inl (handle, rw (there, is, opens) refl, sym (append-nil _)))
                | inr refused ↦
                    (opened, inr (Error.tcg_open_failed, rw (there, is, refused) refl, refl))
              ]
        ]
      ]

  -- How measuring a section ends: with both events taken, or with an error and at most the first.
  pub data Taken (name bytes : List ℕ) (r : Outcome (Unit {0}) × Machine) : Type 0 where
    measured :
        r.0 ≡ ok tt
        → taken r.1.calls ≡ taken s.calls ++ name_event name ∷ data_event name bytes ∷ []
        → Taken name bytes r
    unmeasured : (e : Error) → r.0 ≡ err e → taken r.1.calls ≡ taken s.calls → Taken name bytes r
    partly :
        (e : Error)
        → r.0 ≡ err e
        → taken r.1.calls ≡ taken s.calls ++ name_event name ∷ []
        → Taken name bytes r

  -- both requests, with the protocol open, and the end of it
  closing-Taken :
      (name bytes : List ℕ) (calls : List Call)
      → taken calls ≡ taken s.calls
      → Taken name bytes (
          closing_tcg
            (hash_log_extend firmware name (name ++ 0 ∷ []) >> hash_log_extend firmware name bytes)
            (after calls))
  unfolding taken
  closing-Taken name bytes calls same =
      let one = hash_log_extend firmware name (name ++ 0 ∷ []) in
      let two = hash_log_extend firmware name bytes in
      let (later, outcome) = hash_log_extend-Adds name (name ++ 0 ∷ []) calls in
      let (last, end) = hash_log_extend-Adds name bytes later in
      elim outcome [
        | inr (e, goes, kept) ↦
            rw (bind-err one (λ _. two) (after calls) goes) (Taken.unmeasured e refl (kept ∙ same))
        | inl (u, goes, added) ↦
            let named : taken later ≡ taken s.calls ++ name_event name ∷ [] =
              added ∙ ap (λ es. es ++ name_event name ∷ []) same in
            elim end [
              | inl (v, goes', added') ↦ rw (bind-ok one (λ _. two) (after calls) goes ∙ goes') (
                  Taken.measured refl (
                    added'
                    ∙ ap (λ es. es ++ data_event name bytes ∷ []) named
                    ∙ append_assoc (taken s.calls) (name_event name ∷ [])
                        (data_event name bytes ∷ [])))
              | inr (e, goes', kept) ↦
                  rw (bind-ok one (λ _. two) (after calls) goes ∙ goes')
                    (Taken.partly e refl (kept ∙ named))
            ]
      ]

  -- Whatever the firmware answers, measure_section either succeeds, and the firmware has taken two
  -- events more, which extend PCR 11 with the name and a NUL and then with the data, or it ends
  -- with an error, and the firmware has taken no event more, or the one for the name alone.
  pub measure_section-Taken :
      (name bytes : List ℕ) → Taken name bytes (measure_section firmware name bytes s)
  unfolding measure_section
  measure_section-Taken name bytes =
      let (calls, outcome) = open_tcg-Adds s.calls in
      elim outcome [
        | inr (e, goes, kept) ↦
            rw (bind-err (open_tcg firmware) _ s goes) (Taken.unmeasured e refl kept)
        | inl (handle, goes, kept) ↦
            rw (bind-ok (open_tcg firmware) _ s goes)
              (closing-Taken name bytes calls (kept ∙ append-nil _))
      ]

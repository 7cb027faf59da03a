-- ===== src/Tpm2/Refusals.antt =====
-- What reaches PCR 11 whatever the firmware refuses: src/tpm2.rs and the loop in src/main.rs.
use stub.Prelude.{
  ℕ, ◌≡◌, ◌⊎◌, inl, inr, refl, ap, sym, ◌∙◌, List, [], ◌∷◌, ◌++◌, arith, length, append_assoc,
  append-nil, Bool-cases, Option-cases,
}
use stub.Word.{checked_add}
use stub.Machine.{Machine, Outcome, ok, err, gone, Firmware, Error, Call, Action, resume, ◌>>◌}
use stub.Tpm2.{
  pcr_index, pcr_event_prefix_len, open_tcg, hash_log_extend, measure_section, closing_tcg,
  reported, measure_each,
}
use stub.Tpm2.Measures.{Event, extends}

-- the two requests that a section leads to
abbrev pub name_event : List ℕ → Event
name_event name = (11, name, name ++ 0 ∷ [])

abbrev pub data_event : List ℕ → List ℕ → Event
data_event name bytes = (11, name, bytes)

-- The requests for a section that were made: none, the one for its name, or both.
pub data Started (name bytes : List ℕ) : List Event → Type 0 where
  skipped : Started name bytes []
  named : Started name bytes (name_event name ∷ [])
  measured : Started name bytes (name_event name ∷ data_event name bytes ∷ [])

-- The requests for the sections in order, each started or not.
pub data Requests : List (List ℕ × List ℕ) → List Event → Type 0 where
  done : Requests [] []
  next :
      {name bytes : List ℕ} {rest : List (List ℕ × List ℕ)} {events later : List Event}
      → Started name bytes events
      → Requests rest later
      → Requests ((name, bytes) ∷ rest) (events ++ later)

-- A run that hands control back and has asked for these events.
record Asks {A : Type 0} (r : Outcome A × Machine) (s : Machine) (events : List Event)
    : Type 0 where
  calls : extends r.1.calls ≡ extends s.calls ++ events
  memory : r.1.memory ≡ s.memory
  stays : (t : Machine) → ¬ (r ≡ (gone, t))

module _ (firmware : Firmware) where
  -- a request is not made, or it is made, and then it may be refused
  hash_log_extend-cases :
      (name bytes : List ℕ) (s : Machine)
      → ((e : Error) × (hash_log_extend firmware name bytes s ≡ (err e, s)))
        ⊎ (let t : Machine = record s {
          calls = Call.hash_log_extend_event pcr_index name bytes ∷ s.calls;
        } in
            (hash_log_extend firmware name bytes s ≡ (ok tt, t))
            ⊎ ((e : Error) × (hash_log_extend firmware name bytes s ≡ (err e, t))))
  unfolding hash_log_extend
  hash_log_extend-cases name bytes s =
      elim (Option-cases (checked_add pcr_event_prefix_len (length name))) [
        | inl overflow ↦ inl (Error.event_size_overflow, rw overflow)
        | inr (size, fits) ↦ elim (Bool-cases (firmware.new_event s size name)) [
          | inr unbuilt ↦ inl (Error.event_not_built, rw (fits, unbuilt))
          | inl built ↦ elim (Bool-cases (firmware.hash_log_extend_event s pcr_index name bytes)) [
            | inl taken ↦ inr (inl (rw (fits, built, taken)))
            | inr refused ↦ inr (inr (Error.extend_failed name, rw (fits, built, refused)))
          ]
        ]
      ]

  open_tcg-extends :
      (s : Machine)
      → (extends (open_tcg firmware s).1.calls ≡ extends s.calls)
        × ((open_tcg firmware s).1.memory ≡ s.memory)
        × ((t : Machine) → ¬ (open_tcg firmware s ≡ (gone, t)))
  unfolding open_tcg extends
  open_tcg-extends s = (ground arith, ground arith, λ t. ground arith)

  -- both requests for a section, with the protocol open
  body : List ℕ → List ℕ → Action (Unit {0})
  body name bytes =
      hash_log_extend firmware name (name ++ 0 ∷ []) >> hash_log_extend firmware name bytes

  -- a run of them, as far as it went
  abbrev Ran : List ℕ → List ℕ → Machine → Outcome (Unit {0}) × Machine → Type 0
  Ran name bytes s r = (events : List Event) × Started name bytes events × Asks r s events

  body-Ran : (name bytes : List ℕ) (s : Machine) → Ran name bytes s (body name bytes s)
  unfolding body extends
  body-Ran name bytes s = elim (hash_log_extend-cases name (name ++ 0 ∷ []) s) [
    | inl (e, skips) ↦ (
      [],
      Started.skipped,
      rw skips (record { calls = sym (append-nil _); memory = refl; stays = λ t x. cc }),
    )
    | inr (inr (e, refuses)) ↦ (
      name_event name ∷ [],
      Started.named,
      rw refuses (record { calls = refl; memory = refl; stays = λ t x. cc }),
    )
    | inr (inl takes) ↦
        let m : Machine = record s {
          calls = Call.hash_log_extend_event pcr_index name (name ++ 0 ∷ []) ∷ s.calls;
        } in
        elim (hash_log_extend-cases name bytes m) [
          | inl (e, skips) ↦ (
            name_event name ∷ [],
            Started.named,
            rw (takes, skips) (record { calls = refl; memory = refl; stays = λ t x. cc }),
          )
          | inr (inl both) ↦ (
            name_event name ∷ data_event name bytes ∷ [],
            Started.measured,
            rw (takes, both)
                (record { calls = simp append_assoc; memory = refl; stays = λ t x. cc }),
          )
          | inr (inr (e, refuses)) ↦ (
            name_event name ∷ data_event name bytes ∷ [],
            Started.measured,
            rw (takes, refuses)
                (record { calls = simp append_assoc; memory = refl; stays = λ t x. cc }),
          )
        ]
  ]

  closed-Ran :
      (name bytes : List ℕ) (s : Machine) → Ran name bytes s (closing_tcg (body name bytes) s)
  unfolding extends
  closed-Ran name bytes s =
      let (events, started, asks) = body-Ran name bytes s in
      (
        events,
        started,
        record {
          calls = asks.calls;
          memory = asks.memory;
          stays = λ t e.
              asks.stays (body name bytes s).1
                (ap (λ (r : Outcome (Unit {0}) × Machine). (r.0, (body name bytes s).1)) e);
        },
      )

  -- what follows the opening of the protocol, if it opens
  opened-Ran :
      (name bytes : List ℕ) (s : Machine) (r : Outcome ℕ × Machine)
      → extends r.1.calls ≡ extends s.calls
      → r.1.memory ≡ s.memory
      → ((t : Machine) → ¬ (r ≡ (gone, t)))
      → Ran name bytes s (resume (λ _. closing_tcg (body name bytes)) r)
  opened-Ran name bytes s (ok tcg, u) same memory stays =
      let (events, started, asks) = closed-Ran name bytes u in
      (
        events,
        started,
        record {
          calls = asks.calls ∙ ap (λ xs. xs ++ events) same;
          memory = asks.memory ∙ memory;
          stays = asks.stays;
        },
      )
  opened-Ran name bytes s (err e, u) same memory stays = (
    [],
    Started.skipped,
    record { calls = same ∙ sym (append-nil _); memory = memory; stays = λ t x. cc },
  )
  opened-Ran name bytes s (gone, u) same memory stays = absurd (stays u refl)

  measure_section-Ran :
      (name bytes : List ℕ) (s : Machine) → Ran name bytes s (measure_section firmware name bytes s)
  unfolding measure_section body
  measure_section-Ran name bytes s =
      let (same, memory, stays) = open_tcg-extends s in
      opened-Ran name bytes s (open_tcg firmware s) same memory stays

  reported-ok :
      (r : Outcome (Unit {0}) × Machine)
      → ((t : Machine) → ¬ (r ≡ (gone, t)))
      → reported r ≡ (ok tt, r.1)
  reported-ok (ok u, t) stays = refl
  reported-ok (err e, t) stays = refl
  reported-ok (gone, t) stays = absurd (stays t refl)

  -- Whatever the firmware refuses, the loop over the sections succeeds and writes no memory, and
  -- what it asks to extend PCR 11 with is, for each section in the order of the image, nothing,
  -- its name alone, or its name and then its data.
  pub measure_each-Requests :
      (sections : List (List ℕ × List ℕ)) (s : Machine)
      → (t : Machine) × (events : List Event) × (measure_each firmware sections s ≡ (ok tt, t))
        × Requests sections events
        × (extends t.calls ≡ extends s.calls ++ events)
        × (t.memory ≡ s.memory)
  unfolding measure_each
  measure_each-Requests [] s = (s, [], refl, Requests.done, sym (append-nil _), refl)
  measure_each-Requests ((name, bytes) ∷ rest) s =
      let (events, started, asks) = measure_section-Ran name bytes s in
      let m = (measure_section firmware name bytes s).1 in
      let (t, later, goes, requests, calls, memory) = measure_each-Requests rest m in
      (
        t,
        events ++ later,
        ap (resume (λ _. measure_each firmware rest))
              (reported-ok (measure_section firmware name bytes s) asks.stays)
            ∙ goes,
        Requests.next started requests,
        calls ∙ ap (λ xs. xs ++ later) asks.calls ∙ append_assoc (extends s.calls) events later,
        memory ∙ asks.memory,
      )

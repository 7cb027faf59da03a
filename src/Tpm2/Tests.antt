-- ===== src/Tpm2/Tests.antt =====
-- The measurements at two small sections.
use stub.Prelude.{ℕ, ◌≡◌, Bool, true, false, List, [], ◌∷◌, ◌++◌}
use stub.Machine.{Machine, ok, Firmware, Call}
use stub.Machine.Sample.{firmware, start}
use stub.Tpm2.{measure_each, measure_section}
use stub.Tpm2.Refusals.{Requests, measure_each-Requests}
use stub.Tpm2.Measures.{Event, extends}
use stub.Tpm2.Taken.{Taken, measure_section-Taken}

-- ".o" and ".c", each with its data
abbrev sections : List (List ℕ × List ℕ)
sections = (46 ∷ 111 ∷ [], 1 ∷ 2 ∷ []) ∷ (46 ∷ 99 ∷ [], 3 ∷ []) ∷ []

-- takes an event once and then no more
abbrev extend_once : List Call → Bool
extend_once [] = true
extend_once (Call.hash_log_extend_event pcr name bytes ∷ rest) = false
extend_once (_ ∷ rest) = extend_once rest

abbrev failing : Firmware
failing = record firmware { hash_log_extend_event = λ s pcr name bytes. extend_once s.calls }

measure_each-Requests_example :
    (t : Machine) × (events : List Event) × (measure_each failing sections start ≡ (ok tt, t))
    × Requests sections events
    × (extends t.calls ≡ extends start.calls ++ events)
    × (t.memory ≡ start.memory)
measure_each-Requests_example = measure_each-Requests failing sections start

measure_section-Taken_example :
    Taken failing start (46 ∷ []) (7 ∷ []) (measure_section failing (46 ∷ []) (7 ∷ []) start)
measure_section-Taken_example = measure_section-Taken failing start (46 ∷ []) (7 ∷ [])

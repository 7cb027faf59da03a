-- ===== src/Tpm2.antt =====
-- src/tpm2.rs: sections are measured into PCR 11 through EFI_TCG2_PROTOCOL.
pub mod Measures
pub mod Refusals
pub mod Taken
mod Tests
use stub.Prelude.{ℕ, ◌+◌, Bool, true, false, Option, none, some, List, [], ◌∷◌, ◌++◌, length}
use stub.Word.{checked_add}
use stub.Machine.{
  Machine, Outcome, ok, err, gone, Firmware, Action, Error, Call, pure, context, ask, ensure, ◌>>=◌,
  ◌>>◌,
}

abbrev pub pcr_index : ℕ
pcr_index = 11

abbrev pub pcr_event_prefix_len : ℕ
pcr_event_prefix_len = 18

-- `handles.first()`
abbrev pub first : List ℕ → Option ℕ
first [] = none
first (h ∷ _) = some h

-- `is_ok_and(|handles| !handles.is_empty())`
abbrev pub has_handle : Option (List ℕ) → Bool
has_handle none = false
has_handle (some []) = false
has_handle (some (_ ∷ _)) = true

-- The owner of the open TCG2 protocol runs `m`, and closes it after that, also on an error.
abbrev pub closing_tcg : {A : Type 0} → Action A → Action A
closing_tcg m s = let (r, s') = m s in (r, record s' { calls = Call.close_tcg ∷ s'.calls })

-- the arms of the `match` in src/main.rs: an error is reported, and the loop goes on
abbrev pub reported : Outcome (Unit {0}) × Machine → Outcome (Unit {0}) × Machine
reported (ok u, s) = (ok u, s)
reported (err e, s) = (ok tt, s)
reported (gone, s) = (gone, s)

module _ (firmware : Firmware) where
  -- `is_available`
  unfoldable pub is_available : Action Bool
  is_available = do handles ← ask Call.locate_tcg firmware.locate_tcg; pure (has_handle handles)

  -- `open_tcg`
  unfoldable pub open_tcg : Action ℕ
  open_tcg = do
    reply ← ask Call.locate_tcg firmware.locate_tcg
    handles ← context reply Error.tcg_search_failed
    handle ← context (first handles) Error.tcg_unavailable
    opened ← ask (Call.open_tcg handle) (λ s. firmware.open_tcg s handle)
    ensure opened Error.tcg_open_failed
    pure handle

  -- `hash_log_extend`
  unfoldable pub hash_log_extend : List ℕ → List ℕ → Action (Unit {0})
  hash_log_extend event_name bytes = do
    event_size ←
        context (checked_add pcr_event_prefix_len (length event_name)) Error.event_size_overflow
    (λ s. ensure (firmware.new_event s event_size event_name) Error.event_not_built s)
    extended ←
        ask (Call.hash_log_extend_event pcr_index event_name bytes)
          (λ s. firmware.hash_log_extend_event s pcr_index event_name bytes)
    ensure extended (Error.extend_failed event_name)

  -- `measure_section`: the name with a NUL, then the data
  unfoldable pub measure_section : List ℕ → List ℕ → Action (Unit {0})
  measure_section name bytes = do
    tcg ← open_tcg
    closing_tcg (hash_log_extend name (name ++ 0 ∷ []) >> hash_log_extend name bytes)

  -- the loop over `sections.iter_sections()` in src/main.rs
  unfoldable pub measure_each : List (List ℕ × List ℕ) → Action (Unit {0})
  measure_each [] = pure tt
  measure_each ((name, bytes) ∷ rest) =
      (λ s. reported (measure_section name bytes s)) >> measure_each rest

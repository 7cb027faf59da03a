-- ===== src/Loader/Protection/Blocks.antt =====
-- What `apply` of src/pe/loader/protection.rs asks of the firmware, as a relation between the
-- machine before and after.
use stub.Prelude.{
  ℕ, ◌+◌, ◌≤◌, ◌≡◌, inl, inr, refl, ap, ◌∙◌, true, false, List, [], ◌∷◌, arith, All, ltb, ◌==◌,
  bit_and, Bool-cases,
}
use stub.Word.{u32_end, u64_end}
use stub.Machine.{Machine, Firmware, ok, Call, is_success, Action, resume}
use stub.Pe.Kernel.{Image, SectionHeader}
use stub.Loader.Mapping.Section.{IsHeader, dest_offset}
use stub.Loader.Protection.{
  efi_memory_ro, efi_memory_xp, protect_range, protect_section, protect_each, apply,
}
use stub.Loader.Protection.Ranges.{IsCode, IsCode-mask, page_bytes, whole_pages-page_bytes}

abbrev pub called : Call → Machine → Machine
called c s = record s { calls = c ∷ s.calls }

-- the machine once read-only has been asked for
abbrev pub ro_asked : ℕ → ℕ → ℕ → Machine → Machine
ro_asked proto at len = called (Call.set_memory_attributes proto at len efi_memory_ro)

module _ (firmware : Firmware) (proto : ℕ) where
  -- The requests for one range, with the answers that lead to each.
  pub data Range (at len : ℕ) (s t : Machine) : Type 0 where
    -- read-only was refused: nothing else is asked
    refused :
        is_success (firmware.set_memory_attributes s proto at len efi_memory_ro) ≡ false
        → t ≡ called (Call.set_memory_attributes proto at len efi_memory_ro) s
        → Range at len s t
    -- read-only was set and execution allowed
    protected :
        is_success (firmware.set_memory_attributes s proto at len efi_memory_ro) ≡ true
        → is_success
            (firmware.clear_memory_attributes (ro_asked proto at len s) proto at len efi_memory_xp)
          ≡ true
        → t
          ≡ called
              (Call.clear_memory_attributes proto at len efi_memory_xp)
              (ro_asked proto at len s)
        → Range at len s t
    -- execution was not allowed: read-only is taken back
    rolled_back :
        is_success (firmware.set_memory_attributes s proto at len efi_memory_ro) ≡ true
        → is_success
            (firmware.clear_memory_attributes (ro_asked proto at len s) proto at len efi_memory_xp)
          ≡ false
        → t
          ≡ called (Call.clear_memory_attributes proto at len efi_memory_ro) (
              called
                (Call.clear_memory_attributes proto at len efi_memory_xp)
                (ro_asked proto at len s))
        → Range at len s t

  -- The sections in order: a code section has its pages asked for, any other is passed over.
  pub data Sweep (kernel : Image) (base : ℕ) : List SectionHeader → Machine → Machine → Type 0 where
    done : {s : Machine} → Sweep kernel base [] s s
    other :
        {section : SectionHeader} {rest : List SectionHeader} {s u : Machine}
        → ¬ IsCode section
        → Sweep kernel base rest s u
        → Sweep kernel base (section ∷ rest) s u
    code :
        {section : SectionHeader} {rest : List SectionHeader} {s t u : Machine}
        → IsCode section
        → Range (base + dest_offset kernel section) (page_bytes section) s t
        → Sweep kernel base rest t u
        → Sweep kernel base (section ∷ rest) s u

  protect_range-Range :
      (at len : ℕ) (s : Machine)
      → (t : Machine) × (protect_range firmware proto at len s ≡ (ok tt, t)) × Range at len s t
  unfolding protect_range
  protect_range-Range at len s =
      let set = Call.set_memory_attributes proto at len efi_memory_ro in
      let clear = Call.clear_memory_attributes proto at len efi_memory_xp in
      let undo = Call.clear_memory_attributes proto at len efi_memory_ro in
      elim (Bool-cases (is_success (firmware.set_memory_attributes s proto at len efi_memory_ro))) [
        | inr no_ro ↦ (called set s, rw no_ro, Range.refused no_ro refl)
        | inl ro ↦
            elim (Bool-cases (
              is_success
                (firmware.clear_memory_attributes (called set s) proto at len efi_memory_xp))) [
                  | inl x ↦ (called clear (called set s), rw (ro, x), Range.protected ro x refl)
                  | inr no_x ↦ (
                    called undo (called clear (called set s)),
                    rw (ro, no_x),
                    Range.rolled_back ro no_x refl,
                  )
                ]
      ]

  protect_section-code :
      (kernel : Image) (base : ℕ) (section : SectionHeader) (s : Machine)
      → IsHeader section
      → base + u32_end ≤ u64_end
      → IsCode section
      → protect_section firmware proto base kernel section s
        ≡ protect_range firmware proto (base + dest_offset kernel section) (page_bytes section) s
  unfolding protect_section
  protect_section-code kernel base section s header room is =
      let masked = (IsCode-mask section).1 is in
      let low : ltb base u64_end ≡ true = ground arith in
      let sum : ltb (base + dest_offset kernel section) u64_end ≡ true =
        ground (arith, header.virtual_address) in
      rw (masked, low, sum, whole_pages-page_bytes section header)

  protect_section-other :
      (kernel : Image) (base : ℕ) (section : SectionHeader) (s : Machine)
      → (bit_and section.characteristics 0x2000_0020 == 0) ≡ true
      → protect_section firmware proto base kernel section s ≡ (ok tt, s)
  unfolding protect_section
  protect_section-other kernel base section s e = rw e

  protect_each-Sweep :
      (kernel : Image) (base : ℕ) (sections : List SectionHeader) (s : Machine)
      → All IsHeader sections
      → base + u32_end ≤ u64_end
      → (t : Machine) × (protect_each firmware proto base kernel sections s ≡ (ok tt, t))
        × Sweep kernel base sections s t
  unfolding protect_each
  protect_each-Sweep kernel base [] s headers room = (s, refl, Sweep.done)
  protect_each-Sweep kernel base (section ∷ rest) s headers room =
      split (λ u. protect_each-Sweep kernel base rest u headers.1 room)
    where
      next : Unit {0} → Action (Unit {0})
      next _ = protect_each firmware proto base kernel rest

      Goal : Type 0
      Goal =
          (t : Machine) × (resume next (protect_section firmware proto base kernel section s)
            ≡ (ok tt, t))
          × Sweep kernel base (section ∷ rest) s t

      split :
          ((u : Machine)
            → (t : Machine) × (protect_each firmware proto base kernel rest u ≡ (ok tt, t))
              × Sweep kernel base rest u t)
          → Goal
      split ih = elim (Bool-cases (bit_and section.characteristics 0x2000_0020 == 0)) [
        | inl plain ↦
            let (t, e, sweep) = ih s in
            (
              t,
              ap (resume next) (protect_section-other kernel base section s plain) ∙ e,
              Sweep.other (λ is. cc ((IsCode-mask section).1 is)) sweep,
            )
        | inr flagged ↦
            let is = (IsCode-mask section).0 flagged in
            let (m, e, range) =
              protect_range-Range (base + dest_offset kernel section) (page_bytes section) s in
            let (t, e', sweep) = ih m in
            (
              t,
              ap (resume next) (protect_section-code kernel base section s headers.0 room is ∙ e)
                  ∙ e',
              Sweep.code is range sweep,
            )
      ]

  -- If the section headers are u32 and a u32 offset from the base stays below 2 ^ 64, apply never
  -- fails: in the order of the table it asks, for each section that is marked as code or
  -- executable, for its size rounded up to whole pages from where the section was placed, first
  -- read-only, then executable if that was granted, and then not read-only if that was refused; a
  -- refusal for one section does not keep it from the next.
  pub apply-Sweep :
      (kernel : Image) (base : ℕ) (s : Machine)
      → All IsHeader kernel.sections
      → base + u32_end ≤ u64_end
      → (t : Machine) × (apply firmware proto base kernel s ≡ (ok tt, t))
        × Sweep kernel base kernel.sections s t
  unfolding apply
  apply-Sweep kernel base s headers room =
      protect_each-Sweep kernel base kernel.sections s headers room

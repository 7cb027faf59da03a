-- ===== src/Loader/Protection/Attributes.antt =====
-- What `apply` of src/pe/loader/protection.rs makes of the page tables, for a firmware that keeps
-- to EFI_MEMORY_ATTRIBUTE_PROTOCOL.
use stub.Prelude.{
  ℕ, ◌+◌, ◌%◌, ◌<◌, ◌≡◌, ◌⊎◌, ap, subst, ◌∙◌, Bool, true, false, List, ◌∷◌, arith, if◌then◌else◌,
  in_range,
}
use stub.Machine.{Machine, Firmware, Call, is_success}
use stub.Pe.Kernel.{Image, SectionHeader}
use stub.Loader.Mapping.Section.{dest_offset}
use stub.Loader.Protection.{efi_memory_ro, efi_memory_xp}
use stub.Loader.Protection.Ranges.{IsCode, page_bytes}
use stub.Loader.Protection.Blocks.{Range, called, ro_asked}

-- Two attributes of the memory at an address, in a state.
pub record Pages : Type 0 where
  pub read_only : Machine → ℕ → Bool
  pub no_execute : Machine → ℕ → Bool

abbrev pub Kept : (Machine → ℕ → Bool) → Machine → Machine → Type 0
Kept attribute s t = (a : ℕ) → attribute t a ≡ attribute s a

abbrev pub Becomes : (Machine → ℕ → Bool) → Bool → ℕ → ℕ → Machine → Machine → Type 0
Becomes attribute value at len s t =
    (a : ℕ) → attribute t a ≡ (if in_range at len a then value else attribute s a)

-- what one request does to the attribute it names, whether granted or refused
abbrev pub Answers : Bool → (Machine → ℕ → Bool) → Bool → ℕ → ℕ → Machine → Machine → Type 0
Answers granted attribute value at len s t =
    if granted then Becomes attribute value at len s t else Kept attribute s t

-- The requests of the protocol as they change the attributes: a request that is granted sets or
-- clears the attribute that it names in its range, and nothing else changes.
module _ (firmware : Firmware) (proto : ℕ) (pages : Pages) where
  pub record Honest : Type 0 where
    pub set_ro :
        (s : Machine) (at len : ℕ)
        → let t = called (Call.set_memory_attributes proto at len efi_memory_ro) s in
          Answers
            (is_success (firmware.set_memory_attributes s proto at len efi_memory_ro))
            pages.read_only
            true
            at
            len
            s
            t
          × Kept pages.no_execute s t
    pub clear_xp :
        (s : Machine) (at len : ℕ)
        → let t = called (Call.clear_memory_attributes proto at len efi_memory_xp) s in
          Answers
            (is_success (firmware.clear_memory_attributes s proto at len efi_memory_xp))
            pages.no_execute
            false
            at
            len
            s
            t
          × Kept pages.read_only s t
    pub clear_ro :
        (s : Machine) (at len : ℕ)
        → let t = called (Call.clear_memory_attributes proto at len efi_memory_ro) s in
          Answers
            (is_success (firmware.clear_memory_attributes s proto at len efi_memory_ro))
            pages.read_only
            false
            at
            len
            s
            t
          × Kept pages.no_execute s t

-- One or more whole pages: what the protocol takes requests for.
abbrev pub IsPages : ℕ → ℕ → Type 0
IsPages at len = (at % 0x1000 ≡ 0) × (len % 0x1000 ≡ 0) × (0 < len)

-- The protected range of a code section is whole pages.
abbrev pub AtPages : Image → ℕ → SectionHeader → Type 0
AtPages kernel base section =
    IsCode section → IsPages (base + dest_offset kernel section) (page_bytes section)

module _ (firmware : Firmware) (proto : ℕ) where
  -- The firmware grants what the stub asks for, of whole pages.
  pub record Grants : Type 0 where
    pub ro :
        (s : Machine) (at len : ℕ)
        → IsPages at len
        → is_success (firmware.set_memory_attributes s proto at len efi_memory_ro) ≡ true
    pub xp :
        (s : Machine) (at len : ℕ)
        → IsPages at len
        → is_success (firmware.clear_memory_attributes s proto at len efi_memory_xp) ≡ true

  -- a range for which read-only was granted may have it taken back
  abbrev pub Undoes : Type 0
  Undoes =
      (s t : Machine) (at len : ℕ)
      → is_success (firmware.set_memory_attributes s proto at len efi_memory_ro) ≡ true
      → is_success (firmware.clear_memory_attributes t proto at len efi_memory_ro) ≡ true

module _ (pages : Pages) where
  -- read-only and executable, in a state and at an address
  abbrev pub ReadExecute : Machine → ℕ → Type 0
  ReadExecute s a = (pages.read_only s a ≡ true) × (pages.no_execute s a ≡ false)

  abbrev pub SameAt : Machine → Machine → ℕ → Type 0
  SameAt s t a =
      (pages.read_only t a ≡ pages.read_only s a) × (pages.no_execute t a ≡ pages.no_execute s a)

  -- read-only now only where it was before, or where code can be executed
  abbrev pub NoneLeft : Machine → Machine → ℕ → Type 0
  NoneLeft s t a =
      (pages.read_only t a ≡ false)
      ⊎ ((pages.read_only s a ≡ true) ⊎ (pages.no_execute t a ≡ false))

-- The address lies in the pages of a code section.
pub data InCode (kernel : Image) (base a : ℕ) : List SectionHeader → Type 0 where
  here :
      {section : SectionHeader} {rest : List SectionHeader}
      → IsCode section
      → in_range (base + dest_offset kernel section) (page_bytes section) a ≡ true
      → InCode kernel base a (section ∷ rest)
  there :
      {section : SectionHeader} {rest : List SectionHeader}
      → InCode kernel base a rest
      → InCode kernel base a (section ∷ rest)

granted :
    {b : Bool} (attribute : Machine → ℕ → Bool) (value : Bool) (at len : ℕ) (s t : Machine)
    → b ≡ true
    → Answers b attribute value at len s t
    → Becomes attribute value at len s t
granted attribute value at len s t e h = subst (λ x. Answers x attribute value at len s t) e h

kept :
    {b : Bool} (attribute : Machine → ℕ → Bool) (value : Bool) (at len : ℕ) (s t : Machine)
    → b ≡ false
    → Answers b attribute value at len s t
    → Kept attribute s t
kept attribute value at len s t e h = subst (λ x. Answers x attribute value at len s t) e h

module _ (firmware : Firmware) (proto : ℕ) (pages : Pages) where
  module _ (honest : Honest firmware proto pages) (at len : ℕ) (s t : Machine) (a : ℕ) where
    abbrev ro_t : Machine
    ro_t = ro_asked proto at len s

    -- The attributes after the requests for one range, by their outcome.
    refused-SameAt :
        is_success (firmware.set_memory_attributes s proto at len efi_memory_ro) ≡ false
        → t ≡ ro_t
        → SameAt pages s t a
    refused-SameAt denied e = rw e (
      kept pages.read_only true at len s ro_t denied (honest.set_ro s at len).0 a,
      (honest.set_ro s at len).1 a,
    )

    protected-attributes :
        is_success (firmware.set_memory_attributes s proto at len efi_memory_ro) ≡ true
        → is_success (firmware.clear_memory_attributes ro_t proto at len efi_memory_xp) ≡ true
        → t ≡ called (Call.clear_memory_attributes proto at len efi_memory_xp) ro_t
        → (pages.read_only t a ≡ (if in_range at len a then true else pages.read_only s a))
          × (pages.no_execute t a ≡ (if in_range at len a then false else pages.no_execute s a))
    protected-attributes ro xp e =
        let u = called (Call.clear_memory_attributes proto at len efi_memory_xp) ro_t in
        let set = granted pages.read_only true at len s ro_t ro (honest.set_ro s at len).0 a in
        let clear =
          granted pages.no_execute false at len ro_t u xp (honest.clear_xp ro_t at len).0 a in
        rw e (
          (honest.clear_xp ro_t at len).1 a ∙ set,
          clear ∙ ap (λ x. if in_range at len a then false else x) ((honest.set_ro s at len).1 a),
        )

    rolled_back-attributes :
        Undoes firmware proto
        → is_success (firmware.set_memory_attributes s proto at len efi_memory_ro) ≡ true
        → is_success (firmware.clear_memory_attributes ro_t proto at len efi_memory_xp) ≡ false
        → t
          ≡ called
              (Call.clear_memory_attributes proto at len efi_memory_ro)
              (called (Call.clear_memory_attributes proto at len efi_memory_xp) ro_t)
        → (pages.read_only t a ≡ (if in_range at len a then false else pages.read_only s a))
          × (pages.no_execute t a ≡ pages.no_execute s a)
    rolled_back-attributes undoes ro no_xp e =
        let u = called (Call.clear_memory_attributes proto at len efi_memory_xp) ro_t in
        let w = called (Call.clear_memory_attributes proto at len efi_memory_ro) u in
        let set = granted pages.read_only true at len s ro_t ro (honest.set_ro s at len).0 a in
        let same =
          kept pages.no_execute false at len ro_t u no_xp (honest.clear_xp ro_t at len).0 a in
        let clear =
          granted pages.read_only false at len u w (undoes s u at len ro)
            (honest.clear_ro u at len).0 a in
        rw e (
          ground (arith, clear, (honest.clear_xp ro_t at len).1 a, set),
          (honest.clear_ro u at len).1 a ∙ same ∙ (honest.set_ro s at len).1 a,
        )

  module _ (honest : Honest firmware proto pages) where
    -- Ranges that are granted: inside read-only and executable, outside as before.
    pub Range-granted :
        (grants : Grants firmware proto) (at len : ℕ) (whole : IsPages at len) (s t : Machine)
        (a : ℕ)
        → Range firmware proto at len s t
        → (pages.read_only t a ≡ (if in_range at len a then true else pages.read_only s a))
          × (pages.no_execute t a ≡ (if in_range at len a then false else pages.no_execute s a))
    Range-granted grants at len whole s t a (Range.refused denied e) =
        cc (denied, grants.ro s at len whole)
    Range-granted grants at len whole s t a (Range.protected ro xp e) =
        protected-attributes honest at len s t a ro xp e
    Range-granted grants at len whole s t a (Range.rolled_back ro denied e) =
        cc (denied, grants.xp (ro_asked proto at len s) at len whole)

    -- Ranges that may be refused: executable memory stays so, and read-only is left only there.
    pub Range-NoneLeft :
        (undoes : Undoes firmware proto) (at len : ℕ) (s t : Machine) (a : ℕ)
        → Range firmware proto at len s t
        → NoneLeft pages s t a × ((pages.no_execute s a ≡ false) → pages.no_execute t a ≡ false)
    Range-NoneLeft undoes at len s t a (Range.refused denied e) =
        let (ro, nx) = (refused-SameAt honest at len s t a denied e) in ground (arith, ro, nx)
    Range-NoneLeft undoes at len s t a (Range.protected allowed xp e) =
        let (ro, nx) = (protected-attributes honest at len s t a allowed xp e) in
        ground (arith, ro, nx)
    Range-NoneLeft undoes at len s t a (Range.rolled_back allowed denied e) =
        let (ro, nx) = (rolled_back-attributes honest at len s t a undoes allowed denied e) in
        ground (arith, ro, nx)

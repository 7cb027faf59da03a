-- ===== src/Loader/Protection/Sweeps.antt =====
-- The page tables after `apply` of src/pe/loader/protection.rs, for all code sections together.
use stub.Prelude.{
  ℕ, ◌+◌, ◌≤◌, ◌≡◌, ◌⊎◌, inl, inr, refl, ap, ◌∙◌, Bool, true, false, Bool-cases, List, [], ◌∷◌,
  arith, All, if◌then◌else◌, in_range, ◌==◌, bit_and,
}
use stub.Word.{u32_end, u64_end}
use stub.Machine.{Machine, Firmware, ok}
use stub.Pe.Kernel.{Image, SectionHeader}
use stub.Loader.Mapping.Section.{IsHeader, dest_offset}
use stub.Loader.Protection.{apply}
use stub.Loader.Protection.Ranges.{IsCode-mask, page_bytes}
use stub.Loader.Protection.Blocks.{Sweep, apply-Sweep}
use stub.Loader.Protection.Attributes.{
  Pages, AtPages, Honest, Grants, Undoes, ReadExecute, SameAt, NoneLeft, InCode, Range-granted,
  Range-NoneLeft,
}

module _ (firmware : Firmware) (proto : ℕ) (pages : Pages)
    (honest : Honest firmware proto pages) where
  -- What the sweep has protected stays so, and all code is protected.
  Sweep-ReadExecute :
      (grants : Grants firmware proto) (kernel : Image) (base : ℕ) {sections : List SectionHeader}
      {s t : Machine} (a : ℕ)
      → All (AtPages kernel base) sections
      → Sweep firmware proto kernel base sections s t
      → InCode kernel base a sections ⊎ ReadExecute pages s a
      → ReadExecute pages t a
  Sweep-ReadExecute grants kernel base a whole Sweep.done (inl i) = elim i [ ]
  Sweep-ReadExecute grants kernel base a whole Sweep.done (inr is) = is
  Sweep-ReadExecute grants kernel base a whole (Sweep.other plain sweep)
        (inl (InCode.here code inside)) =
      absurd (plain code)
  Sweep-ReadExecute grants kernel base a whole (Sweep.other plain sweep) (inl (InCode.there rest)) =
      Sweep-ReadExecute grants kernel base a whole.1 sweep (inl rest)
  Sweep-ReadExecute grants kernel base a whole (Sweep.other plain sweep) (inr is) =
      Sweep-ReadExecute grants kernel base a whole.1 sweep (inr is)
  Sweep-ReadExecute grants kernel base a whole (Sweep.code {section} {s} {t = u} code range sweep)
        h =
      let len = page_bytes section in
      let (ro, nx) =
        Range-granted firmware proto pages honest grants (base + dest_offset kernel section) len
          (whole.0 code) s u a range in
      Sweep-ReadExecute grants kernel base a whole.1 sweep (next section s u ro nx h)
    where
      next :
          {rest : List SectionHeader} (section : SectionHeader) (s u : Machine)
          → (pages.read_only u a ≡ (
              if in_range (base + dest_offset kernel section) (page_bytes section) a
              then true
              else pages.read_only s a))
          → (pages.no_execute u a ≡ (
              if in_range (base + dest_offset kernel section) (page_bytes section) a
              then false
              else pages.no_execute s a))
          → InCode kernel base a (section ∷ rest) ⊎ ReadExecute pages s a
          → InCode kernel base a rest ⊎ ReadExecute pages u a
      next section s u ro nx (inl (InCode.here code inside)) = inr (ground arith)
      next section s u ro nx (inl (InCode.there rest)) = inl rest
      next section s u ro nx (inr is) = inr (ground arith)

  Sweep-SameAt :
      (grants : Grants firmware proto) (kernel : Image) (base : ℕ) {sections : List SectionHeader}
      {s t : Machine} (a : ℕ)
      → All (AtPages kernel base) sections
      → Sweep firmware proto kernel base sections s t
      → ¬ InCode kernel base a sections
      → SameAt pages s t a
  Sweep-SameAt grants kernel base a whole Sweep.done out = (refl, refl)
  Sweep-SameAt grants kernel base a whole (Sweep.other plain sweep) out =
      Sweep-SameAt grants kernel base a whole.1 sweep (λ i. out (InCode.there i))
  Sweep-SameAt grants kernel base a whole (Sweep.code {section} {s} {t = u} code range sweep) out =
      let at = base + dest_offset kernel section in
      let len = page_bytes section in
      let (ro, nx) =
        Range-granted firmware proto pages honest grants at len (whole.0 code) s u a range in
      let (ro', nx') =
        Sweep-SameAt grants kernel base a whole.1 sweep (λ i. out (InCode.there i)) in
      elim (Bool-cases (in_range at len a)) [
        | inl inside ↦ absurd (out (InCode.here code inside))
        | inr outside ↦ (
          ro' ∙ ro ∙ ap (λ b. if b then true else pages.read_only s a) outside,
          nx' ∙ nx ∙ ap (λ b. if b then false else pages.no_execute s a) outside,
        )
      ]

  Sweep-NoneLeft :
      (undoes : Undoes firmware proto) (kernel : Image) (base : ℕ) {sections : List SectionHeader}
      {s t : Machine} (a : ℕ)
      → Sweep firmware proto kernel base sections s t
      → NoneLeft pages s t a × ((pages.no_execute s a ≡ false) → pages.no_execute t a ≡ false)
  Sweep-NoneLeft undoes kernel base {s} a Sweep.done = (same (pages.read_only s a), λ e. e)
    where
      same : (b : Bool) → (b ≡ false) ⊎ ((b ≡ true) ⊎ (pages.no_execute s a ≡ false))
      same true = inr (inl refl)
      same false = inl refl
  Sweep-NoneLeft undoes kernel base a (Sweep.other plain sweep) =
      Sweep-NoneLeft undoes kernel base a sweep
  Sweep-NoneLeft undoes kernel base {s} {t} a (Sweep.code {section} {t = u} code range sweep) =
      let (left, keeps) =
        Range-NoneLeft firmware proto pages honest undoes (base + dest_offset kernel section)
          (page_bytes section) s u a range in
      let (left', keeps') = Sweep-NoneLeft undoes kernel base a sweep in
      (both left left' keeps', λ e. keeps' (keeps e))
    where
      both :
          {u : Machine}
          → NoneLeft pages s u a
          → NoneLeft pages u t a
          → ((pages.no_execute u a ≡ false) → pages.no_execute t a ≡ false)
          → NoneLeft pages s t a
      both left (inl writable) keeps' = inl writable
      both left (inr (inr executable)) keeps' = inr (inr executable)
      both (inl writable) (inr (inl before)) keeps' = cc
      both (inr (inl before)) (inr (inl now)) keeps' = inr (inl before)
      both (inr (inr executable)) (inr (inl now)) keeps' = inr (inr (keeps' executable))

  InCode-cases :
      (kernel : Image) (base a : ℕ) (sections : List SectionHeader)
      → InCode kernel base a sections ⊎ ¬ InCode kernel base a sections
  InCode-cases kernel base a [] = inr (λ i. elim i [ ])
  InCode-cases kernel base a (section ∷ rest) = elim (InCode-cases kernel base a rest) [
    | inl i ↦ inl (InCode.there i)
    | inr out ↦ elim (Bool-cases (bit_and section.characteristics 0x2000_0020 == 0)) [
      | inl plain ↦ inr (other plain out)
      | inr flagged ↦
          elim (Bool-cases (in_range (base + dest_offset kernel section) (page_bytes section) a)) [
            | inl inside ↦ inl (InCode.here ((IsCode-mask section).0 flagged) inside)
            | inr outside ↦ inr (elsewhere outside out)
          ]
    ]
  ]
    where
      other :
          {section : SectionHeader} {rest : List SectionHeader}
          → (bit_and section.characteristics 0x2000_0020 == 0) ≡ true
          → ¬ InCode kernel base a rest
          → ¬ InCode kernel base a (section ∷ rest)
      other {section} plain out (InCode.here code inside) = cc (plain, (IsCode-mask section).1 code)
      other plain out (InCode.there i) = out i

      elsewhere :
          {section : SectionHeader} {rest : List SectionHeader}
          → in_range (base + dest_offset kernel section) (page_bytes section) a ≡ false
          → ¬ InCode kernel base a rest
          → ¬ InCode kernel base a (section ∷ rest)
      elsewhere outside out (InCode.here code inside) = cc (outside, inside)
      elsewhere outside out (InCode.there i) = out i

  module _ (kernel : Image) (base : ℕ) (s : Machine) (headers : All IsHeader kernel.sections)
      (room : base + u32_end ≤ u64_end) (a : ℕ) where
    -- If the section headers are u32, a u32 offset from the base stays below 2 ^ 64, the protected
    -- range of every code section is one or more whole pages, and the firmware keeps to the
    -- protocol (a granted request changes its attribute in its range, a refused one nothing) and
    -- grants read-only and executable memory for whole pages, then apply succeeds, every address
    -- in the pages of a code section is read-only and executable at the end, however the sections
    -- overlap, and any other address has the attributes that it had.
    pub apply-ReadExecute :
        Grants firmware proto
        → All (AtPages kernel base) kernel.sections
        → (t : Machine) × (apply firmware proto base kernel s ≡ (ok tt, t))
          × ((InCode kernel base a kernel.sections × ReadExecute pages t a)
              ⊎ (¬ InCode kernel base a kernel.sections × SameAt pages s t a))
    apply-ReadExecute grants whole =
        let (t, goes, sweep) = apply-Sweep firmware proto kernel base s headers room in
        elim (InCode-cases kernel base a kernel.sections) [
          | inl i ↦ (t, goes, inl (i, Sweep-ReadExecute grants kernel base a whole sweep (inl i)))
          | inr out ↦ (t, goes, inr (out, Sweep-SameAt grants kernel base a whole sweep out))
        ]

    -- If the section headers are u32, a u32 offset from the base stays below 2 ^ 64, and the
    -- firmware keeps to the protocol and takes read-only back from any range that it grants it
    -- for, whatever else it refuses, then apply succeeds, and an address that is read-only at the
    -- end was so before or is executable: no section is left read-only and not executable.
    pub apply-NoneLeft :
        Undoes firmware proto
        → (t : Machine) × (apply firmware proto base kernel s ≡ (ok tt, t)) × NoneLeft pages s t a
    apply-NoneLeft undoes =
        let (t, goes, sweep) = apply-Sweep firmware proto kernel base s headers room in
        let (left, _) = Sweep-NoneLeft undoes kernel base a sweep in (t, goes, left)

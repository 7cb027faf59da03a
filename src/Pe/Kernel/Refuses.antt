-- ===== src/Pe/Kernel/Refuses.antt =====
-- The errors of `Image::parse` in src/pe/kernel.rs, in the order of its checks.
use stub.Prelude.{
  ℕ, ◌≡◌, ◌≢◌, ◌≤◌, ◌⊎◌, ◌↔◌, inl, inr, ap, sym, subst, ◌∙◌, some, none, List, [], ◌∷◌, arith, ◌==◌,
  Bool-cases, Option-cases,
}
use stub.Machine.{Error}
use stub.Result.{err}
use stub.Pe.Kernel.{
  Target, PeReader, SectionHeader, NtHeaders, expected_machine, section_name, directory_size,
  find_relocated, refuse_relocated, validate, parse,
}
use stub.Pe.Kernel.Accepts.{
  Decodes, IsBootable, find_relocated-All, validate-IsBootable, parse-validate,
}
use stub.Pe.Kernel.Name.{IsFirstRelocated, find_relocated-first}

-- The checks of the headers, up to each of them.
abbrev pub ForTarget : Target → NtHeaders → Type 0
ForTarget target h = h.machine ≡ expected_machine target

abbrev pub Enterable : Target → NtHeaders → Type 0
Enterable target h = ForTarget target h × (h.address_of_entry_point ≢ 0)

abbrev pub Versioned : Target → NtHeaders → Type 0
Versioned target h = Enterable target h × (1 ≤ h.major_image_version)

abbrev pub Unrelocated : Target → NtHeaders → Type 0
Unrelocated target h = Versioned target h × (directory_size h.directory_sizes 5 ≡ 0)

-- why the headers are refused: the first check that fails
pub data Refused (target : Target) (h : NtHeaders) (sections : List SectionHeader)
    : Error → Type 0 where
  machine :
      h.machine ≢ expected_machine target
      → Refused target h sections (Error.unsupported_machine h.machine)
  entry :
      ForTarget target h
      → h.address_of_entry_point ≡ 0
      → Refused target h sections Error.no_entry_point
  version :
      Enterable target h
      → h.major_image_version ≡ 0
      → Refused target h sections (Error.version_too_low h.major_image_version)
  base_relocations :
      Versioned target h
      → directory_size h.directory_sizes 5 ≢ 0
      → Refused target h sections (Error.has_base_relocations (directory_size h.directory_sizes 5))
  relocations :
      {section : SectionHeader}
      → Unrelocated target h
      → IsFirstRelocated sections section
      → Refused target h sections
          (Error.section_has_relocations (section_name section) section.pointer_to_relocations)

-- why an image is refused
pub data Unparsed (target : Target) (reader : PeReader) (bytes : List ℕ) : Error → Type 0 where
  dos :
      reader.nt_headers_offset bytes ≡ none → Unparsed target reader bytes Error.invalid_dos_header
  nt :
      {at : ℕ}
      → reader.nt_headers_offset bytes ≡ some at
      → reader.nt_headers bytes at ≡ none
      → Unparsed target reader bytes Error.invalid_pe_headers
  table :
      {at end : ℕ} {h : NtHeaders}
      → reader.nt_headers_offset bytes ≡ some at
      → reader.nt_headers bytes at ≡ some (h, end)
      → reader.section_table bytes h end ≡ none
      → Unparsed target reader bytes Error.invalid_section_table
  headers :
      {h : NtHeaders} {sections : List SectionHeader} {e : Error}
      → Decodes reader bytes h sections
      → Refused target h sections e
      → Unparsed target reader bytes e

==-cases : (a b : ℕ) → (a ≡ b) ⊎ (a ≢ b)
==-cases a b = elim (Bool-cases (a == b)) [
  | inl same ↦ inl (ground arith)
  | inr other ↦ inr (λ e. ground arith)
]

IsFirstRelocated-cons :
    (s : SectionHeader) (ss : List SectionHeader) (section : SectionHeader)
    → s.pointer_to_relocations ≡ 0
    → IsFirstRelocated ss section
    → IsFirstRelocated (s ∷ ss) section
IsFirstRelocated-cons s ss section clean is = record {
  before = s ∷ is.before;
  after = is.after;
  split = ap (λ xs. s ∷ xs) is.split;
  clean = (clean, is.clean);
  relocated = is.relocated;
}

find_relocated-IsFirst :
    (ss : List SectionHeader) (section : SectionHeader)
    → find_relocated ss ≡ some section
    → IsFirstRelocated ss section
unfolding find_relocated
find_relocated-IsFirst [] section e = cc
find_relocated-IsFirst (s ∷ ss) section e = elim (Bool-cases (s.pointer_to_relocations == 0)) [
  | inl clean ↦
      IsFirstRelocated-cons s ss section (ground arith)
        (find_relocated-IsFirst ss section (ground (arith, e)))
  | inr set ↦
      let same : s ≡ section = ground (arith, e) in
      record {
        before = [];
        after = ss;
        split = ap (λ x. x ∷ ss) same;
        clean = tt;
        relocated = λ z. ground (arith, set, same, z);
      }
]

module _ (target : Target) (bytes : List ℕ) (h : NtHeaders) (sections : List SectionHeader) where
  Refused-validate :
      (e : Error) → Refused target h sections e → validate target bytes h sections ≡ err e
  unfolding validate refuse_relocated
  Refused-validate e (Refused.machine other) = ground arith
  Refused-validate e (Refused.entry is zero_entry) = ground arith
  Refused-validate e (Refused.version is low) = ground arith
  Refused-validate e (Refused.base_relocations is set) = ground arith
  Refused-validate e (Refused.relocations {section} is first) = ground (
    arith,
    ap find_relocated first.split,
    find_relocated-first first.before first.after section first.clean first.relocated,
  )

  -- Headers pass every check, or there is a first one that they fail.
  validate-cases : IsBootable target h sections ⊎ ((e : Error) × Refused target h sections e)
  validate-cases = elim (==-cases h.machine (expected_machine target)) [
    | inr other ↦ inr (Error.unsupported_machine h.machine, Refused.machine other)
    | inl for_target ↦ elim (==-cases h.address_of_entry_point 0) [
      | inl zero_entry ↦ inr (Error.no_entry_point, Refused.entry for_target zero_entry)
      | inr enterable ↦ elim (==-cases h.major_image_version 0) [
        | inl low ↦ inr (_, Refused.version (for_target, enterable) low)
        | inr versioned ↦ elim (==-cases (directory_size h.directory_sizes 5) 0) [
          | inr set ↦ inr (_, Refused.base_relocations ((for_target, enterable), omega arith) set)
          | inl none_set ↦ elim (Option-cases (find_relocated sections)) [
            | inr (section, found) ↦ inr (
              _,
              Refused.relocations (((for_target, enterable), omega arith), none_set)
                  (find_relocated-IsFirst sections section found),
            )
            | inl clean ↦ inl (record {
              machine = for_target;
              entry = enterable;
              version = omega arith;
              no_base_relocations = none_set;
              no_relocations = find_relocated-All sections clean;
            })
          ]
        ]
      ]
    ]
  ]

  validate-Refused :
      (e : Error) → validate target bytes h sections ≡ err e → Refused target h sections e
  validate-Refused e failed = elim validate-cases [
    | inl bootable ↦ cc (failed, validate-IsBootable target bytes h sections bootable)
    | inr (e', refused) ↦
        let same : e' ≡ e = cc (failed, Refused-validate e' refused) in
        subst (Refused target h sections) same refused
  ]

module _ (target : Target) (reader : PeReader) (bytes : List ℕ) where
  Unparsed-parse : (e : Error) → Unparsed target reader bytes e → parse target reader bytes ≡ err e
  unfolding parse
  Unparsed-parse e (Unparsed.dos missing) = rw missing
  Unparsed-parse e (Unparsed.nt at missing) = rw (at, missing)
  Unparsed-parse e (Unparsed.table at found missing) = rw (at, found, missing)
  Unparsed-parse e (Unparsed.headers {h} {sections} decodes refused) =
      rw (decodes.dos, decodes.nt, decodes.table)
        (Refused-validate target bytes h sections e refused)

  parse-Unparsed_only :
      (e : Error) → parse target reader bytes ≡ err e → Unparsed target reader bytes e
  unfolding parse
  parse-Unparsed_only e failed = elim (Option-cases (reader.nt_headers_offset bytes)) [
    | inl missing ↦
        let same : Error.invalid_dos_header ≡ e = ground (arith, missing, failed) in
        subst (Unparsed target reader bytes) same (Unparsed.dos missing)
    | inr (at, offset) ↦ elim (Option-cases (reader.nt_headers bytes at)) [
      | inl missing ↦
          let same : Error.invalid_pe_headers ≡ e = ground (arith, offset, missing, failed) in
          subst (Unparsed target reader bytes) same (Unparsed.nt offset missing)
      | inr ((h, end), decoded) ↦ elim (Option-cases (reader.section_table bytes h end)) [
        | inl missing ↦
            let same : Error.invalid_section_table ≡ e =
              ground (arith, offset, decoded, missing, failed) in
            subst (Unparsed target reader bytes) same (Unparsed.table offset decoded missing)
        | inr (sections, found) ↦
            let decodes : Decodes reader bytes h sections = record {
              offset = at;
              table_offset = end;
              dos = offset;
              nt = decoded;
              table = found;
            } in
            Unparsed.headers decodes (
              validate-Refused target bytes h sections e
                (sym (parse-validate target bytes h sections reader decodes) ∙ failed))
      ]
    ]
  ]

  -- Parse fails with an error exactly if that is the error of its first check to fail: the DOS
  -- header, the NT headers or the section table cannot be decoded, the machine is not the
  -- target's, there is no entry point, the image version is 0, there are base relocations, or
  -- there is a first section with relocations, which the error names with its pointer.
  pub parse-Unparsed :
      (e : Error) → (parse target reader bytes ≡ err e) ↔ Unparsed target reader bytes e
  parse-Unparsed e = (parse-Unparsed_only e, Unparsed-parse e)

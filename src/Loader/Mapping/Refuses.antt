-- ===== src/Loader/Mapping/Refuses.antt =====
-- The errors of `map_sections` in src/pe/loader/mapping.rs, in the order of its checks.
use stub.Prelude.{
  ℕ, ◌+◌, ◌≤◌, ◌<◌, ◌≡◌, ◌≢◌, ◌⊎◌, ◌↔◌, inl, inr, refl, ap, subst, ◌∙◌, true, some, none, List, [],
  ◌∷◌, arith, All, ltb, length, Option-cases,
}
use native.Mathlib.Decide.{dec_lt}
use stub.Word.{usize_end}
use stub.Machine.{Machine, Outcome, ok, err, gone, Firmware, Error, Action, resume, pure}
use stub.Machine.Bind.{bind-ok, bind-err}
use stub.Pe.Kernel.{Image, SectionHeader, section_name}
use stub.Loader.Mapping.{
  page_count, copy_section_data, zero_section_tail, map_section, map_each, map_sections,
}
use stub.Loader.Mapping.Section.{IsHeader, Fits, copy_size, dest_offset, placed, map_section-Fits}
use stub.Loader.Mapping.Whole.{IsKernel, asked}

-- why a section is refused
pub data Unfit (kernel : Image) (section : SectionHeader) : Error → Type 0 where
  below :
      section.virtual_address < kernel.base_address → Unfit kernel section Error.below_image_base
  outside :
      kernel.base_address ≤ section.virtual_address
      → kernel.size < dest_offset kernel section + section.virtual_size
      → Unfit kernel section (
          Error.outside_allocation
            (section_name section)
            (dest_offset kernel section)
            section.virtual_size)
  unbacked :
      kernel.base_address ≤ section.virtual_address
      → dest_offset kernel section + section.virtual_size ≤ kernel.size
      → copy_size section ≢ 0
      → length kernel.bytes < section.pointer_to_raw_data + copy_size section
      → Unfit kernel section (
          Error.raw_data_out_of_bounds
            (section_name section)
            section.pointer_to_raw_data
            (copy_size section))

-- why a table is refused: its first section that does not fit
pub data FirstUnfit (kernel : Image) : List SectionHeader → Error → Type 0 where
  here :
      {section : SectionHeader} {rest : List SectionHeader} {e : Error}
      → Unfit kernel section e
      → FirstUnfit kernel (section ∷ rest) e
  there :
      {section : SectionHeader} {rest : List SectionHeader} {e : Error}
      → Fits kernel section
      → FirstUnfit kernel rest e
      → FirstUnfit kernel (section ∷ rest) e

-- why an image is refused
pub data Refused (firmware : Firmware) (kernel : Image) (s : Machine) : Error → Type 0 where
  pages :
      firmware.allocate_pages s (page_count kernel.size) ≡ none
      → Refused firmware kernel s Error.pages_unavailable
  unfit :
      {base : ℕ} {e : Error}
      → firmware.allocate_pages s (page_count kernel.size) ≡ some base
      → FirstUnfit kernel kernel.sections e
      → Refused firmware kernel s e

≤-cases : (a b : ℕ) → (a ≤ b) ⊎ (b < a)
≤-cases a b = elim (dec_lt b a) [ yes more ↦ inr more | no not_more ↦ inl (omega arith) ]

module _ (kernel : Image) where
  Fits-cases :
      (section : SectionHeader) → Fits kernel section ⊎ ((e : Error) × Unfit kernel section e)
  Fits-cases section = elim (≤-cases kernel.base_address section.virtual_address) [
    | inr low ↦ inr (Error.below_image_base, Unfit.below low)
    | inl above ↦ elim (≤-cases (dest_offset kernel section + section.virtual_size) kernel.size) [
      | inr long ↦ inr (_, Unfit.outside above long)
      | inl inside ↦
          elim (≤-cases (section.pointer_to_raw_data + copy_size section) (length kernel.bytes)) [
            | inl backed ↦ inl (record { above = above; inside = inside; backed = inr backed })
            | inr short ↦ elim (≤-cases (copy_size section) 0) [
              | inl no_data ↦
                  inl (record { above = above; inside = inside; backed = inl (omega arith) })
              | inr some_data ↦ inr (_, Unfit.unbacked above inside (λ e. omega arith) short)
            ]
          ]
    ]
  ]

  module _ (base : ℕ) where
    Unfit-map_section :
        (section : SectionHeader) (s : Machine) (e : Error)
        → IsHeader section
        → Unfit kernel section e
        → map_section kernel kernel.size base section s ≡ (err e, s)
    unfolding map_section copy_section_data zero_section_tail
    Unfit-map_section section s e header (Unfit.below low) =
        ground
          (arith, header.virtual_size, header.raw_size, header.raw_offset, header.virtual_address)
    Unfit-map_section section s e header (Unfit.outside above long) =
        ground
          (arith, header.virtual_size, header.raw_size, header.raw_offset, header.virtual_address)
    Unfit-map_section section s e header (Unfit.unbacked above inside some_data short) =
        ground
          (arith, header.virtual_size, header.raw_size, header.raw_offset, header.virtual_address)

    FirstUnfit-map_each :
        (ss : List SectionHeader) (s : Machine) (e : Error)
        → All IsHeader ss
        → FirstUnfit kernel ss e
        → (map_each kernel kernel.size base ss s).0 ≡ err e
    unfolding map_each
    FirstUnfit-map_each [] s e headers first = elim first [ ]
    FirstUnfit-map_each (section ∷ ss) s e headers (FirstUnfit.here refused) =
        ap (λ (r : Outcome (Unit {0}) × Machine). r.0)
          (bind-err (map_section kernel kernel.size base section)
            (λ _. map_each kernel kernel.size base ss) s
            (Unfit-map_section section s e headers.0 refused))
    FirstUnfit-map_each (section ∷ ss) s e headers (FirstUnfit.there fits later) =
        ap (λ (r : Outcome (Unit {0}) × Machine). r.0)
          (bind-ok (map_section kernel kernel.size base section)
            (λ _. map_each kernel kernel.size base ss) s
            (map_section-Fits kernel base section s headers.0 fits))
        ∙ FirstUnfit-map_each ss (record s { memory = placed kernel base section s.memory }) e
            headers.1 later

    All-Fits-map_each :
        (ss : List SectionHeader) (s : Machine)
        → All IsHeader ss
        → All (Fits kernel) ss
        → (map_each kernel kernel.size base ss s).0 ≡ ok tt
    unfolding map_each
    All-Fits-map_each [] s headers fits = refl
    All-Fits-map_each (section ∷ ss) s headers fits =
        ap (λ (r : Outcome (Unit {0}) × Machine). r.0)
          (bind-ok (map_section kernel kernel.size base section)
            (λ _. map_each kernel kernel.size base ss) s
            (map_section-Fits kernel base section s headers.0 fits.0))
        ∙ All-Fits-map_each ss (record s { memory = placed kernel base section s.memory }) headers.1
            fits.1

  FirstUnfit-cases :
      (ss : List SectionHeader) → All (Fits kernel) ss ⊎ ((e : Error) × FirstUnfit kernel ss e)
  FirstUnfit-cases [] = inl tt
  FirstUnfit-cases (section ∷ ss) = elim (Fits-cases section) [
    | inr (e, refused) ↦ inr (e, FirstUnfit.here refused)
    | inl fits ↦ elim (FirstUnfit-cases ss) [
      | inr (e, refused) ↦ inr (e, FirstUnfit.there fits refused)
      | inl rest ↦ inl (fits, rest)
    ]
  ]

resume-err :
    {A B : Type 0} (f : A → Action B) (r : Outcome A × Machine) (e : Error)
    → r.0 ≡ err e
    → (resume f r).0 ≡ err e
resume-err f (ok a, t) e h = cc
resume-err f (err x, t) e h = cc
resume-err f (gone, t) e h = cc

resume-ok :
    {A : Type 0} {base : ℕ} (r : Outcome A × Machine) {a : A}
    → r.0 ≡ ok a
    → (resume (λ (_ : A). pure base) r).0 ≡ ok base
resume-ok (ok a, t) h = refl
resume-ok (err x, t) h = cc
resume-ok (gone, t) h = cc

module _ (firmware : Firmware) (kernel : Image) (s : Machine) (is : IsKernel kernel) where
  map_sections-pages :
      firmware.allocate_pages s (page_count kernel.size) ≡ none
      → (map_sections firmware kernel s).0 ≡ err Error.pages_unavailable
  unfolding map_sections
  map_sections-pages none_left =
      let fits : ltb kernel.size usize_end ≡ true = ground (arith, is.size) in rw (fits, none_left)

  map_sections-loop :
      {base : ℕ}
      → firmware.allocate_pages s (page_count kernel.size) ≡ some base
      → map_sections firmware kernel s
        ≡ resume
            (λ _. pure base)
            (map_each kernel kernel.size base kernel.sections (asked kernel s))
  unfolding map_sections
  map_sections-loop given =
      let fits : ltb kernel.size usize_end ≡ true = ground (arith, is.size) in rw (fits, given)

  Refused-map_sections :
      (e : Error) → Refused firmware kernel s e → (map_sections firmware kernel s).0 ≡ err e
  Refused-map_sections e (Refused.pages none_left) = map_sections-pages none_left
  Refused-map_sections e (Refused.unfit {base} given first) =
      ap (λ (r : Outcome ℕ × Machine). r.0) (map_sections-loop given)
      ∙ resume-err (λ _. pure base) _ e
          (FirstUnfit-map_each kernel base kernel.sections (asked kernel s) e is.headers first)

  -- Pages are given and all sections fit, or there is a reason to refuse.
  map_sections-cases :
      (((base : ℕ) × ((map_sections firmware kernel s).0 ≡ ok base)))
      ⊎ ((e : Error) × Refused firmware kernel s e)
  map_sections-cases = elim (Option-cases (firmware.allocate_pages s (page_count kernel.size))) [
    | inl none_left ↦ inr (Error.pages_unavailable, Refused.pages none_left)
    | inr (base, given) ↦ elim (FirstUnfit-cases kernel kernel.sections) [
      | inr (e, first) ↦ inr (e, Refused.unfit given first)
      | inl fits ↦ inl (
        base,
        ap (λ (r : Outcome ℕ × Machine). r.0) (map_sections-loop given)
            ∙ resume-ok _
                (All-Fits-map_each kernel base kernel.sections (asked kernel s) is.headers fits),
      )
    ]
  ]

  -- If the header fields are u32, map_sections fails with an error exactly if that is its first
  -- reason to refuse: the firmware gives no pages, or of the sections in the order of the table
  -- the first that does not fit lies below the image base, ends outside the image, or has data to
  -- copy that ends outside the file; the last two errors name the section with its offset and
  -- size.
  pub map_sections-Refused :
      (e : Error) → ((map_sections firmware kernel s).0 ≡ err e) ↔ Refused firmware kernel s e
  map_sections-Refused e = (only, Refused-map_sections e)
    where
      only : (map_sections firmware kernel s).0 ≡ err e → Refused firmware kernel s e
      only failed = elim map_sections-cases [
        | inl (base, goes) ↦ cc (failed, goes)
        | inr (x, refused) ↦
            let same : x ≡ e = cc (failed, Refused-map_sections x refused) in
            subst (Refused firmware kernel s) same refused
      ]

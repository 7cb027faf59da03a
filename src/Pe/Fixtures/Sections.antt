-- ===== src/Pe/Fixtures/Sections.antt =====
-- `add_section` of src/pe/fixtures.rs on a builder that encodes the fields of an image.
use stub.Prelude.{
  ℕ, ◌+◌, ◌^◌, ◌≤◌, ◌<◌, ◌≡◌, sym, ap, subst, ◌∙◌, true, some, List, [], ◌∷◌, arith, ltb, max,
  length, length-append, All, resize,
}
use stub.Word.{u16_end, u32_end, u64_end, to_le, length-to_le}
use stub.Pe.Format.{bytes_of}
use stub.Pe.Fixtures.{Builder, add_section}
use stub.Pe.Fixtures.Write.{
  Writes, written_all, InRange, Writes-InRange, resize-bytes_of, length-resize, align_up_lem,
}
use stub.Pe.Fixtures.Edits.{Edit, Fields, aligned, entry_of, apply_edit}
use stub.Pe.Fixtures.Holds.{Holds}
use stub.Pe.Fixtures.Table.{raw_of, header_of, add_section-Holds}
use stub.Pe.Fixtures.Refines.{Encodes, Makes, section_header_offset_lem}

-- the bytes that `add_section` starts from, long enough for the content
abbrev grown : Builder → ℕ → List ℕ
grown b needed = resize b.bytes (max (length b.bytes) needed) 0

module _ (b : Builder) (f : Fields) (is : Encodes b f) (name content : List ℕ)
    (eight : length name ≡ 8) (short : length content < 2 ^ 31) (left : length f.sections < 4) where
  abbrev k : ℕ
  k = length f.sections

  abbrev needed : ℕ
  needed = raw_of k + aligned (length content)

  abbrev writes : List (ℕ × List ℕ)
  writes =
      (raw_of k, content)
      ∷ (header_of k, name)
      ∷ (header_of k + 8, to_le 4 (length content))
      ∷ (header_of k + 12, to_le 4 (raw_of k))
      ∷ (header_of k + 16, to_le 4 (aligned (length content)))
      ∷ (header_of k + 20, to_le 4 (raw_of k))
      ∷ (0x46, to_le 2 (k + 1))
      ∷ (0x90, to_le 4 needed)
      ∷ []

  below : {n : ℕ} (v : ℕ) → v < n → ltb v n ≡ true
  below v h = ground arith

  content_u32 : length content < u32_end
  content_u32 = ground arith

  add_section-Writes :
      (end : List ℕ)
      → Writes writes (grown b needed) end
      → add_section name content b ≡ some (record { bytes = end; num_sections = k + 1 })
  unfolding add_section
  add_section-Writes end
        (Writes.next e1 (
          Writes.next e2 (
            Writes.next e3 (
              Writes.next e4 (
                Writes.next e5 (Writes.next e6 (Writes.next e7 (Writes.next e8 Writes.none)))))))) =
      rw (
        is.count,
        below {n = u64_end} (k + 1) (omega arith),
        below {n = u64_end} (raw_of k) (omega arith),
        align_up_lem (length content) content_u32,
        below {n = u64_end} needed (omega arith),
        e1,
        section_header_offset_lem k left,
        e2,
        below {n = u32_end} (length content) content_u32,
        e3,
        below {n = u32_end} (raw_of k) (omega arith),
        e4,
        below {n = u32_end} (aligned (length content)) (omega arith),
        e5,
        e6,
        below {n = u16_end} (k + 1) (omega arith),
        e7,
        below {n = u32_end} needed (omega arith),
        e8,
      )

  writes-InRange : (n : ℕ) → needed ≤ n → 0x200 ≤ n → All (InRange n) writes
  writes-InRange n inside large = omega (
    arith,
    eight,
    length-to_le 2 (k + 1),
    length-to_le 4 (length content),
    length-to_le 4 (raw_of k),
    length-to_le 4 (aligned (length content)),
    length-to_le 4 needed,
  )

  pub add_section-Makes :
      Makes (add_section name content b) (apply_edit (Edit.section name content) f)
  add_section-Makes =
      let size = max (length b.bytes) needed in
      let (end, run, l, m) =
        Writes-InRange writes (grown b needed) size (length-resize b.bytes size)
          (writes-InRange size (omega arith) (omega (arith, is.size))) in
      (
        record { bytes = end; num_sections = k + 1 },
        add_section-Writes end run,
        record {
          size = omega (arith, l, is.size);
          count = omega (arith, length-append f.sections (entry_of k name content ∷ []));
          holds =
              subst (λ n. Holds n (apply_edit (Edit.section name content) f))
                (sym (m ∙ ap (written_all writes) (resize-bytes_of b.bytes size (omega arith))))
                (add_section-Holds f.headers f.sections (bytes_of b.bytes) name content is.holds
                  eight short left);
        },
      )

-- ===== src/Pe/Fixtures/Table.antt =====
-- What the writes of `add_section` of src/pe/fixtures.rs make of the section table. It has room for four entries, so the index of an entry is one of four numbers.
use stub.Prelude.{
  subst, ℕ, zero, suc, ◌+◌, ◌*◌, ◌^◌, ◌≤◌, ◌<◌, ◌≡◌, refl, ap, sym, ◌∙◌, List, [], ◌∷◌, ◌++◌, arith,
  length, get_or, length-append,
}
use native.Mathlib.Nat.{zero-add}
use stub.Word.{to_le, from_le, from_le-four}
use stub.Memory.{Memory, read, write}
use stub.Memory.Laws.{read-eq}
use stub.Pe.Kernel.{SectionHeader, NtHeaders}
use stub.Pe.Format.{bytes_of, le_at, sizes_at, headers_at, section_at, sections_at}
use stub.Pe.Fixtures.Edits.{aligned, entry_of}
use stub.Pe.Fixtures.Holds.{Fixed, Holds}

-- the offset in the file of the section with this index, and of its entry in the table
abbrev pub raw_of : ℕ → ℕ
raw_of k = 0x200 * (k + 1)

abbrev pub header_of : ℕ → ℕ
header_of k = 0x148 + 40 * k

-- the memory after the writes of `add_section`
abbrev pub with_entry : ℕ → List ℕ → List ℕ → Memory → Memory
with_entry k name content m =
    let at = header_of k in
    write (at + 20) (to_le 4 (raw_of k)) (
      write (at + 16) (to_le 4 (aligned (length content))) (
        write (at + 12) (to_le 4 (raw_of k))
          (write (at + 8) (to_le 4 (length content)) (write at name (write (raw_of k) content m)))))

abbrev pub with_section : ℕ → List ℕ → List ℕ → Memory → Memory
with_section k name content m =
    write 0x90 (to_le 4 (raw_of k + aligned (length content)))
      (write 0x46 (to_le 2 (k + 1)) (with_entry k name content m))

-- the entry as the writes leave it
abbrev written : ℕ → List ℕ → List ℕ → Memory → SectionHeader
written k name content m = record {
  name = name;
  virtual_size = from_le (to_le 4 (length content));
  virtual_address = from_le (to_le 4 (raw_of k));
  size_of_raw_data = from_le (to_le 4 (aligned (length content)));
  pointer_to_raw_data = from_le (to_le 4 (raw_of k));
  pointer_to_relocations = le_at 4 m (header_of k + 24);
  characteristics = le_at 4 m (header_of k + 36);
}

le_at-zero : (m : Memory) (p : ℕ) → ((i : ℕ) → i < 4 → m (p + i) ≡ 0) → le_at 4 m p ≡ 0
unfolding le_at from_le
le_at-zero m p h =
    let zeros : read m p 4 ≡ 0 ∷ 0 ∷ 0 ∷ 0 ∷ [] =
      read-eq m p (0 ∷ 0 ∷ 0 ∷ 0 ∷ []) (λ i l. h i l ∙ sym (zero_get i)) in
    ap from_le zeros
  where
    zero_get : (i : ℕ) → get_or {A = ℕ} (0 ∷ 0 ∷ 0 ∷ 0 ∷ []) i 0 ≡ 0
    zero_get zero = refl
    zero_get (suc zero) = refl
    zero_get (suc (suc zero)) = refl
    zero_get (suc (suc (suc zero))) = refl
    zero_get (suc (suc (suc (suc i)))) = refl

module _ (h : NtHeaders) (ss : List SectionHeader) (m : Memory)
    (is : Holds m (record { headers = h; sections = ss })) (content : List ℕ)
    (short : length content < 2 ^ 31) (left : length ss < 4) where
  written-entry_of :
      (name : List ℕ) → written (length ss) name content m ≡ entry_of (length ss) name content
  written-entry_of name =
      let k = length ss in
      let at = header_of k in
      rw (
        from_le-four (length content) (omega arith),
        from_le-four (raw_of k) (omega arith),
        from_le-four (aligned (length content)) (omega arith),
        le_at-zero m (at + 24) (λ i l. is.zeros (at + 24 + i) (omega arith) (omega arith)),
        le_at-zero m (at + 36) (λ i l. is.zeros (at + 36 + i) (omega arith) (omega arith)),
      )

  -- behind its entry and before the first section, `add_section` writes nothing
  behind :
      (name : List ℕ)
      → length name ≡ 8
      → (a : ℕ) → 0x148 + 40 * (length ss + 1) ≤ a
      → a < 0x200
      → with_section (length ss) name content m a ≡ m a
  unfolding write to_le
  behind name eight a l u = ground arith

  -- What is left to show of one index: the parts that the writes leave to be computed.
  section-Holds :
      (name : List ℕ)
      → length name ≡ 8
      → (let m' = with_section (length ss) name content m in
          Fixed m'
          × (headers_at m' 0x40 16 ≡ record (headers_at m 0x40 16) {
            size_of_image = from_le (to_le 4 (raw_of (length ss) + aligned (length content)));
          })
          × (le_at 2 m' 0x46 ≡ length ss + 1)
          × (sections_at m' 0x148 (length ss + 1)
              ≡ sections_at m 0x148 (length ss) ++ written (length ss) name content m ∷ []))
      → Holds (with_section (length ss) name content m) (record {
        headers = record h { size_of_image = raw_of (length ss) + aligned (length content) };
        sections = ss ++ entry_of (length ss) name content ∷ [];
      })
  section-Holds name eight (fixed, headers, count, table) =
      let k = length ss in
      let more : length (ss ++ entry_of k name content ∷ []) ≡ k + 1 =
        omega (arith, length-append ss (entry_of k name content ∷ [])) in
      let size = raw_of k + aligned (length content) in
      record {
        fixed = fixed;
        room = omega (arith, more);
        count = count ∙ sym more;
        headers =
            headers
            ∙ ap (λ n. record (headers_at m 0x40 16) { size_of_image = n })
                (from_le-four size (omega arith))
            ∙ ap (λ (g : NtHeaders). record g { size_of_image = size }) is.headers;
        table =
            ap (sections_at (with_section k name content m) 0x148) more
            ∙ table
            ∙ ap (λ e. sections_at m 0x148 k ++ e ∷ []) (written-entry_of name)
            ∙ ap (λ t. t ++ entry_of k name content ∷ []) is.table;
        zeros = λ a l u.
            behind name eight a (omega (arith, more)) u ∙ is.zeros a (omega (arith, more)) u;
      }

-- a list of eight, item by item
abbrev spelled : List ℕ → List ℕ
spelled xs =
    get_or xs 0 0
    ∷ get_or xs 1 0
    ∷ get_or xs 2 0
    ∷ get_or xs 3 0
    ∷ get_or xs 4 0
    ∷ get_or xs 5 0
    ∷ get_or xs 6 0
    ∷ get_or xs 7 0
    ∷ []

spelled_lem : (xs : List ℕ) → length xs ≡ 8 → spelled xs ≡ xs
unfolding read
spelled_lem xs eight =
    ap (read (bytes_of xs) 0) (sym eight)
    ∙ read-eq (bytes_of xs) 0 xs (λ i l. ap (λ k. get_or xs k 0) (zero-add i))

section-Holds-spelled :
    (h : NtHeaders) (ss : List SectionHeader) (m : Memory) (name content : List ℕ)
    → Holds m (record { headers = h; sections = ss })
    → length content < 2 ^ 31
    → length ss < 4
    → Holds (with_section (length ss) (spelled name) content m) (record {
      headers = record h { size_of_image = raw_of (length ss) + aligned (length content) };
      sections = ss ++ entry_of (length ss) (spelled name) content ∷ [];
    })
unfolding le_at read write to_le from_le headers_at sizes_at sections_at section_at
section-Holds-spelled h [] m name content is short left =
    section-Holds h [] m is content short left (spelled name) refl (is.fixed, refl, refl, refl)
section-Holds-spelled h (a ∷ []) m name content is short left =
    section-Holds h (a ∷ []) m is content short left (spelled name) refl
      (is.fixed, refl, refl, refl)
section-Holds-spelled h (a ∷ b ∷ []) m name content is short left =
    section-Holds h (a ∷ b ∷ []) m is content short left (spelled name) refl
      (is.fixed, refl, refl, refl)
section-Holds-spelled h (a ∷ b ∷ c ∷ []) m name content is short left =
    section-Holds h (a ∷ b ∷ c ∷ []) m is content short left (spelled name) refl
      (is.fixed, refl, refl, refl)
section-Holds-spelled h (a ∷ b ∷ c ∷ d ∷ ss) m name content is short left = absurd (omega arith)

-- `add_section` adds the entry of the new section, and sets the number of sections and the size.
pub add_section-Holds :
    (h : NtHeaders) (ss : List SectionHeader) (m : Memory) (name content : List ℕ)
    → Holds m (record { headers = h; sections = ss })
    → length name ≡ 8
    → length content < 2 ^ 31
    → length ss < 4
    → Holds (with_section (length ss) name content m) (record {
      headers = record h { size_of_image = raw_of (length ss) + aligned (length content) };
      sections = ss ++ entry_of (length ss) name content ∷ [];
    })
add_section-Holds h ss m name content is eight short left =
    subst
      (λ n. Holds (with_section (length ss) n content m) (record {
        headers = record h { size_of_image = raw_of (length ss) + aligned (length content) };
        sections = ss ++ entry_of (length ss) n content ∷ [];
      }))
      (spelled_lem name eight) (section-Holds-spelled h ss m name content is short left)

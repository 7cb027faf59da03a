-- ===== src/Loader/Protection/Sample.antt =====
-- A firmware with page tables, which takes requests for whole pages only, and an image whose code
-- starts at a page: test data.
use stub.Prelude.{
  ℕ, ◌%◌, ◌/◌, ◌≡◌, refl, ap, Bool, true, false, not, ◌&&◌, List, [], ◌∷◌, arith, All, in_range,
  if◌then◌else◌, ◌==◌, Bool-cases, inl, inr,
}
use stub.Machine.{Machine, Firmware, Status, is_success, Call}
use stub.Pe.Kernel.{Image}
use stub.Pe.Sample.{text, kernel}
use stub.Loader.Protection.{efi_memory_ro, efi_memory_xp}
use stub.Loader.Protection.Blocks.{called}
use stub.Loader.Protection.Attributes.{Pages, IsPages, AtPages, Answers, Honest, Grants}
use stub.Loader.Start.Protected.{attribute_requests}

-- whether a range is one or more whole pages, and what the firmware says to a request for it
abbrev paged : ℕ → ℕ → Bool
paged at len = at % 0x1000 == 0 && (len % 0x1000 == 0 && not (len == 0))

abbrev pub answer : ℕ → ℕ → Status
answer at len = if paged at len then Status.success else Status.invalid_parameter

abbrev in_pages : ℕ → ℕ → ℕ → Bool
in_pages at len page = in_range (at / 0x1000) (len / 0x1000) page

-- The page tables, by page number, as the granted calls left them, the last one first: pages are
-- writable and not executable at first.
abbrev pub read_only_after : List Call → ℕ → Bool
read_only_after [] page = false
read_only_after (Call.set_memory_attributes this at len attributes ∷ calls) page =
    let before = read_only_after calls page in
    if attributes == efi_memory_ro && paged at len
    then (if in_pages at len page then true else before)
    else before
read_only_after (Call.clear_memory_attributes this at len attributes ∷ calls) page =
    let before = read_only_after calls page in
    if attributes == efi_memory_ro && paged at len
    then (if in_pages at len page then false else before)
    else before
read_only_after (_ ∷ calls) page = read_only_after calls page

abbrev pub no_execute_after : List Call → ℕ → Bool
no_execute_after [] page = true
no_execute_after (Call.clear_memory_attributes this at len attributes ∷ calls) page =
    let before = no_execute_after calls page in
    if attributes == efi_memory_xp && paged at len
    then (if in_pages at len page then false else before)
    else before
no_execute_after (_ ∷ calls) page = no_execute_after calls page

abbrev pub pages : Pages
pages = record {
  read_only = λ s a. read_only_after (attribute_requests s.calls) (a / 0x1000);
  no_execute = λ s a. no_execute_after (attribute_requests s.calls) (a / 0x1000);
}

paged-IsPages : (at len : ℕ) → IsPages at len → paged at len ≡ true
paged-IsPages at len whole = ground (arith, whole)

in_pages-in_range :
    (at len a : ℕ) → paged at len ≡ true → in_pages at len (a / 0x1000) ≡ in_range at len a
in_pages-in_range at len a whole = ground (arith, whole)

-- The requests for read-only memory, for a firmware that answers as above.
pub set_ro-Answers :
    (s : Machine) (at len : ℕ)
    → Answers
        (is_success (answer at len))
        pages.read_only
        true
        at
        len
        s
        (called (Call.set_memory_attributes 0x300 at len efi_memory_ro) s)
set_ro-Answers s at len = elim (Bool-cases (paged at len)) [
  | inr partial ↦ rw partial (λ a. refl)
  | inl whole ↦
      rw whole
        (λ a. ap (λ b. if b then true else pages.read_only s a) (in_pages-in_range at len a whole))
]

pub clear_ro-Answers :
    (s : Machine) (at len : ℕ)
    → Answers
        (is_success (answer at len))
        pages.read_only
        false
        at
        len
        s
        (called (Call.clear_memory_attributes 0x300 at len efi_memory_ro) s)
clear_ro-Answers s at len = elim (Bool-cases (paged at len)) [
  | inr partial ↦ rw partial (λ a. refl)
  | inl whole ↦
      rw whole
        (λ a. ap (λ b. if b then false else pages.read_only s a) (in_pages-in_range at len a whole))
]

clear_xp-Answers :
    (s : Machine) (at len : ℕ)
    → Answers
        (is_success (answer at len))
        pages.no_execute
        false
        at
        len
        s
        (called (Call.clear_memory_attributes 0x300 at len efi_memory_xp) s)
clear_xp-Answers s at len = elim (Bool-cases (paged at len)) [
  | inr partial ↦ rw partial (λ a. refl)
  | inl whole ↦
      rw whole (λ a.
        ap (λ b. if b then false else pages.no_execute s a) (in_pages-in_range at len a whole))
]

-- a firmware with these page tables
abbrev pub tabled : Firmware → Firmware
tabled firmware = record firmware {
  set_memory_attributes = λ s this at len attributes. answer at len;
  clear_memory_attributes = λ s this at len attributes. answer at len;
}

module _ (firmware : Firmware) where
  pub honest : Honest (tabled firmware) 0x300 pages
  honest = record {
    set_ro = λ s at len. (set_ro-Answers s at len, λ a. refl);
    clear_xp = λ s at len. (clear_xp-Answers s at len, λ a. refl);
    clear_ro = λ s at len. (clear_ro-Answers s at len, λ a. refl);
  }

  pub grants : Grants (tabled firmware) 0x300
  grants = record {
    ro = λ s at len whole. rw (paged-IsPages at len whole) refl;
    xp = λ s at len whole. rw (paged-IsPages at len whole) refl;
  }

-- code at the first byte of the image
abbrev pub aligned : Image
aligned = record kernel { sections = record text { virtual_address = 0 } ∷ [] }

pub at_pages : All (AtPages aligned 0x1000_0000) aligned.sections
at_pages = ((λ code. (refl, refl, omega arith)), tt)

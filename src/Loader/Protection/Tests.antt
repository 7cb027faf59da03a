-- ===== src/Loader/Protection/Tests.antt =====
-- `apply` at the sample kernel, whose first section holds code.
use stub.Prelude.{◌≡◌, ◌⊎◌, ◌++◌, refl, true, List, [], ◌∷◌, All, arith, if◌then◌else◌, ◌==◌, ◌*◌}
use stub.Machine.{Machine, Firmware, Status, ok, Call}
use stub.Machine.Sample.{firmware, start}
use stub.Pe.Sample.{kernel, sections}
use stub.Loader.Mapping.{page_count}
use stub.Loader.Mapping.Section.{IsHeader}
use stub.Loader.Protection.{efi_memory_ro, protect_range, protect_section, protect_each, apply}
use stub.Loader.Protection.Blocks.{Sweep, apply-Sweep}
use stub.Loader.Protection.Attributes.{Pages, Honest, ReadExecute, SameAt, NoneLeft, InCode}
use stub.Loader.Protection.Sweeps.{apply-ReadExecute, apply-NoneLeft}
use stub.Loader.Protection.Sample.{
  pages, answer, set_ro-Answers, clear_ro-Answers, tabled, honest, grants, aligned, at_pages,
}
use stub.Loader.Protection.Inside.{Inside, apply-Inside}

headers : All IsHeader sections
headers = ground arith

-- One page, from where the code section was placed: read-only first, then executable.
asked_ranges :
    (apply firmware 0x300 0x1000_0000 kernel start).1.calls
    ≡ Call.clear_memory_attributes 0x300 0x1000_0002 0x1000 0x4000
      ∷ Call.set_memory_attributes 0x300 0x1000_0002 0x1000 0x2_0000
      ∷ []
unfolding apply protect_each protect_section protect_range
asked_ranges = refl

apply-Sweep_example :
    (t : Machine) × (apply firmware 0x300 0x1000_0000 kernel start ≡ (ok tt, t))
    × Sweep firmware 0x300 kernel 0x1000_0000 sections start t
apply-Sweep_example = apply-Sweep firmware 0x300 kernel 0x1000_0000 start headers (omega arith)

aligned_headers : All IsHeader aligned.sections
aligned_headers = ground arith

abbrev paging : Firmware
paging = tabled firmware

apply-ReadExecute_example :
    (t : Machine) × (apply paging 0x300 0x1000_0000 aligned start ≡ (ok tt, t))
    × ((InCode aligned 0x1000_0000 0x1000_0003 aligned.sections × ReadExecute pages t 0x1000_0003)
        ⊎ (¬ InCode aligned 0x1000_0000 0x1000_0003 aligned.sections
            × SameAt pages start t 0x1000_0003))
apply-ReadExecute_example =
    apply-ReadExecute paging 0x300 pages (honest firmware) aligned 0x1000_0000 start aligned_headers
      (omega arith) 0x1000_0003 (grants firmware) at_pages

-- grants all but executable memory
abbrev strict : Firmware
strict = record paging {
  clear_memory_attributes = λ s this at len attributes.
      if attributes == efi_memory_ro then answer at len else Status.other 15;
}

abbrev strict_pages : Pages
strict_pages = record pages { no_execute = λ s a. true }

strict_honest : Honest strict 0x300 strict_pages
strict_honest = record {
  set_ro = λ s at len. (set_ro-Answers s at len, λ a. refl);
  clear_xp = λ s at len. ((λ a. refl), (λ a. refl));
  clear_ro = λ s at len. (clear_ro-Answers s at len, λ a. refl);
}

apply-NoneLeft_example :
    (t : Machine) × (apply strict 0x300 0x1000_0000 aligned start ≡ (ok tt, t))
    × NoneLeft strict_pages start t 0x1000_0003
apply-NoneLeft_example =
    apply-NoneLeft strict 0x300 strict_pages strict_honest aligned 0x1000_0000 start aligned_headers
      (omega arith) 0x1000_0003 (λ s t at len granted. granted)

apply-Inside_example :
    (t : Machine) × (calls : List Call) × (apply strict 0x300 0x1000_0000 aligned start
      ≡ (ok tt, t))
    × (t.calls ≡ calls ++ start.calls)
    × All (Inside 0x1000_0000 (page_count aligned.size * 0x1000)) calls
apply-Inside_example =
    apply-Inside strict 0x300 aligned 0x1000_0000 start aligned_headers (omega arith) refl
      ((record { above = omega arith; inside = omega arith; backed = ground arith }, refl), tt)

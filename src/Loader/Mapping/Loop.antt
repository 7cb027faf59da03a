-- ===== src/Loader/Mapping/Loop.antt =====
-- The loop of `map_sections` in src/pe/loader/mapping.rs over the section
-- table.
use stub.Prelude.{ℕ, ◌+◌, ◌≤◌, ◌≡◌, ◌⊎◌, inl, inr, refl, ap, ◌∙◌, List, [], ◌∷◌, arith, All}
use stub.Word.{usize_end}
use stub.Memory.Laws.{Outside}
use stub.Machine.{Machine, Outcome, ok, err, gone, Error, Action}
use stub.Machine.Bind.{bind-ok, bind-err}
use stub.Pe.Kernel.{Image, SectionHeader}
use stub.Loader.Mapping.{copy_section_data, zero_section_tail, map_section, map_each}
use stub.Loader.Mapping.Section.{
  IsHeader, Fits, placed, map_section-Fits, Fits-map_section, map_section-err,
}
use stub.Loader.Mapping.Layout.{placed_all, placed-Outside}

-- A machine that differs at most in the memory of the image.
pub record Confined (base size : ℕ) (s s' : Machine) : Type 0 where
  pub calls : s'.calls ≡ s.calls
  pub file_ptr : s'.file_ptr ≡ s.file_ptr
  pub file_len : s'.file_len ≡ s.file_len
  pub outside : (a : ℕ) → Outside base size a → s'.memory a ≡ s.memory a

-- A section fits and is placed, or it does not and the machine stays as it was.
abbrev Placing : Image → ℕ → SectionHeader → Machine → Outcome (Unit {0}) × Machine → Type 0
Placing kernel base section s r =
    (Fits kernel section × (r ≡ (ok tt, record s { memory = placed kernel base section s.memory })))
    ⊎ (¬ Fits kernel section × ((e : Error) × (r ≡ (err e, s))))

module _ (kernel : Image) (base : ℕ) (room : base + kernel.size ≤ usize_end) where
  map_section-not-gone :
      (section : SectionHeader) (s s' : Machine)
      → ¬ (map_section kernel kernel.size base section s ≡ (gone, s'))
  map_section-not-gone section s s' e =
      unfold map_section copy_section_data zero_section_tail in ground arith

  map_section-Placing :
      (section : SectionHeader) (s : Machine)
      → IsHeader section
      → Placing kernel base section s (map_section kernel kernel.size base section s)
  map_section-Placing section s header = split (map_section kernel kernel.size base section s) refl
    where
      when_ok :
          Fits kernel section
          → Placing kernel base section s (map_section kernel kernel.size base section s)
      when_ok fits = inl (fits, map_section-Fits kernel base section s header fits)

      split :
          (r : Outcome (Unit {0}) × Machine)
          → map_section kernel kernel.size base section s ≡ r
          → Placing kernel base section s (map_section kernel kernel.size base section s)
      split (ok u, s') e = when_ok (Fits-map_section kernel base section s header e)
      split (err x, s') e = inr (
        λ fits. cc (map_section-Fits kernel base section s header fits),
        (x, e ∙ ap (λ t. (err x, t)) (map_section-err kernel base section s header e)),
      )
      split (gone, s') e = absurd (map_section-not-gone section s s' e)

  Confined-trans :
      (s t u : Machine)
      → Confined base kernel.size s t
      → Confined base kernel.size t u
      → Confined base kernel.size s u
  Confined-trans s t u p q = record {
    calls = q.calls ∙ p.calls;
    file_ptr = q.file_ptr ∙ p.file_ptr;
    file_len = q.file_len ∙ p.file_len;
    outside = λ a out. q.outside a out ∙ p.outside a out;
  }

  placed-Confined :
      (section : SectionHeader) (s : Machine)
      → Fits kernel section
      → Confined base kernel.size s (record s { memory = placed kernel base section s.memory })
  placed-Confined section s fits = record {
    calls = refl;
    file_ptr = refl;
    file_len = refl;
    outside = λ a out. placed-Outside kernel base room section s.memory a fits out;
  }

  -- The loop places every section, or stops at one that does not fit.
  abbrev pub Mapping : List SectionHeader → Machine → Outcome (Unit {0}) × Machine → Type 0
  Mapping ss s r =
      (All (Fits kernel) ss
        × (r ≡ (ok tt, record s { memory = placed_all kernel base ss s.memory })))
      ⊎ (¬ All (Fits kernel) ss
          × ((e : Error) × (s' : Machine) × (r ≡ (err e, s')) × Confined base kernel.size s s'))

  pub map_each-Mapping :
      (ss : List SectionHeader) (s : Machine)
      → All IsHeader ss
      → Mapping ss s (map_each kernel kernel.size base ss s)
  unfolding map_each
  map_each-Mapping [] s headers = inl (tt, refl)
  map_each-Mapping (section ∷ ss) s headers =
      first (map_section-Placing section s headers.0)
        (map_each-Mapping ss (record s { memory = placed kernel base section s.memory }) headers.1)
    where
      next : Unit {0} → Action (Unit {0})
      next _ = map_each kernel kernel.size base ss

      run :
          {s' : Machine}
          → map_section kernel kernel.size base section s ≡ (ok tt, s')
          → map_each kernel kernel.size base (section ∷ ss) s
            ≡ map_each kernel kernel.size base ss s'
      run = bind-ok (map_section kernel kernel.size base section) next s

      first :
          Placing kernel base section s (map_section kernel kernel.size base section s)
          → (let s' = record s { memory = placed kernel base section s.memory } in
              Mapping ss s' (map_each kernel kernel.size base ss s'))
          → Mapping (section ∷ ss) s (map_each kernel kernel.size base (section ∷ ss) s)
      first (inl (fits, e)) (inl (rest, e')) = inl ((fits, rest), run e ∙ e')
      first (inl (fits, e)) (inr (not_rest, (x, s', e', confined))) = inr (
        λ all. not_rest all.1,
        (x, s', run e ∙ e', Confined-trans s _ s' (placed-Confined section s fits) confined),
      )
      first (inr (not_fits, (x, e))) rest = inr (
        λ all. not_fits all.0,
        (
          x,
          s,
          bind-err (map_section kernel kernel.size base section) next s e,
          record { calls = refl; file_ptr = refl; file_len = refl; outside = λ a out. refl },
        ),
      )

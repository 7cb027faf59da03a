-- ===== src/Loader/Start/Steps.antt =====
-- The steps of `start` in src/pe/loader/mod.rs between mapping and entry: what each keeps.
use stub.Prelude.{
  ℕ, ◌+◌, ◌≤◌, ◌<◌, ◌≡◌, ◌≢◌, ◌⊎◌, inl, inr, refl, ap, ◌∙◌, true, false, Option, none, some, List,
  [], ◌∷◌, ◌++◌, arith, All, Bool-cases, ◌==◌, if◌then◌else◌,
}
use stub.Word.{u32_end, u64_end}
use stub.Memory.{read}
use stub.Memory.Laws.{Apart}
use stub.Machine.{Machine, ok, Firmware, Call, MemoryType, resume, pure, ◌>>=◌}
use stub.Pe.Kernel.{Image, SectionHeader}
use stub.Loader.Mapping.Section.{IsHeader}
use stub.Loader.Protocol.{locate_raw, found}
use stub.Loader.Protection.{locate, memory_attribute_guid}
use stub.Loader.Protection.Blocks.{Range, Sweep, apply-Sweep}
use stub.Loader.Cmdline.{strip_trailing_terminators}
use stub.Loader.Cmdline.Ucs2.{ucs2}
use stub.Loader.Cmdline.Encode.{buffer_size, encode_ucs2-empty, encode_ucs2-IsEncoded}
use stub.Loader.Start.{protect_at, protect, set_cmdline}

-- Two machines with the same memory and statics.
pub record SameMemory (s t : Machine) : Type 0 where
  pub memory : t.memory ≡ s.memory
  pub file_ptr : t.file_ptr ≡ s.file_ptr
  pub file_len : t.file_len ≡ s.file_len

SameMemory-trans : (s t u : Machine) → SameMemory s t → SameMemory t u → SameMemory s u
SameMemory-trans s t u p q = record {
  memory = q.memory ∙ p.memory;
  file_ptr = q.file_ptr ∙ p.file_ptr;
  file_len = q.file_len ∙ p.file_len;
}

module _ (firmware : Firmware) where
  Range-SameMemory :
      (proto at len : ℕ) (s t : Machine) → Range firmware proto at len s t → SameMemory s t
  Range-SameMemory proto at len s t (Range.refused _ e) =
      rw e (record { memory = refl; file_ptr = refl; file_len = refl })
  Range-SameMemory proto at len s t (Range.protected _ _ e) =
      rw e (record { memory = refl; file_ptr = refl; file_len = refl })
  Range-SameMemory proto at len s t (Range.rolled_back _ _ e) =
      rw e (record { memory = refl; file_ptr = refl; file_len = refl })

  Sweep-SameMemory :
      (proto : ℕ) (kernel : Image) (base : ℕ) {sections : List SectionHeader} {s t : Machine}
      → Sweep firmware proto kernel base sections s t
      → SameMemory s t
  Sweep-SameMemory proto kernel base Sweep.done = record {
    memory = refl;
    file_ptr = refl;
    file_len = refl;
  }
  Sweep-SameMemory proto kernel base (Sweep.other _ rest) = Sweep-SameMemory proto kernel base rest
  Sweep-SameMemory proto kernel base (Sweep.code {s} {t} {u} _ range rest) =
      SameMemory-trans s t u (Range-SameMemory proto _ _ s t range)
        (Sweep-SameMemory proto kernel base rest)

  locate-SameMemory :
      (s : Machine)
      → (found : Option ℕ) × (t : Machine) × (locate firmware s ≡ (ok found, t)) × SameMemory s t
  unfolding locate locate_raw
  locate-SameMemory s = elim (Bool-cases (firmware.has_system_table s)) [
    | inr missing ↦
        (none, s, rw missing, record { memory = refl; file_ptr = refl; file_len = refl })
    | inl table ↦ (
      found (firmware.locate_protocol s memory_attribute_guid),
      record s { calls = Call.locate_protocol memory_attribute_guid ∷ s.calls },
      rw table,
      record { memory = refl; file_ptr = refl; file_len = refl },
    )
  ]

  protect-plain :
      (kernel : Image) (base : ℕ) (s : Machine)
      → kernel.nx_compat ≡ false
      → protect firmware base kernel s ≡ (ok tt, s)
  unfolding protect
  protect-plain kernel base s plain = rw plain

  pub protect-nx :
      (kernel : Image) (base : ℕ) (s : Machine)
      → kernel.nx_compat ≡ true
      → protect firmware base kernel s
        ≡ resume (λ proto. protect_at firmware proto base kernel) (locate firmware s)
  unfolding protect
  protect-nx kernel base s nx =
      ap
        (λ b.
          (if b
              then (locate firmware >>= λ proto. protect_at firmware proto base kernel)
              else pure tt)
            s)
        nx

  protect_at-SameMemory :
      (kernel : Image) (base : ℕ) (proto : Option ℕ) (s : Machine)
      → All IsHeader kernel.sections
      → base + u32_end ≤ u64_end
      → (t : Machine) × (protect_at firmware proto base kernel s ≡ (ok tt, t)) × SameMemory s t
  unfolding protect_at
  protect_at-SameMemory kernel base none s headers room =
      (s, refl, record { memory = refl; file_ptr = refl; file_len = refl })
  protect_at-SameMemory kernel base (some proto) s headers room =
      let (t, e, sweep) = apply-Sweep firmware proto kernel base s headers room in
      (t, e, Sweep-SameMemory proto kernel base sweep)

  -- Protection goes through whatever the firmware answers, and writes no memory.
  pub protect-SameMemory :
      (kernel : Image) (base : ℕ) (s : Machine)
      → All IsHeader kernel.sections
      → base + u32_end ≤ u64_end
      → (t : Machine) × (protect firmware base kernel s ≡ (ok tt, t)) × SameMemory s t
  protect-SameMemory kernel base s headers room = elim (Bool-cases kernel.nx_compat) [
    | inr plain ↦ (
      s,
      protect-plain kernel base s plain,
      record { memory = refl; file_ptr = refl; file_len = refl },
    )
    | inl nx ↦
        let (proto, m, e, same) = locate-SameMemory s in
        let (t, e', same') = protect_at-SameMemory kernel base proto m headers room in
        (
          t,
          protect-nx kernel base s nx
              ∙ ap (resume (λ proto. protect_at firmware proto base kernel)) e
              ∙ e',
          SameMemory-trans s m t same same',
        )
  ]

-- The command line can be handed over: there is none, or its buffer's size is a u32.
abbrev pub IsShort : Option (List ℕ) → Type 0
IsShort none = Unit
IsShort (some cmdline) = buffer_size (strip_trailing_terminators cmdline) < u32_end

-- The pool answers every request with memory that is not null and apart from the image.
pub record GrantsPool (firmware : Firmware) (base size : ℕ) : Type 0 where
  pub grant :
      (t : Machine) (n : ℕ)
      → (ptr : ℕ) × (firmware.allocate_pool t MemoryType.loader_data n ≡ some ptr)
        × (ptr ≢ 0)
        × Apart ptr n base size

-- What the kernel finds as its load options: the trimmed command line, if anything is left of it.
abbrev pub Options : Option (List ℕ) → Machine → Type 0
Options none t = Unit
Options (some cmdline) t =
    let cmd = strip_trailing_terminators cmdline in
    (cmd ≡ [])
    ⊎ ((ptr : ℕ) × (rest : List Call) × (t.calls
          ≡ Call.set_load_options ptr (buffer_size cmd) ∷ rest)
        × (read t.memory ptr (buffer_size cmd) ≡ ucs2 cmd ++ 0 ∷ 0 ∷ []))

-- Nothing in the image has changed.
abbrev pub SameImage : ℕ → ℕ → Machine → Machine → Type 0
SameImage base size s t = (o : ℕ) → o < size → t.memory (base + o) ≡ s.memory (base + o)

nil-cases : (xs : List ℕ) → (xs ≡ []) ⊎ (xs ≢ [])
nil-cases [] = inl refl
nil-cases (x ∷ xs) = inr (λ e. cc)

module _ (firmware : Firmware) (base size : ℕ) (pool : GrantsPool firmware base size)
    (s : Machine) where
  pub set_cmdline-Options :
      (cmdline : Option (List ℕ))
      → IsShort cmdline
      → (t : Machine) × (set_cmdline firmware cmdline s ≡ (ok tt, t))
        × Options cmdline t
        × SameImage base size s t
  unfolding set_cmdline
  set_cmdline-Options none short = (s, refl, tt, λ o l. refl)
  set_cmdline-Options (some cmdline) short = elim (nil-cases (strip_trailing_terminators cmdline)) [
    | inl blank ↦ (s, rw (encode_ucs2-empty firmware cmdline s blank), inl blank, λ o l. refl)
    | inr text ↦
        let n = buffer_size (strip_trailing_terminators cmdline) in
        let (ptr, given, not_null, apart) = pool.grant s n in
        let (m, e, encoded) = encode_ucs2-IsEncoded firmware cmdline s ptr text short given in
        let nonzero : (ptr == 0) ≡ false = ground arith in
        (
          record m { calls = Call.set_load_options ptr n ∷ m.calls },
          rw (e, nonzero),
          inr (ptr, m.calls, refl, encoded.text),
          λ o l. encoded.outside (base + o) (ground arith),
        )
  ]

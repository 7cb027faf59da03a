-- ===== src/Boot/Key.antt =====
-- The LUKS key from the key file to the kernel's load options: src/main.rs, src/policy/ and the
-- loader together.
mod Tests
use stub.Prelude.{
  ℕ, ◌+◌, ◌<◌, ◌≡◌, ◌≢◌, ◌⊎◌, inl, inr, refl, ap, sym, subst, ◌∙◌, Bool, true, false, Option, some,
  List, [], ◌∷◌, ◌++◌, arith, length, length-append, if◌then◌else◌,
}
use stub.Word.{usize_end}
use stub.Memory.{read}
use stub.Machine.{Machine, Outcome, ok, Firmware, Call, Loaded, FileRead}
use stub.Pe.Kernel.{Image}
use stub.Tpm2.{has_handle}
use stub.Policy.{policy_cmdline, copy_cmdline}
use stub.Policy.Luks.{Base64, luks_key_prefix, or_empty}
use stub.Policy.Final.{IsEncoding, with_key, policy_cmdline-with_key, strip-with_key}
use stub.Loader.Cmdline.{strip_trailing_terminators}
use stub.Loader.Cmdline.Ucs2.{ucs2}
use stub.Loader.Cmdline.Encode.{buffer_size}
use stub.Loader.Start.Steps.{Options}
use stub.Loader.Start.Entry.{start-IsReady}
use stub.Boot.{Platform, Sections, choose_cmdline, main}
use stub.Boot.Order.{opened}
use stub.Boot.Stages.{Found, load-Stages}
use stub.Boot.Initrd.{Boots, main-start}

-- The machine has no TPM, and this key in its key file, whenever asked.
pub record HasKey (firmware : Firmware) (key : List ℕ) : Type 0 where
  pub no_tpm : (t : Machine) → has_handle (firmware.locate_tcg t) ≡ false
  pub file : (t : Machine) → firmware.read_luks t ≡ FileRead.contents key
  pub some_key : key ≢ []

module _ (firmware : Firmware) (platform : Platform) where
  choose_cmdline-muak :
      (base : Option (List ℕ)) (s : Machine)
      → platform.muak ≡ true
      → choose_cmdline firmware platform base s ≡ policy_cmdline firmware platform.base64 base s
  unfolding choose_cmdline
  choose_cmdline-muak base s muak =
      ap
        (λ b.
          (if b then policy_cmdline firmware platform.base64 base else copy_cmdline firmware base)
            s)
        muak

  module _ (text : List ℕ → List ℕ) (encodes : IsEncoding platform.base64 text) (key : List ℕ)
      (has : HasKey firmware key) (muak : platform.muak ≡ true) where
    -- the load options of a command line with the key
    Options-with_key :
        (base : List ℕ) (t : Machine)
        → length base + 10 + length (text key) < usize_end
        → Options (some (with_key base (text key))) t
        → let line = with_key base (text key) in
          (ptr : ℕ) × (rest : List Call) × (t.calls
            ≡ Call.set_load_options ptr (buffer_size line) ∷ rest)
          × (read t.memory ptr (buffer_size line) ≡ ucs2 line ++ 0 ∷ 0 ∷ [])
    Options-with_key base t short options =
        let line = with_key base (text key) in
        let size : length line < usize_end = omega (
          arith,
          length-append (base ++ luks_key_prefix) (text key),
          length-append base luks_key_prefix,
        ) in
        let kept = strip-with_key platform.base64 text base key encodes has.some_key size in
        elim options [
          | inl blank ↦ absurd (
              encodes.nonempty key has.some_key
                (tail_nil (base ++ luks_key_prefix) (text key) (sym kept ∙ blank)))
          | inr (ptr, rest, calls, bytes) ↦ (
            ptr,
            rest,
            calls ∙ ap (λ l. Call.set_load_options ptr (buffer_size l) ∷ rest) kept,
            ap (λ l. read t.memory ptr (buffer_size l)) (sym kept)
                ∙ bytes
                ∙ ap (λ l. ucs2 l ++ 0 ∷ 0 ∷ []) kept,
          )
        ]
      where
        tail_nil : (xs ys : List ℕ) → xs ++ ys ≡ [] → ys ≡ []
        tail_nil [] ys e = e
        tail_nil (x ∷ xs) ys e = cc

    -- In a build of muak, if there is no TCG2 handle and a key file that is not empty, whenever
    -- asked, the encoder behaves as documented, the image handle is not null, LoadedImage opens,
    -- what main does before start yields a kernel and a command line, CanStart holds of them at
    -- that point, and the combined length is a usize, then the last calls of main are to set the
    -- load options, to close LoadedImage and to enter the kernel, and the load options are the
    -- UCS-2 units, with a zero unit behind them, of the trimmed command line of the image's
    -- sections, or nothing in its place, with " luks.key=" and the encoded key behind it.
    pub main-with_key :
        (s : Machine) (loaded : Loaded) (kernel : Image) (cmdline : Option (List ℕ))
        (before : Machine) (base : ℕ) (sections : Sections)
        → Boots firmware platform s loaded kernel cmdline before base
        → Found firmware platform loaded s sections
        → length (strip_trailing_terminators (or_empty sections.cmdline)) + 10 + length (text key)
          < usize_end
        → let line = with_key (strip_trailing_terminators (or_empty sections.cmdline)) (text key) in
          let t = (main firmware platform s).1 in
          (u : Machine) × (ptr : ℕ) × (rest : List Call) × (t.calls
            ≡ Call.enter_kernel
                (base + kernel.entry_point_rva)
                (firmware.image_handle s)
                (firmware.system_table u)
              ∷ Call.close_loaded_image
              ∷ Call.set_load_options ptr (buffer_size line)
              ∷ rest)
          × (read t.memory ptr (buffer_size line) ≡ ucs2 line ++ 0 ∷ 0 ∷ [])
    main-with_key s loaded kernel cmdline before base sections boots found short =
        let image_line = strip_trailing_terminators (or_empty sections.cmdline) in
        let stages =
          load-Stages firmware platform loaded kernel cmdline (opened firmware platform s) before
            boots.loads in
        let same : stages.sections ≡ sections = cc (found, stages.found) in
        let chosen =
          sym (choose_cmdline-muak sections.cmdline stages.third muak)
          ∙ ap (λ (x : Sections). choose_cmdline firmware platform x.cmdline stages.third)
              (sym same)
          ∙ stages.chooses in
        let decided =
          policy_cmdline-with_key platform.base64 text encodes firmware sections.cmdline
            stages.third key (has.no_tpm stages.third) has.some_key (has.file _) short in
        let is : cmdline ≡ some (with_key image_line (text key)) = cc (chosen, decided) in
        let (u, e, ready) =
          start-IsReady firmware kernel cmdline before boots.can (firmware.image_handle s) in
        let (ptr, rest, calls, bytes) =
          Options-with_key image_line ready.before short
            (subst (λ c. Options c ready.before) is ready.options) in
        let whole = main-start firmware platform s loaded kernel cmdline before base boots in
        let jump =
          Call.enter_kernel (base + kernel.entry_point_rva) (firmware.image_handle s)
            (firmware.system_table u) in
        let end = whole ∙ ap (λ (r : Outcome (Unit {0}) × Machine). r.1) e in
        (
          u,
          ptr,
          rest,
          ap (λ (m : Machine). m.calls) end
              ∙ ap (λ (m : Machine). jump ∷ m.calls) ready.closed
              ∙ ap (λ cs. jump ∷ Call.close_loaded_image ∷ cs) calls,
          ap (λ m. read m ptr (buffer_size (with_key image_line (text key))))
                (ap (λ (m : Machine). m.memory) end ∙ ap (λ (m : Machine). m.memory) ready.closed)
              ∙ bytes,
        )

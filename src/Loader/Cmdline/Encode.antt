-- ===== src/Loader/Cmdline/Encode.antt =====
-- `encode_ucs2` of src/pe/loader/cmdline.rs, on every branch.
use stub.Prelude.{
  ℕ, suc, ◌+◌, ◌*◌, ◌/◌, ◌^◌, ◌≤◌, ◌<◌, ◌≡◌, ◌≢◌, refl, ◌∙◌, inr, true, false, some, List, [], ◌∷◌,
  ◌++◌, arith, ltb, length,
}
use stub.Word.{u32_end, usize_end}
use stub.Memory.{Memory, write, read}
use stub.Memory.Laws.{Outside, write-Outside, read-write, read-write-Apart, read-append}
use stub.Machine.{Machine, Firmware, ok, err, Error, Call, MemoryType}
use stub.Loader.Cmdline.{
  strip_trailing_terminators, is_empty, fill_chunks, encode_content, encode_ucs2,
}
use stub.Loader.Cmdline.Ucs2.{
  ucs2, units, before_nul, fill_chunks-Outside, read-fill_chunks, before_nul-units-ucs2,
}

-- the bytes of the buffer for a trimmed command line
abbrev pub buffer_size : List ℕ → ℕ
buffer_size cmd = (length cmd + 1) * 2

-- What `encode_ucs2` has done when it returns the buffer at `ptr`: one pool allocation, the
-- text with its terminator in the buffer, and nothing else changed.
pub record IsEncoded (cmd : List ℕ) (ptr : ℕ) (s s' : Machine) : Type 0 where
  pub calls : s'.calls ≡ Call.allocate_pool MemoryType.loader_data (buffer_size cmd) ∷ s.calls
  pub file_ptr : s'.file_ptr ≡ s.file_ptr
  pub file_len : s'.file_len ≡ s.file_len
  pub text : read s'.memory ptr (buffer_size cmd) ≡ ucs2 cmd ++ 0 ∷ 0 ∷ []
  pub outside : (a : ℕ) → Outside ptr (buffer_size cmd) a → s'.memory a ≡ s.memory a

-- the memory after the loop and the write of the terminator
abbrev encoded : ℕ → List ℕ → Memory → Memory
encoded ptr cmd m =
    write (ptr + 2 * length cmd) (0 ∷ 0 ∷ []) (fill_chunks ptr (suc (length cmd)) cmd m)

encoded-text :
    (ptr : ℕ) (cmd : List ℕ) (m : Memory)
    → read (encoded ptr cmd m) ptr (buffer_size cmd) ≡ ucs2 cmd ++ 0 ∷ 0 ∷ []
encoded-text ptr cmd m =
    let n = 2 * length cmd in
    let filled = fill_chunks ptr (suc (length cmd)) cmd m in
    let size : buffer_size cmd ≡ n + 2 = omega arith in
    rw (
      size,
      read-append (encoded ptr cmd m) ptr n 2,
      read-write-Apart (ptr + n) (0 ∷ 0 ∷ []) filled ptr n (inr (omega arith)),
      read-fill_chunks ptr (suc (length cmd)) cmd m (omega arith),
      read-write (ptr + n) (0 ∷ 0 ∷ []) filled,
    )

encoded-Outside :
    (ptr : ℕ) (cmd : List ℕ) (m : Memory) (a : ℕ)
    → Outside ptr (buffer_size cmd) a
    → encoded ptr cmd m a ≡ m a
encoded-Outside ptr cmd m a out =
    let filled = fill_chunks ptr (suc (length cmd)) cmd m in
    write-Outside (ptr + 2 * length cmd) (0 ∷ 0 ∷ []) filled a (ground arith)
    ∙ fill_chunks-Outside ptr (suc (length cmd)) cmd m a (ground arith)

encode_content-encoded :
    (firmware : Firmware) (cmd : List ℕ) (s : Machine) (ptr : ℕ)
    → buffer_size cmd < u32_end
    → firmware.allocate_pool s MemoryType.loader_data (buffer_size cmd) ≡ some ptr
    → encode_content firmware cmd s ≡ (
      ok (ptr, buffer_size cmd),
      record s {
        memory = encoded ptr cmd s.memory;
        calls = Call.allocate_pool MemoryType.loader_data (buffer_size cmd) ∷ s.calls;
      },
    )
unfolding encode_content
encode_content-encoded firmware cmd s ptr small answer =
    let one : ltb (length cmd + 1) usize_end ≡ true = ground arith in
    let bytes : ltb (buffer_size cmd) usize_end ≡ true = ground arith in
    let word : ltb (buffer_size cmd) u32_end ≡ true = ground arith in
    let chunks : buffer_size cmd / 2 ≡ suc (length cmd) = omega arith in
    rw (one, bytes, word, answer, chunks)

encode_content-too_large :
    (firmware : Firmware) (cmd : List ℕ) (s : Machine)
    → length cmd < 2 ^ 62
    → u32_end ≤ buffer_size cmd
    → encode_content firmware cmd s ≡ (err Error.cmdline_too_large, s)
unfolding encode_content
encode_content-too_large firmware cmd s short large =
    let one : ltb (length cmd + 1) usize_end ≡ true = ground arith in
    let bytes : ltb (buffer_size cmd) usize_end ≡ true = ground arith in
    let word : ltb (buffer_size cmd) u32_end ≡ false = ground arith in rw (one, bytes, word)

module _ (firmware : Firmware) (cmdline : List ℕ) (s : Machine) where
  abbrev cmd : List ℕ
  cmd = strip_trailing_terminators cmdline

  nonempty : cmd ≢ [] → is_empty cmd ≡ false
  nonempty h = ground arith

  -- A command line that is all NULs and white space gives the null pointer and no allocation.
  pub encode_ucs2-empty : cmd ≡ [] → encode_ucs2 firmware cmdline s ≡ (ok (0, 0), s)
  unfolding encode_ucs2
  encode_ucs2-empty e = rw e

  pub encode_ucs2-content :
      cmd ≢ [] → encode_ucs2 firmware cmdline s ≡ encode_content firmware cmd s
  unfolding encode_ucs2
  encode_ucs2-content h = rw (nonempty h)

  -- If something is left of the trimmed command line, its buffer size is a u32 and the pool gives
  -- the buffer, then encode_ucs2 returns the buffer and its size, each byte of the trimmed command
  -- line stands there as one 16-bit unit with a zero unit behind them, one pool allocation is
  -- made, and nothing else changes.
  pub encode_ucs2-IsEncoded :
      (ptr : ℕ)
      → cmd ≢ []
      → buffer_size cmd < u32_end
      → firmware.allocate_pool s MemoryType.loader_data (buffer_size cmd) ≡ some ptr
      → (s' : Machine) × (encode_ucs2 firmware cmdline s ≡ (ok (ptr, buffer_size cmd), s'))
        × IsEncoded cmd ptr s s'
  encode_ucs2-IsEncoded ptr h small answer = (
    record s {
      memory = encoded ptr cmd s.memory;
      calls = Call.allocate_pool MemoryType.loader_data (buffer_size cmd) ∷ s.calls;
    },
    encode_ucs2-content h ∙ encode_content-encoded firmware cmd s ptr small answer,
    record {
      calls = refl;
      file_ptr = refl;
      file_len = refl;
      text = encoded-text ptr cmd s.memory;
      outside = encoded-Outside ptr cmd s.memory;
    },
  )

  -- One whose buffer size is no u32 is refused before any allocation.
  pub encode_ucs2-too_large :
      length cmd < 2 ^ 62
      → u32_end ≤ buffer_size cmd
      → encode_ucs2 firmware cmdline s ≡ (err Error.cmdline_too_large, s)
  encode_ucs2-too_large short large =
      encode_ucs2-content (ground arith) ∙ encode_content-too_large firmware cmd s short large

-- If something is left of the trimmed command line, its buffer size is a u32 and the pool gives
-- the buffer, then encode_ucs2 returns that buffer, and its UCS-2 units up to the first zero unit
-- are the bytes of the trimmed command line up to its first NUL.
pub encode_ucs2-before_nul :
    (firmware : Firmware) (cmdline : List ℕ) (s : Machine) (ptr : ℕ)
    → strip_trailing_terminators cmdline ≢ []
    → buffer_size (strip_trailing_terminators cmdline) < u32_end
    → firmware.allocate_pool s MemoryType.loader_data
        (buffer_size (strip_trailing_terminators cmdline))
      ≡ some ptr
    → (size : ℕ) × (s' : Machine) × (encode_ucs2 firmware cmdline s ≡ (ok (ptr, size), s'))
      × (before_nul (units (read s'.memory ptr size))
          ≡ before_nul (strip_trailing_terminators cmdline))
encode_ucs2-before_nul firmware cmdline s ptr h small answer =
    let cmd = strip_trailing_terminators cmdline in
    let (s', e, encoded) = encode_ucs2-IsEncoded firmware cmdline s ptr h small answer in
    (buffer_size cmd, s', e, rw encoded.text (before_nul-units-ucs2 cmd))

-- ===== src/Loader/Cmdline.antt =====
-- src/pe/loader/cmdline.rs: the command line is trimmed and copied to pool memory as UCS-2.
pub mod Strip
pub mod Encode
pub mod Ucs2
mod Scenarios
mod Tests
use stub.Prelude.{
  ℕ, zero, suc, ◌+◌, ◌-◌, ◌*◌, ◌/◌, ◌^◌, Bool, not, ◌&&◌, Option, none, some, List, [], ◌∷◌, ◌==◌,
  if◌then◌else◌, min, length, slice,
}
use stub.Word.{u32_end, usize_end, fit, checked_add, checked_mul}
use stub.Bytes.{rposition, is_ascii_whitespace}
use stub.Memory.{Memory, write}
use stub.Machine.{
  Machine, Firmware, Action, Error, Call, MemoryType, pure, fail, context, ask, modify, ◌>>=◌, ◌>>◌,
}

-- the bytes that the search from the end stops at
abbrev pub is_content : ℕ → Bool
is_content b = not (b == 0) && not (is_ascii_whitespace b)

-- `usize::saturating_add`
abbrev pub saturating_add : ℕ → ℕ → ℕ
saturating_add a b = min (a + b) (2 ^ 64 - 1)

-- `position.map_or(0, |index| index.saturating_add(1))`
abbrev pub content_end : Option ℕ → ℕ
content_end none = 0
content_end (some index) = saturating_add index 1

abbrev unwrap_or : Option (List ℕ) → List ℕ → List ℕ
unwrap_or none d = d
unwrap_or (some xs) d = xs

-- `strip_trailing_terminators`
unfoldable pub strip_trailing_terminators : List ℕ → List ℕ
strip_trailing_terminators bytes =
    unwrap_or (slice bytes 0 (content_end (rposition is_content bytes))) bytes

abbrev pub is_empty : List ℕ → Bool
is_empty [] = Bool.true
is_empty (_ ∷ _) = Bool.false

-- the loop over `chunks.iter_mut().zip(cmd)`, for the address and number of the chunks left
unfoldable pub fill_chunks : ℕ → ℕ → List ℕ → Memory → Memory
fill_chunks p zero bytes m = m
fill_chunks p (suc n) [] m = m
fill_chunks p (suc n) (b ∷ bytes) m = fill_chunks (p + 2) n bytes (write p (b ∷ 0 ∷ []) m)

-- `chunks.last_mut()`: the address of the last of `n` chunks from `p`
abbrev pub last_chunk : ℕ → ℕ → Option ℕ
last_chunk p zero = none
last_chunk p (suc n) = some (p + 2 * n)

module _ (firmware : Firmware) where
  -- the part of `encode_ucs2` behind the early return; the pointer and the size in bytes
  unfoldable pub encode_content : List ℕ → Action (ℕ × ℕ)
  encode_content cmd = do
    ucs2_len ← context (checked_add (length cmd) 1) Error.cmdline_length_overflow
    byte_size ← context (checked_mul ucs2_len 2) Error.cmdline_byte_overflow
    load_options_size ← context (fit u32_end byte_size) Error.cmdline_too_large
    reply ←
        ask (Call.allocate_pool MemoryType.loader_data byte_size)
          (λ s. firmware.allocate_pool s MemoryType.loader_data byte_size)
    ptr ← context reply Error.cmdline_pool_unavailable
    let chunks = byte_size / 2
    modify (fill_chunks ptr chunks cmd)
    terminator ← context (last_chunk ptr chunks) Error.cmdline_buffer_empty
    modify (write terminator (0 ∷ 0 ∷ []))
    pure (ptr, load_options_size)

  -- `encode_ucs2`; the null pointer is 0
  unfoldable pub encode_ucs2 : List ℕ → Action (ℕ × ℕ)
  encode_ucs2 cmdline =
      let cmd = strip_trailing_terminators cmdline in
      if is_empty cmd then pure (0, 0) else encode_content cmd

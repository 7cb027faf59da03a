-- ===== src/Memory.antt =====
-- Byte-addressed memory: what the raw pointer operations of core::ptr and of slices do to it.
-- These are the pointer writes that src/pe/loader/mapping.rs, src/pe/loader/cmdline.rs and
-- src/loadfile2.rs make.
pub mod Laws
use stub.Prelude.{
  ℕ, zero, suc, ◌+◌, ◌-◌, ◌*◌, List, [], ◌∷◌, Bool, ◌&&◌, if◌then◌else◌, in_range, length, get_or,
}
use stub.Word.{to_le, from_le}

abbrev pub Memory : Type 0
Memory = ℕ → ℕ

-- `ptr::copy_nonoverlapping(bytes.as_ptr(), p, bytes.len())`, the source taken as a value
unfoldable pub write : ℕ → List ℕ → Memory → Memory
write p bs m a = if in_range p (length bs) a then get_or bs (a - p) 0 else m a

-- `ptr::write_bytes(p, v, n)`
unfoldable pub fill : ℕ → ℕ → ℕ → Memory → Memory
fill p v n m a = if in_range p n a then v else m a

-- the `n` bytes from `p`
unfoldable pub read : Memory → ℕ → ℕ → List ℕ
read m p zero = []
read m p (suc n) = m p ∷ read m (suc p) n

-- `*p = n` and `*p` at a `*mut usize`: eight bytes, little-endian
unfoldable pub store_usize : ℕ → ℕ → Memory → Memory
store_usize p n = write p (to_le 8 n)

unfoldable pub load_usize : Memory → ℕ → ℕ
load_usize m p = from_le (read m p 8)

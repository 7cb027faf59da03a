-- ===== src/Loader/Start.antt =====
-- src/pe/loader/mod.rs: `start` maps the kernel, protects it, hands it its command line and jumps
-- to it. The LoadedImage protocol is open when it is called, and is closed on every way out.
pub mod Steps
pub mod Entry
pub mod Region
pub mod Protected
mod Tests
use stub.Prelude.{ℕ, Bool, Option, none, some, List, ◌∷◌, ◌==◌, if◌then◌else◌}
use stub.Word.{u64_end, usize_end, fit, checked_add}
use stub.Machine.{
  Machine, Outcome, ok, err, gone, Firmware, Action, Error, Call, Status, pure, context, ask, ◌>>=◌,
  ◌>>◌,
}
use stub.Pe.Kernel.{Image}
use stub.Loader.Mapping.{map_sections}
use stub.Loader.Protection.{locate, apply}
use stub.Loader.Cmdline.{encode_ucs2}

-- The owner of the open LoadedImage protocol runs `m`, and closes it after that, also on an error.
abbrev pub closing : {A : Type 0} → Action A → Action A
closing m s = let (r, s') = m s in (r, record s' { calls = Call.close_loaded_image ∷ s'.calls })

-- what a jump into the kernel comes to
abbrev pub returned : Option Status → Outcome (Unit {0})
returned none = gone
returned (some status) = err (Error.kernel_returned status)

module _ (firmware : Firmware) where
  -- `if let Some(proto) = protection::locate()`
  unfoldable pub protect_at : Option ℕ → ℕ → Image → Action (Unit {0})
  protect_at none base kernel = pure tt
  protect_at (some proto) base kernel = apply firmware proto base kernel

  unfoldable pub protect : ℕ → Image → Action (Unit {0})
  protect base kernel =
      if kernel.nx_compat
      then (do proto ← locate firmware; protect_at proto base kernel)
      else pure tt

  unfoldable pub set_cmdline : Option (List ℕ) → Action (Unit {0})
  set_cmdline none = pure tt
  set_cmdline (some cmdline) = do
    (ptr, size) ← encode_ucs2 firmware cmdline
    if ptr == 0 then pure tt else ask (Call.set_load_options ptr size) (λ s. tt)

  -- `start` up to `drop(loaded_image)`; the entry address
  unfoldable pub prepare : Image → Option (List ℕ) → Action ℕ
  prepare kernel cmdline = do
    base ← map_sections firmware kernel
    protect base kernel
    ask (Call.set_image base kernel.size) (λ s. tt)
    set_cmdline cmdline
    base_addr ← context (fit u64_end base) Error.base_exceeds_u64
    context (checked_add base_addr kernel.entry_point_rva) Error.entry_overflow

  -- the call of the entry point
  unfoldable pub enter : ℕ → ℕ → Action (Unit {0})
  enter entry image_handle s =
      let table = firmware.system_table s in
      (
        returned (firmware.enter_kernel s entry image_handle table),
        record s { calls = Call.enter_kernel entry image_handle table ∷ s.calls },
      )

  -- `start`
  unfoldable pub start : Image → Option (List ℕ) → ℕ → Action (Unit {0})
  start kernel cmdline image_handle = do
    entry ← closing (prepare kernel cmdline)
    entry_addr ← context (fit usize_end entry) Error.entry_exceeds_usize
    enter entry_addr image_handle

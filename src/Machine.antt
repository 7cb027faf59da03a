-- ===== src/Machine.antt =====
-- The state of the stub and of the memory around it, its actions, and what it asks of the firmware.
--
-- The machine holds the memory that the stub writes, the two statics FILE_PTR and FILE_LEN of
-- src/loadfile2.rs, and the calls made so far, latest first. The firmware, the uefi crate and the
-- file system are not part of this repository: `Firmware` is their answers, as functions of the
-- state at the call, so that they may answer one call in different ways at different times.
mod Code
mod Failure
mod Request
pub mod Bind
pub mod Sample
pub use Code.{Status, is_success}
pub use Failure.{Error}
pub use Request.{Call, MemoryType, FileRead, Node, Loaded}
use stub.Prelude.{ℕ, Option, none, some, List, [], ◌∷◌, Bool, if◌then◌else◌}
use stub.Memory.{Memory}

pub record Machine : Type 0 where
  pub memory : Memory
  pub file_ptr : ℕ
  pub file_len : ℕ
  pub calls : List Call

-- `Result<A, anyhow::Error>`, and `gone`: the kernel has taken over and control never comes back.
pub data Outcome (A : Type 0) : Type 0 where
  ok : A → Outcome A
  err : Error → Outcome A
  gone : Outcome A

abbrev pub Action : Type 0 → Type 0
Action A = Machine → Outcome A × Machine

module _ {A : Type 0} where
  abbrev pub pure : A → Action A
  pure a s = (ok a, s)

  abbrev pub fail : Error → Action A
  fail e s = (err e, s)

  -- `option.context(e)?`
  abbrev pub context : Option A → Error → Action A
  context none e = fail e
  context (some a) e = pure a

  -- One call of the firmware: it is put on record, and answered from the state before it.
  abbrev pub ask : Call → (Machine → A) → Action A
  ask c reply s = (ok (reply s), record s { calls = c ∷ s.calls })

-- what follows an outcome: an error, or the kernel, ends the sequence
abbrev pub resume : {A B : Type 0} → (A → Action B) → Outcome A × Machine → Outcome B × Machine
resume f (ok a, s) = f a s
resume f (err e, s) = (err e, s)
resume f (gone, s) = (gone, s)

infixl 5 ◌>>=◌ ◌>>◌
abbrev pub ◌>>=◌ : {A B : Type 0} → Action A → (A → Action B) → Action B
◌>>=◌ m f s = resume f (m s)

abbrev pub ◌>>◌ : {A B : Type 0} → Action A → Action B → Action B
m >> k = m >>= λ _. k

-- `ensure!(test, e)`
abbrev pub ensure : Bool → Error → Action (Unit {0})
ensure b e s = if b then (ok tt, s) else (err e, s)

abbrev pub modify : (Memory → Memory) → Action (Unit {0})
modify f s = (ok tt, record s { memory = f s.memory })

-- The answers of the firmware and of the crates that stand before it. `none` is an error.
pub record Firmware : Type 0 where
  pub allocate_pages : Machine → ℕ → Option ℕ
  pub allocate_pool : Machine → MemoryType → ℕ → Option ℕ
  -- `system_table_raw()` is present
  pub has_system_table : Machine → Bool
  -- the status of `locate_protocol`, and the interface pointer that it leaves (0 is null)
  pub locate_protocol : Machine → ℕ → Status × ℕ
  pub set_memory_attributes : Machine → ℕ → ℕ → ℕ → ℕ → Status
  pub clear_memory_attributes : Machine → ℕ → ℕ → ℕ → ℕ → Status
  -- `std::os::uefi::env::system_table`
  pub system_table : Machine → ℕ
  -- `none` is a kernel that never returns
  pub enter_kernel : Machine → ℕ → ℕ → ℕ → Option Status
  -- `DevicePathBuilder::push` and `finalize`: whether it went well, and the path's address
  pub push_vendor_node : Machine → ℕ → ℕ → Bool
  pub finalize_device_path : Machine → ℕ → Option ℕ
  pub install_device_path : Machine → ℕ → Option ℕ
  pub install_load_file2 : Machine → ℕ → Bool
  -- `locate_handle_buffer(ByProtocol(Tcg))`
  pub locate_tcg : Machine → Option (List ℕ)
  pub open_tcg : Machine → ℕ → Bool
  -- `PcrEventInputs::new_in_buffer` for a buffer length and an event name
  pub new_event : Machine → ℕ → List ℕ → Bool
  pub hash_log_extend_event : Machine → ℕ → List ℕ → List ℕ → Bool
  pub read_luks : Machine → FileRead
  -- `Vec::try_reserve_exact` for a number of bytes
  pub reserve : Machine → ℕ → Bool
  -- whether `CStr16::from_str_with_buf` takes a name, for a buffer of so many units
  pub to_cstr16 : List ℕ → ℕ → Bool
  -- `variable_exists` is `Ok(true)`; `get_variable` into a buffer of so many bytes;
  -- `set_variable` with the attributes' bits
  pub variable_exists : Machine → List ℕ → Bool
  pub get_variable : Machine → List ℕ → ℕ → Option (List ℕ)
  pub set_variable : Machine → List ℕ → ℕ → List ℕ → Bool
  -- the nodes of a device's path
  pub open_device_path : Machine → ℕ → Option (List Node)
  -- the image handle that the firmware started the stub with (0 is null)
  pub image_handle : Machine → ℕ
  pub open_loaded_image : Machine → ℕ → Option Loaded

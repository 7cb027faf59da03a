-- ===== src/LoadFile2/Scenarios.antt =====
-- The tests of src/loadfile2.rs, each with what it asserts, named after it.
use stub.Prelude.{ℕ, ◌≡◌, refl, Bool, true, false, List, [], ◌∷◌, ◌++◌, length}
use stub.Word.{to_le, from_le}
use stub.Memory.{read, write, load_usize, store_usize}
use stub.Machine.{Machine, Status}
use stub.Machine.Sample.{start}
use stub.LoadFile2.{load_file2_callback, serve}

-- The tests' helpers `set_file_with_len`, `set_file`, `clear_file` and `invoke`, for data that
-- stands at an address.
abbrev pub set_file_with_len : ℕ → ℕ → Machine → Machine
set_file_with_len at len s = record s { file_ptr = at; file_len = len }

abbrev pub set_data : ℕ → List ℕ → Machine → Machine
set_data at bytes = set_file_with_len at (length bytes)

abbrev clear_file : Machine → Machine
clear_file s = record s { file_ptr = 0; file_len = 0 }

abbrev invoke : Bool → ℕ → ℕ → Machine → Status × Machine
invoke boot_policy buffer_size buffer s = load_file2_callback boot_policy buffer_size buffer s

-- data at 0x500, and a size cell `sz` at 0x100
abbrev pub holding : List ℕ → ℕ → Machine
holding bytes sz = record start { memory = write 0x500 bytes (store_usize 0x100 sz start.memory) }

-- "x", "hello" and "hello world"
abbrev hello : List ℕ
hello = b'h' ∷ b'e' ∷ b'l' ∷ b'l' ∷ b'o' ∷ []

abbrev hello_world : List ℕ
hello_world = hello ++ b' ' ∷ b'w' ∷ b'o' ∷ b'r' ∷ b'l' ∷ b'd' ∷ []

abbrev BootPolicyTrueReturnsUnsupported : Type 0
BootPolicyTrueReturnsUnsupported =
    (invoke true 0x100 0 (clear_file (holding [] 0))).0 ≡ Status.unsupported

abbrev NullFilePtrReturnsNotFound : Type 0
NullFilePtrReturnsNotFound = (invoke false 0x100 0 (clear_file (holding [] 0))).0 ≡ Status.not_found

abbrev ZeroFileLenReturnsNotFound : Type 0
ZeroFileLenReturnsNotFound =
    (invoke false 0x100 0 (set_file_with_len 0x500 0 (holding (b'x' ∷ []) 0))).0 ≡ Status.not_found

abbrev NullBufferSizeReturnsInvalidParameter : Type 0
NullBufferSizeReturnsInvalidParameter =
    (invoke false 0 0 (set_data 0x500 hello (holding hello 0))).0 ≡ Status.invalid_parameter

abbrev NullBufferReturnsBufferTooSmallAndSetsSize : Type 0
NullBufferReturnsBufferTooSmallAndSetsSize =
    let (status, after) = invoke false 0x100 0 (set_data 0x500 hello (holding hello 0)) in
    (status ≡ Status.buffer_too_small) × (load_usize after.memory 0x100 ≡ length hello)

-- the buffer of two bytes stands at 0x900
abbrev UndersizedBufferReturnsBufferTooSmall : Type 0
UndersizedBufferReturnsBufferTooSmall =
    let (status, after) = invoke false 0x100 0x900 (set_data 0x500 hello (holding hello 2)) in
    (status ≡ Status.buffer_too_small) × (load_usize after.memory 0x100 ≡ length hello)

abbrev SufficientBufferCopiesDataAndReturnsSuccess : Type 0
SufficientBufferCopiesDataAndReturnsSuccess =
    let size = length hello_world in
    let (status, after) =
      invoke false 0x100 0x900 (set_data 0x500 hello_world (holding hello_world size)) in
    (status ≡ Status.success) × (read after.memory 0x900 size ≡ hello_world)

-- All of them hold.
scenarios :
    BootPolicyTrueReturnsUnsupported × NullFilePtrReturnsNotFound × ZeroFileLenReturnsNotFound
    × NullBufferSizeReturnsInvalidParameter × NullBufferReturnsBufferTooSmallAndSetsSize
    × UndersizedBufferReturnsBufferTooSmall × SufficientBufferCopiesDataAndReturnsSuccess
unfolding load_file2_callback serve store_usize load_usize read write to_le from_le
scenarios = (refl, refl, refl, refl, (refl, refl), (refl, refl), (refl, refl))

-- ===== src/LoadFile2/Tests.antt =====
-- The theorems on src/loadfile2.rs at a file of three bytes.
use stub.Prelude.{ℕ, ◌≡◌, ◌↔◌, refl, inl, inr, false, true, List, [], ◌∷◌, arith}
use stub.Memory.{read, write, load_usize, store_usize}
use stub.Word.{to_le, from_le}
use stub.Machine.{Machine, ok, Status}
use stub.Machine.Sample.{firmware}
use stub.LoadFile2.{Slice, load_file2_callback, install, build_device_path}
use stub.LoadFile2.Scenarios.{set_data, holding}
use stub.LoadFile2.Callback.{IsServed, callback-IsServed, callback_writes}
use stub.LoadFile2.Handshake.{Serves, two_calls}
use stub.LoadFile2.Session.{Step, Reach, Reach-request_file}
use stub.LoadFile2.Install.{IsFile, installation, install-Serves, install-installation}

abbrev file : List ℕ
file = 7 ∷ 8 ∷ 9 ∷ []

-- a file of three bytes stands at 0x500, and the size cell at 0x100 holds 4
abbrev loaded : Machine
loaded = holding file 4

abbrev slice : Slice
slice = record { ptr = 0x500; len = 3 }

abbrev serving : Machine
serving = set_data 0x500 file loaded

is_file : IsFile slice file loaded
unfolding read write store_usize to_le
is_file = record {
  ptr = omega arith;
  len = refl;
  nonempty = omega arith;
  word = omega arith;
  bytes = refl;
}

serves : Serves serving file
unfolding read write store_usize to_le
serves = record {
  ptr = omega arith;
  len = refl;
  nonempty = omega arith;
  word = omega arith;
  bytes = refl;
}

two_calls_example :
    let asked = (load_file2_callback false 0x100 0 serving).1 in
    let (status, got) = load_file2_callback false 0x100 0x900 asked in
    (status ≡ Status.success) × (read got.memory 0x900 (load_usize asked.memory 0x100) ≡ file)
two_calls_example =
    two_calls 0x100 0x900 serving file serves (omega arith) (inl (omega arith)) (omega arith)
      (inr (omega arith)) (inr (omega arith))

callback-IsServed_example :
    ((load_file2_callback false 0x100 0x900 serving).0 ≡ Status.success)
    ↔ IsServed false 0x100 0x900 serving
callback-IsServed_example = callback-IsServed false 0x100 0x900 serving

callback_writes_example : (load_file2_callback false 0x100 0x900 serving).1.memory 0x903 ≡ 0xee
unfolding write store_usize to_le
callback_writes_example = callback_writes false 0x100 0x900 serving 0x903 refl refl

-- a refused boot request, after which the size cell holds 4 as before
after_refusal : Reach serving serving
unfolding load_file2_callback
after_refusal =
    Reach.next Reach.here
      (Step.request true 0x100 0x900 (inl (omega arith)) (inr (omega arith)) refl)

cell_holds_four : load_usize serving.memory 0x100 ≡ 4
unfolding load_usize store_usize read write to_le from_le
cell_holds_four = refl

Reach-request_file_example :
    let (status, got) = load_file2_callback false 0x100 0x900 serving in
    (status ≡ Status.success) × (read got.memory 0x900 3 ≡ file)
Reach-request_file_example =
    Reach-request_file file 0x100 0x900 serves after_refusal (omega arith) (inl (omega arith))
      (omega arith) (rw cell_holds_four (omega arith)) (inr (omega arith)) (inr (omega arith))

install-Serves_example : Serves (install firmware slice 1 loaded).1 file
install-Serves_example = install-Serves firmware slice 1 loaded file is_file

installed : install firmware slice 1 loaded ≡ (ok 7, (install firmware slice 1 loaded).1)
unfolding install build_device_path
installed = refl

install-installation_example :
    (pool : ℕ) × (path : ℕ) × ((install firmware slice 1 loaded).1.calls
      ≡ installation 1 pool path 7 [])
install-installation_example = install-installation firmware slice 1 loaded installed

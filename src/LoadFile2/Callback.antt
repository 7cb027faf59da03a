-- ===== src/LoadFile2/Callback.antt =====
-- `load_file2_callback` of src/loadfile2.rs: which status it returns and what it writes.
use stub.Prelude.{ℕ, ◌≤◌, ◌≡◌, ◌≢◌, ◌↔◌, Bool, false, arith}
use stub.Memory.{read, store_usize, load_usize}
use stub.Memory.Laws.{Outside, write-Outside, store-Outside, length-read}
use stub.Machine.{Machine, Status}
use stub.LoadFile2.{serve, load_file2_callback}

-- The conditions under which the file is copied.
pub record IsServed (boot_policy : Bool) (buffer_size buffer : ℕ) (s : Machine) : Type 0 where
  pub not_boot : boot_policy ≡ false
  pub file : s.file_ptr ≢ 0
  pub length : s.file_len ≢ 0
  pub size_cell : buffer_size ≢ 0
  pub target : buffer ≢ 0
  pub room : s.file_len ≤ load_usize s.memory buffer_size

module _ (boot_policy : Bool) (buffer_size buffer : ℕ) (s : Machine) where
  -- The callback answers Status.success exactly if the request is no boot request, the file's
  -- address and length are not zero, both pointers are given, and the size cell holds at least the
  -- file's length.
  pub callback-IsServed :
      ((load_file2_callback boot_policy buffer_size buffer s).0 ≡ Status.success)
      ↔ IsServed boot_policy buffer_size buffer s
  unfolding load_file2_callback serve
  callback-IsServed = (λ e. ground arith, λ h. ground arith)

  pub callback-statics :
      ((load_file2_callback boot_policy buffer_size buffer s).1.file_ptr ≡ s.file_ptr)
      × ((load_file2_callback boot_policy buffer_size buffer s).1.file_len ≡ s.file_len)
  unfolding load_file2_callback
  callback-statics = (ground arith, ground arith)

  -- Whatever the callback answers, it changes no byte outside the size cell and the first bytes of
  -- the buffer, as many as the file has.
  pub callback_writes :
      (a : ℕ)
      → Outside buffer_size 8 a
      → Outside buffer s.file_len a
      → (load_file2_callback boot_policy buffer_size buffer s).1.memory a ≡ s.memory a
  unfolding load_file2_callback serve
  callback_writes a cell target = ground (
    arith,
    store-Outside buffer_size s.file_len s.memory a cell,
    length-read (store_usize buffer_size s.file_len s.memory) s.file_ptr s.file_len,
    write-Outside buffer (read (store_usize buffer_size s.file_len s.memory) s.file_ptr s.file_len)
        (store_usize buffer_size s.file_len s.memory) a,
  )

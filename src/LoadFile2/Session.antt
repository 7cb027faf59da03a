-- ===== src/LoadFile2/Session.antt =====
-- What can happen between consumers and src/loadfile2.rs after the file is installed: requests in
-- any order and with any arguments, and other writes to memory, as long as none of them is aimed
-- at the file's own bytes.
use stub.Prelude.{ℕ, ◌+◌, ◌≤◌, ◌<◌, ◌≡◌, ◌≢◌, refl, ◌∙◌, Bool, false, List, arith, length}
use stub.Memory.{Memory, read, load_usize}
use stub.Memory.Laws.{Apart, read-same}
use stub.Machine.{Machine, Status, Call}
use stub.LoadFile2.{load_file2_callback}
use stub.LoadFile2.Callback.{callback-statics, callback_writes}
use stub.LoadFile2.Handshake.{Serves, CellApart, BufferApart, request_file}

-- Two machines with the same statics, whose memory agrees on the file's bytes.
record KeepsFile (s t : Machine) : Type 0 where
  ptr : t.file_ptr ≡ s.file_ptr
  len : t.file_len ≡ s.file_len
  bytes : (i : ℕ) → i < s.file_len → t.memory (s.file_ptr + i) ≡ s.memory (s.file_ptr + i)

pub data Step (s t : Machine) : Type 0 where
  -- a call of the protocol, with a size cell and a buffer that are apart from the file
  request :
      (boot_policy : Bool) (cell buffer : ℕ)
      → CellApart cell s
      → BufferApart buffer s
      → t ≡ (load_file2_callback boot_policy cell buffer s).1
      → Step s t
  -- the firmware or a consumer writes memory and makes calls, and the file's bytes stay
  other :
      (m : Memory) (calls : List Call)
      → ((i : ℕ) → i < s.file_len → m (s.file_ptr + i) ≡ s.memory (s.file_ptr + i))
      → t ≡ record s { memory = m; calls = calls }
      → Step s t

pub data Reach (s : Machine) : Machine → Type 0 where
  here : Reach s s
  next : {t u : Machine} → Reach s t → Step t u → Reach s u

Step-KeepsFile : (s t : Machine) → Step s t → KeepsFile s t
Step-KeepsFile s t (request boot cell buffer apart clear e) = rw e (record {
  ptr = (callback-statics boot cell buffer s).0;
  len = (callback-statics boot cell buffer s).1;
  bytes = λ i l. callback_writes boot cell buffer s (s.file_ptr + i) (ground arith) (ground arith);
})
Step-KeepsFile s t (other m calls same e) = rw e (record { ptr = refl; len = refl; bytes = same })

KeepsFile-Serves : (s t : Machine) (file : List ℕ) → KeepsFile s t → Serves s file → Serves t file
KeepsFile-Serves s t file k serves = record {
  ptr = rw k.ptr serves.ptr;
  len = k.len ∙ serves.len;
  nonempty = rw k.len serves.nonempty;
  word = rw k.len serves.word;
  bytes =
      rw (k.ptr, k.len) (read-same s.memory t.memory s.file_ptr s.file_len k.bytes ∙ serves.bytes);
}

-- Whatever has happened since, the file is still served.
pub Reach-Serves : {s t : Machine} (file : List ℕ) → Reach s t → Serves s file → Serves t file
Reach-Serves file here serves = serves
Reach-Serves file (next {t} {u} r step) serves =
    KeepsFile-Serves t u file (Step-KeepsFile t u step) (Reach-Serves file r serves)

-- If a nonempty file is served, then after any sequence of requests whose size cell and buffer are
-- apart from the file, and of other writes that keep the file's bytes, a request is answered with
-- Status.success and the file unchanged, if its cell and buffer are not null, the cell holds at
-- least the file's size, and cell, buffer and file do not overlap.
pub Reach-request_file :
    {s t : Machine} (file : List ℕ) (cell buffer : ℕ)
    → Serves s file
    → Reach s t
    → cell ≢ 0
    → CellApart cell t
    → buffer ≢ 0
    → length file ≤ load_usize t.memory cell
    → BufferApart buffer t
    → Apart buffer t.file_len cell 8
    → let (status, got) = load_file2_callback false cell buffer t in
      (status ≡ Status.success) × (read got.memory buffer (length file) ≡ file)
Reach-request_file {t} file cell buffer serves r given apart target room clear clear_cell =
    let (got, e, bytes, _, _) =
      request_file cell t file (Reach-Serves file r serves) given apart buffer target room clear
        clear_cell in
    rw e (refl, bytes)

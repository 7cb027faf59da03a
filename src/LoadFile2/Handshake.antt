-- ===== src/LoadFile2/Handshake.antt =====
-- The two calls by which a consumer gets the file from src/loadfile2.rs: one with no buffer, for
-- the size, and one with a buffer of that size.
use stub.Prelude.{
  ℕ, ◌≤◌, ◌<◌, ◌≡◌, ◌≢◌, ◌⊎◌, inl, refl, ap, sym, ◌∙◌, true, false, ◌||◌, List, arith, length, ltb,
  ◌==◌,
}
use stub.Word.{usize_end, to_le, length-to_le}
use stub.Memory.{Memory, write, read, store_usize, load_usize}
use stub.Memory.Laws.{Apart, read-write, read-write-Apart, load-store}
use stub.Machine.{Machine, Status}
use stub.LoadFile2.Callback.{callback-statics}
use stub.LoadFile2.{serve, load_file2_callback}

-- The statics point at a nonempty file whose bytes are in memory.
pub record Serves (s : Machine) (file : List ℕ) : Type 0 where
  pub ptr : s.file_ptr ≢ 0
  pub len : s.file_len ≡ length file
  pub nonempty : s.file_len ≢ 0
  pub word : s.file_len < usize_end
  pub bytes : read s.memory s.file_ptr s.file_len ≡ file

-- A size cell, or a buffer, that has no byte in common with the file.
abbrev pub CellApart : ℕ → Machine → Type 0
CellApart buffer_size s = Apart buffer_size 8 s.file_ptr s.file_len

abbrev pub BufferApart : ℕ → Machine → Type 0
BufferApart buffer s = Apart buffer s.file_len s.file_ptr s.file_len

pub load-write-Apart :
    (p : ℕ) (bs : List ℕ) (m : Memory) (cell : ℕ)
    → Apart p (length bs) cell 8
    → load_usize (write p bs m) cell ≡ load_usize m cell
unfolding load_usize
load-write-Apart p bs m cell h = rw (read-write-Apart p bs m cell 8 h)

module _ (m : Memory) (cell n p k : ℕ) where
  pub read-store-Apart : Apart cell 8 p k → read (store_usize cell n m) p k ≡ read m p k
  unfolding store_usize
  read-store-Apart h = read-write-Apart cell (to_le 8 n) m p k (rw (length-to_le 8 n) h)

-- what `serve` answers where the size cell is apart from the file
module _ (ptr len cell buffer : ℕ) (m : Memory) (word : len < usize_end)
    (apart : Apart cell 8 ptr len) where
  pub serve-small :
      (buffer == 0 || ltb (load_usize m cell) len) ≡ true
      → serve ptr len cell buffer m ≡ (Status.buffer_too_small, store_usize cell len m)
  unfolding serve
  serve-small e = rw e

  pub serve-copy :
      (buffer == 0 || ltb (load_usize m cell) len) ≡ false
      → serve ptr len cell buffer m
        ≡ (Status.success, write buffer (read m ptr len) (store_usize cell len m))
  unfolding serve
  serve-copy e = rw (e, read-store-Apart m cell len ptr len apart)

-- the callback once its guards have passed
callback-serve :
    (cell buffer : ℕ) (s : Machine)
    → s.file_ptr ≢ 0
    → s.file_len ≢ 0
    → cell ≢ 0
    → load_file2_callback false cell buffer s ≡ (
        let (status, m) = serve s.file_ptr s.file_len cell buffer s.memory in
        (status, record s { memory = m }))
unfolding load_file2_callback
callback-serve cell buffer s hp hl hc = ground arith

module _ (cell : ℕ) (s : Machine) (file : List ℕ) (serves : Serves s file) (given : cell ≢ 0)
    (apart : CellApart cell s) where
  -- A request without a buffer, or with one that is too small, is answered with the file's size
  -- in the size cell; the file stays.
  pub request_size :
      (buffer : ℕ)
      → (buffer ≡ 0) ⊎ (load_usize s.memory cell < length file)
      → (s' : Machine) × (load_file2_callback false cell buffer s ≡ (Status.buffer_too_small, s'))
        × (load_usize s'.memory cell ≡ length file)
        × Serves s' file
  request_size buffer small = (
    record s { memory = store_usize cell s.file_len s.memory },
    callback-serve cell buffer s serves.ptr serves.nonempty given
        ∙ ap (λ (r : Status × Memory). (r.0, record s { memory = r.1 }))
            (serve-small s.file_ptr s.file_len cell buffer s.memory serves.word apart
              (ground (arith, serves.len))),
    load-store cell s.file_len s.memory serves.word ∙ serves.len,
    record {
      ptr = serves.ptr;
      len = serves.len;
      nonempty = serves.nonempty;
      word = serves.word;
      bytes = read-store-Apart s.memory cell s.file_len s.file_ptr s.file_len apart ∙ serves.bytes;
    },
  )

  -- A request with room gets the file in its buffer and its size in the size cell, and the file
  -- stays.
  pub request_file :
      (buffer : ℕ)
      → buffer ≢ 0
      → length file ≤ load_usize s.memory cell
      → BufferApart buffer s
      → Apart buffer s.file_len cell 8
      → (s' : Machine) × (load_file2_callback false cell buffer s ≡ (Status.success, s'))
        × (read s'.memory buffer (length file) ≡ file)
        × (load_usize s'.memory cell ≡ length file)
        × Serves s' file
  request_file buffer target room clear clear_cell =
      let sized = store_usize cell s.file_len s.memory in
      let stays = read-store-Apart s.memory cell s.file_len s.file_ptr s.file_len apart in
      let same_len : length file ≡ s.file_len = omega (arith, serves.len) in
      (
        record s { memory = write buffer file sized },
        callback-serve cell buffer s serves.ptr serves.nonempty given
            ∙ ap (λ (r : Status × Memory). (r.0, record s { memory = r.1 }))
                (serve-copy s.file_ptr s.file_len cell buffer s.memory serves.word apart
                    (ground (arith, serves.len))
                  ∙ ap (λ bytes. (Status.success, write buffer bytes sized)) serves.bytes),
        read-write buffer file sized,
        load-write-Apart buffer file sized cell (rw same_len clear_cell)
            ∙ load-store cell s.file_len s.memory serves.word
            ∙ serves.len,
        record {
          ptr = serves.ptr;
          len = serves.len;
          nonempty = serves.nonempty;
          word = serves.word;
          bytes =
              read-write-Apart buffer file sized s.file_ptr s.file_len (rw same_len clear)
              ∙ stays
              ∙ serves.bytes;
        },
      )

-- If a nonempty file is served, a consumer that asks for the size without a buffer, and then with
-- a buffer of that size, gets Status.success and the whole file, if neither the size cell nor the
-- buffer is null, and the cell, the buffer and the file do not overlap.
pub two_calls :
    (cell buffer : ℕ) (s : Machine) (file : List ℕ)
    → Serves s file
    → cell ≢ 0
    → CellApart cell s
    → buffer ≢ 0
    → BufferApart buffer s
    → Apart buffer s.file_len cell 8
    → let asked = (load_file2_callback false cell 0 s).1 in
      let (status, got) = load_file2_callback false cell buffer asked in
      (status ≡ Status.success) × (read got.memory buffer (load_usize asked.memory cell) ≡ file)
two_calls cell buffer s file serves given apart target clear clear_cell =
    let (asked, e, size, still) = request_size cell s file serves given apart 0 (inl refl) in
    let (ptr_stays, len_stays) = callback-statics false cell 0 s in
    let same_ptr : asked.file_ptr ≡ s.file_ptr =
      sym (ap (λ (r : Status × Machine). r.1.file_ptr) e) ∙ ptr_stays in
    let same_len : asked.file_len ≡ s.file_len =
      sym (ap (λ (r : Status × Machine). r.1.file_len) e) ∙ len_stays in
    let (got, e', bytes, _, _) =
      request_file cell asked file still given (rw (same_ptr, same_len) apart) buffer target
        (omega (arith, size)) (rw (same_ptr, same_len) clear) (rw same_len clear_cell) in
    rw (e, e', size) (refl, bytes)

-- ===== src/Loader/Cmdline/Strip.antt =====
-- `strip_trailing_terminators` of src/pe/loader/cmdline.rs: what it keeps.
use stub.Prelude.{
  ℕ, ◌-◌, ◌≤◌, ◌<◌, ◌≡◌, refl, ap, sym, subst, fun_ext, ◌∙◌, ◌==◌, ◌||◌, ◌↔◌, append-nil,
  length-append, Bool, not, Option, none, some, List, [], ◌∷◌, arith, length, take, slice,
}
use stub.Word.{usize_end}
use stub.Bytes.{rposition, is_ascii_whitespace, trim_end}
use stub.Bytes.Trim.{Trimmed, end_of, trim_end-Trimmed, take-rposition, Trimmed-unique}
use stub.Loader.Cmdline.{is_content, content_end, strip_trailing_terminators}

-- NUL, space, tab, line feed, form feed and carriage return
abbrev pub is_terminator : ℕ → Bool
is_terminator b = b == 0 || b == 0x20 || b == 0x09 || b == 0x0a || b == 0x0c || b == 0x0d

-- the bytes at which the search does not stop
not_content-is_terminator : (b : ℕ) → not (is_content b) ≡ is_terminator b
unfolding is_ascii_whitespace
not_content-is_terminator b = ground arith

rposition-le : (p : ℕ → Bool) (xs : List ℕ) → end_of (rposition p xs) ≤ length xs
unfolding rposition
rposition-le p [] = omega arith
rposition-le p (x ∷ xs) = ground (arith, rposition-le p xs)

slice_prefix : (xs : List ℕ) (n : ℕ) → n ≤ length xs → slice xs 0 n ≡ some (take n xs)
slice_prefix xs n h = let same : n - 0 ≡ n = omega arith in ground (arith, ap (λ k. take k xs) same)

content_end-end_of :
    (found : Option ℕ) → end_of found < usize_end → content_end found ≡ end_of found
content_end-end_of none h = refl
content_end-end_of (some i) h = omega arith

strip-trim_end :
    (bytes : List ℕ)
    → length bytes < usize_end
    → strip_trailing_terminators bytes ≡ trim_end is_terminator bytes
unfolding strip_trailing_terminators
strip-trim_end bytes h =
    let inside = rposition-le is_content bytes in
    rw
      (
        content_end-end_of (rposition is_content bytes) (omega (arith, inside)),
        slice_prefix bytes (end_of (rposition is_content bytes)) inside,
      )
      (take-rposition is_content bytes
        ∙ ap (λ p. trim_end p bytes) (fun_ext not_content-is_terminator))

-- For bytes of a length below 2 ^ 64, the trimmed command line is the one prefix that is followed
-- by NULs, spaces, tabs, line feeds, form feeds and carriage returns alone and does not itself end
-- in one.
pub strip-Trimmed :
    (bytes kept : List ℕ)
    → length bytes < usize_end
    → (strip_trailing_terminators bytes ≡ kept) ↔ Trimmed is_terminator bytes kept
strip-Trimmed bytes kept h = rw (strip-trim_end bytes h) (
  λ e. subst (Trimmed is_terminator bytes) e (trim_end-Trimmed is_terminator bytes),
  λ t. sym (Trimmed-unique is_terminator bytes kept t),
)

-- For bytes of a length below 2 ^ 64, trimming a second time changes nothing.
pub strip_idem :
    (bytes : List ℕ)
    → length bytes < usize_end
    → strip_trailing_terminators (strip_trailing_terminators bytes)
      ≡ strip_trailing_terminators bytes
strip_idem bytes h =
    let t = (strip-Trimmed bytes (strip_trailing_terminators bytes) h).0 refl in
    let short : length (strip_trailing_terminators bytes) < usize_end =
      omega (arith, ap length t.split, length-append (strip_trailing_terminators bytes) t.tail) in
    (strip-Trimmed (strip_trailing_terminators bytes) (strip_trailing_terminators bytes) short).1
      (record { tail = []; split = sym (append-nil _); dropped = tt; ends = t.ends })

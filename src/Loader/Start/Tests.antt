-- ===== src/Loader/Start/Tests.antt =====
-- `start` at the sample kernel.
use stub.Prelude.{ℕ, ◌+◌, ◌/◌, ◌≡◌, refl, ap, inl, inr, none, Option, some, List, [], ◌∷◌, arith}
use stub.Machine.{Machine, Firmware, Call}
use stub.Machine.Sample.{firmware, start}
use stub.Memory.Laws.{Outside}
use stub.Pe.Kernel.{Image}
use stub.Pe.Sample.{kernel, text}
use stub.Bytes.{rposition, is_ascii_whitespace}
use stub.Loader.Cmdline.{strip_trailing_terminators}
use stub.Loader.Start
use stub.Loader.Start.Steps.{IsShort}
use stub.Loader.Start.Entry.{
  CanStart, IsReady, start-IsReady, start-entry-Outside, start-entry_misplaced, byte_at,
}
use stub.Loader.Start.Protected.{Steady, start-ReadExecute}
use stub.Loader.Protection.Sample.{
  read_only_after, no_execute_after, pages, tabled, honest, grants, aligned, at_pages,
}
use stub.Loader.Protection.Attributes.{ReadExecute, InCode}

-- pool memory stands behind the image's pages
abbrev high : Firmware
high = record firmware { allocate_pool = λ s kind n. some 0x2000_0000 }

abbrev base : ℕ
base = 0x1000_0000

-- "a=1"
abbrev cmdline : Option (List ℕ)
cmdline = some (b'a' ∷ b'=' ∷ b'1' ∷ [])

short : IsShort cmdline
unfolding strip_trailing_terminators rposition is_ascii_whitespace
short = omega arith

CanStart-kernel : CanStart high kernel cmdline start base
CanStart-kernel = record {
  kernel_fields = omega arith;
  pages = ground arith;
  fits = ground arith;
  room = omega arith;
  short = short;
  pool = record { grant = λ t n. (0x2000_0000, refl, (λ e. omega arith), inr (omega arith)) };
}

start-IsReady_example :
    (t : Machine) × (Start.start high kernel cmdline 3 start ≡ (
      Start.returned (high.enter_kernel t (base + 3) 3 0x40),
      record t { calls = Call.enter_kernel (base + 3) 3 0x40 ∷ t.calls },
    ))
    × IsReady kernel cmdline base start t
start-IsReady_example = start-IsReady high kernel cmdline start CanStart-kernel 3

-- an entry point behind the image of 16 bytes
abbrev stray : Image
stray = record kernel { entry_point_rva = 0x2000 }

CanStart-stray : CanStart high stray none start base
CanStart-stray = record {
  kernel_fields = omega arith;
  pages = ground arith;
  fits = ground arith;
  room = omega arith;
  short = tt;
  pool = record { grant = λ t n. (0x2000_0000, refl, (λ e. omega arith), inr (omega arith)) };
}

start-entry-Outside_example :
    (t : Machine) × (entry : ℕ) × (Start.start high stray none 3 start ≡ Start.enter high entry 3 t)
    × Outside base 16 entry
start-entry-Outside_example =
    start-entry-Outside high stray none start CanStart-stray 3 (omega arith)

-- the first section of the sample kernel, linked at address 1
abbrev linked : Image
linked = record kernel { base_address = 1; sections = text ∷ [] }

CanStart-linked : CanStart high linked none start base
CanStart-linked = record {
  kernel_fields = omega arith;
  pages = ground arith;
  fits = ground arith;
  room = omega arith;
  short = tt;
  pool = record { grant = λ t n. (0x2000_0000, refl, (λ e. omega arith), inr (omega arith)) };
}

start-entry_misplaced_example :
    (t : Machine) × (a : ℕ) × (Start.start high linked none 3 start
      ≡ Start.enter high (base + 3) 3 t)
    × (t.memory a ≡ byte_at linked text 1)
    × (a + 1 ≡ base + 3)
start-entry_misplaced_example =
    start-entry_misplaced high linked none start CanStart-linked text 3 refl (omega arith)
      (omega arith)

-- the second byte of the kernel's code
abbrev address : ℕ
address = base + 3

abbrev paging : Firmware
paging = tabled high

CanStart-aligned : CanStart paging aligned cmdline start base
CanStart-aligned = record {
  kernel_fields = omega arith;
  pages = ground arith;
  fits = ground arith;
  room = omega arith;
  short = short;
  pool = record { grant = λ t n. (0x2000_0000, refl, (λ e. omega arith), inr (omega arith)) };
}

steady : Steady pages address
steady s t same = (
  ap (λ calls. read_only_after calls (address / 0x1000)) same,
  ap (λ calls. no_execute_after calls (address / 0x1000)) same,
)

start-ReadExecute_example :
    (t : Machine) × (Start.start paging aligned cmdline 3 start ≡ Start.enter paging (base + 3) 3 t)
    × ReadExecute pages t address
start-ReadExecute_example =
    start-ReadExecute paging 0x300 pages address aligned cmdline start CanStart-aligned refl
      (record { table = λ s. refl; interface = λ s. refl }) (honest high) (grants high) at_pages
      steady (InCode.here (inl refl) refl) 3

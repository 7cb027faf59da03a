-- ===== src/Boot/Tests.antt =====
-- `main` at an image in which the uki crate finds no sections, and at one that boots.
use stub.Prelude.{
  ℕ, List, inl, false, true, All, subst, ◌+◌, ◌≡◌, refl, inr, none, some, [], ◌∷◌, arith,
}
use stub.Machine.{FileRead, Status, Machine, err, Firmware, Error, Call}
use stub.Machine.Sample.{firmware, start}
use stub.Result.{Result}
use stub.Pe.Kernel.{x86_64, parse, validate, directory_size, find_relocated, refuse_relocated}
use stub.Pe.Kernel.Accepts.{Decodes, parse-IsBootable}
use stub.Pe.Sample.{reader, sections, contents, headers, kernel}
use stub.Memory.{read, load_usize}
use stub.LoadFile2.Install.{IsFile}
use stub.Boot.Initrd.{Boots, main-Serves}
use stub.LoadFile2.{Slice, load_file2_callback}
use stub.Loader.Start.{returned}
use stub.Loader.Start.Entry.{IsReady}
use stub.Policy.Sample.{letters, base64, is_encoding}
use stub.Boot.Goes.{Chooses}
use stub.Boot.Enters.{Bootable, Supplies, main-Enters}
use stub.Boot.{Platform, Sections, main}
use stub.Boot.Steps.{entered}
use stub.Boot.Fails.{Fails, Refused, main-Fails}
use stub.Boot.Once.{Ending, main-Ending}
use stub.Boot.Loads.{Names, Full, Partial}
use stub.Boot.Measured.{Measured, main-Measured, main-Partial}
use stub.Tpm2.Measures.{Takes, IsName}
use stub.Boot.Sample.{
  platform, high, found, complete, loaded, before, loads, can_start, CanStart-before,
}

main-Fails_example :
    (t : Machine) × (main firmware platform start ≡ (err Error.uki_invalid, t))
    × (entered t.calls ≡ entered start.calls)
main-Fails_example = main-Fails firmware platform start Error.uki_invalid (
    Fails.unfit (record { device = some 2; image_base = 0x800; image_size = 64 }) refl refl
      (omega arith) (Refused.no_sections refl))

-- a firmware that has nothing to give
abbrev bare : Firmware
bare = record firmware { allocate_pages = λ s n. none; allocate_pool = λ s kind n. none }

main-Ending_example : Ending bare entered start 3 (main bare complete start)
main-Ending_example = main-Ending bare complete start

takes : Takes high 9
takes = record {
  locate = λ s. refl;
  opens = λ s. refl;
  events = λ s size name. refl;
  extend = λ s name bytes. refl;
}

names : Names high complete
names bytes sections e =
    let same : found ≡ sections = ground (arith, e) in
    subst (λ (x : Sections). All IsName x.measured) same (ground arith)

main-Measured_example : Measured high complete (Full high complete) start (main high complete start)
main-Measured_example = main-Measured high complete takes names start refl

main-Partial_example :
    Measured bare complete (Partial bare complete) start (main bare complete start)
main-Partial_example = main-Partial bare complete start

abbrev initrd : Slice
initrd = record { ptr = 0x880; len = 4 }

-- the four bytes that stand where the image has its initrd
abbrev initrd_file : List ℕ
initrd_file = 0xee ∷ 0xee ∷ 0xee ∷ 0xee ∷ []

is_initrd : IsFile initrd initrd_file start
unfolding read
is_initrd = record {
  ptr = omega arith;
  len = refl;
  nonempty = omega arith;
  word = omega arith;
  bytes = refl;
}

boots : Boots high complete start loaded kernel none before 0x1000_0000
boots = record { handle = refl; opens = refl; loads = loads; can = CanStart-before }

main-Serves_example :
    let t = (main high complete start).1 in
    let asked = (load_file2_callback false 0x100 0 t).1 in
    let (status, got) = load_file2_callback false 0x100 0x900 asked in
    (u : Machine) × (t.calls ≡ Call.enter_kernel (0x1000_0000 + 3) 3 0x40 ∷ u.calls)
    × (status ≡ Status.success)
    × (read got.memory 0x900 (load_usize asked.memory 0x100) ≡ initrd_file)
main-Serves_example =
    main-Serves high complete start loaded kernel none before 0x1000_0000 boots found initrd
      initrd_file refl refl is_initrd 0x100 0x900 (inr (omega arith))
      (record { grant = λ t n. (0x2000_0000, refl, (λ e. omega arith), inr (omega arith)) })
      (λ e. omega arith) (inl (omega arith)) (λ e. omega arith) (inr (omega arith))
      (inr (omega arith))

-- the same platform with an encoder
abbrev encoding : Platform
encoding = record complete { base64 = base64 }

decodes : Decodes (reader sections) contents headers sections
decodes = record { offset = 0x40; table_offset = 0x148; dos = refl; nt = refl; table = refl }

parsed : parse x86_64 (reader sections) contents ≡ Result.ok kernel
unfolding parse validate directory_size find_relocated refuse_relocated
parsed = refl

image_fits : Bootable high encoding start loaded found headers sections kernel
image_fits =
    let (bootable, describes) =
      (parse-IsBootable x86_64 (reader sections) contents headers sections kernel decodes).0
        parsed in
    record {
      small = omega arith;
      found = refl;
      decodes = decodes;
      bootable = bootable;
      describes = describes;
    }

supplies : Supplies high encoding start loaded found kernel none 0x1000_0000
supplies = record {
  handle = refl;
  opens = refl;
  installs = record {
    pool = λ t n. (0x2000_0000, refl);
    push = λ t pool guid. refl;
    finalize = λ t pool. (pool, refl);
    device_path = λ t path. (7, refl);
    load_file2 = λ t handle. refl;
  };
  chooses =
      Chooses.decided letters true FileRead.missing refl is_encoding (λ t. refl) (λ t. refl) refl;
  can = can_start;
}

main-Enters_example :
    (t : Machine) × (main high encoding start ≡ (
      returned (high.enter_kernel t (0x1000_0000 + 3) 3 0x40),
      record t { calls = Call.enter_kernel (0x1000_0000 + 3) 3 0x40 ∷ t.calls },
    ))
    × IsReady kernel none 0x1000_0000 start t
main-Enters_example =
    main-Enters high encoding start loaded found headers sections kernel none 0x1000_0000 image_fits
      supplies

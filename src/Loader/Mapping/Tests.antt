-- ===== src/Loader/Mapping/Tests.antt =====
-- A run of `map_sections`, and its theorems, at an image with two overlapping sections.
use stub.Prelude.{ℕ, ◌≡◌, ◌↔◌, refl, [], ◌∷◌, All, arith}
use stub.Memory.{read, write, fill}
use stub.Machine.{Machine, ok, err, Error}
use stub.Machine.Sample.{firmware, start}
use stub.Pe.Kernel.{Image}
use stub.Pe.Sample.{kernel, sections}
use stub.Loader.Mapping.{map_sections, map_each, map_section, copy_section_data, zero_section_tail}
use stub.Loader.Mapping.Section.{Fits}
use stub.Loader.Mapping.Loop.{Confined}
use stub.Loader.Mapping.Whole.{
  IsKernel, Allocates, IsMapped, asked, map_sections-IsMapped, map_sections-Confined,
}
use stub.Loader.Mapping.Refuses.{Refused, map_sections-Refused}

abbrev base : ℕ
base = 0x1000_0000

-- Two bytes of old memory, two of the first section, and the second section with a zero.
mapped_bytes :
    read (map_sections firmware kernel start).1.memory base 8
    ≡ 0xee ∷ 0xee ∷ 10 ∷ 20 ∷ 30 ∷ 40 ∷ 0 ∷ 0xee ∷ []
unfolding map_sections map_each map_section copy_section_data zero_section_tail read write fill
mapped_bytes = refl

is_kernel : IsKernel kernel
is_kernel = omega arith

allocates : Allocates firmware kernel start base
allocates = ground arith

fits : All (Fits kernel) sections
fits = ground arith

map_sections-IsMapped_example :
    (s' : Machine) × (map_sections firmware kernel start ≡ (ok base, s'))
    × IsMapped kernel base start s'
map_sections-IsMapped_example = map_sections-IsMapped firmware kernel start is_kernel allocates fits

-- the same image in an allocation of one byte
abbrev short : Image
short = record kernel { size = 1 }

map_sections-Refused_example :
    ((map_sections firmware short start).0 ≡ err Error.pages_unavailable)
    ↔ Refused firmware short start Error.pages_unavailable
map_sections-Refused_example =
    map_sections-Refused firmware short start (omega arith) Error.pages_unavailable

map_sections-Confined_example :
    Confined base 16 (asked kernel start) (map_sections firmware kernel start).1
map_sections-Confined_example = map_sections-Confined firmware kernel start is_kernel allocates

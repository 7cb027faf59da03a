-- ===== src/Lib.antt =====
-- The UEFI stub: from the firmware's call of src/main.rs to the jump into the kernel.
--
-- The parts. `main` exports the Boot Loader Interface variables, logs two security variables,
-- finds the sections of its own image, measures them into PCR 11, validates the kernel's PE image,
-- offers the initrd through LoadFile2, decides on the command line and starts the kernel. `start`
-- maps the kernel's sections into fresh pages, protects its code, points LoadedImage at it, sets
-- its load options and jumps.
--
-- The files, by the code that they are about:
--   Boot, Boot/*                 src/main.rs: main, setup_uefi_crate
--   Pe/Kernel, Pe/Kernel/*       src/pe/kernel.rs: Image::parse, section_name
--   Pe/Format                    the PE32+ format, as far as the stub goes
--   Pe/Fixtures, with its children   src/pe/fixtures.rs: the builder of the tests' images
--   Loader/Mapping, with its children   src/pe/loader/mapping.rs: map_sections and its helpers
--   Loader/Cmdline, with its children   src/pe/loader/cmdline.rs: trimming and UCS-2
--   Loader/Protocol              src/pe/loader/protocol.rs: locate_raw
--   Loader/Protection, with its children   src/pe/loader/protection.rs: locate, apply
--   Loader/Start, with its children   src/pe/loader/mod.rs: start
--   LoadFile2, with its children  src/loadfile2.rs: install, load_file2_callback
--   Policy, Policy/*             src/policy/: cmdline in both builds, the LUKS key
--   Tpm2, Tpm2/*                 src/tpm2.rs, and the loop of main over the sections
--   Security, Security/*         src/security.rs
--   Vars, Vars/*                 src/vars/: the exported variables
--   Machine, Memory, Word, Bits, Bytes, Result, Prelude   what these share
-- The files called Sample and Tests hold data, runs and examples. Those called Scenarios hold the
-- repository's own tests, each as the proposition that it asserts, for any reader of the format where
-- it has bytes read by another crate.
--
-- The model. A `Machine` is the byte memory that the stub writes, the statics FILE_PTR and
-- FILE_LEN, and the calls made so far. An action takes a machine to an outcome (a value, an error
-- of the code with its arguments, or `gone` once a kernel has taken over) and a machine. A call of
-- the firmware is put on record and answered by a function of the state, so that the firmware may
-- answer one call differently at different times. Addresses, sizes and fields are natural numbers;
-- every checked, saturating or wrapping operation of the code writes its bound out, for a usize of
-- 64 bits as all targets of src/pe/kernel.rs have. Loops recurse on the list that they run over.
-- Fuel occurs once, in the printing of a u32 in decimal: ten digits, which hold any u32.
--
-- Not part of the repository, and so parameters: the firmware (`Firmware`), the decoding of PE
-- headers by the object crate (`PeReader`), the sections found by the uki crate, base64ct
-- (`Base64`), and the printing of GUIDs and revisions by the uefi crate (`Printer`). What is relied on
-- of base64ct is the hypothesis `IsEncoding`, of the object crate `ReadsPe` (headers that are
-- there are found where the format puts them), of the uefi crate `ReadsPaths` (the
-- nodes of a device path stand one behind the other, up to its end), and of
-- EFI_MEMORY_ATTRIBUTE_PROTOCOL `Honest` (a request that is granted sets or clears its attribute in
-- its range, and nothing else changes), with `Grants` (requests for whole pages are granted) or
-- `Undoes` (a range for which read-only was granted may have it taken back). What a complete boot
-- takes is `Bootable`, of the image, and `Supplies`, of the firmware; both have an instance in
-- Boot/Tests.
--
-- Not modelled: log output (src/log.rs), module declarations, what the uefi crate writes into the
-- device path of the initrd, memory that no theorem reads, such as the event buffers of the TPM
-- calls, and the two tests of src/pe/kernel.rs on bytes without headers, which the object crate
-- alone refuses.
pub mod Prelude
pub mod Word
pub mod Memory
pub mod Machine
pub mod Result
pub mod Bytes
pub mod Pe
pub mod Bits
pub mod Loader
pub mod LoadFile2
pub mod Tpm2
pub mod Policy
pub mod Security
pub mod Vars
pub mod Boot

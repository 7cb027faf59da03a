-- ===== src/Boot/Loads.antt =====
-- What `load` of src/main.rs has asked to measure when it goes through.
use stub.Prelude.{
  [], refl, inl, inr, Bool-cases, append-nil, ℕ, ◌≡◌, ap, sym, ◌∙◌, true, Option, some, List, ◌++◌,
  All, if◌then◌else◌,
}
use stub.Machine.{Machine, Outcome, ok, Firmware, Loaded}
use stub.Result.{Result}
use stub.Pe.Kernel.{Image, parse}
use stub.Tpm2.Refusals.{Requests, measure_each-Requests}
use stub.Tpm2.Measures.{Takes, IsName, extends, Event, digest_events, measure_each-extends}
use stub.Boot.{Platform, Sections, measure, install_initrd, choose_cmdline, load}
use stub.Boot.Quiet.{install_initrd-Tame, choose_cmdline-Tame}
use stub.Boot.Steps.{Tame-same}
use stub.Boot.Order.{find, find-Tame}
use stub.Boot.Stages.{Found, load-Stages}

-- What may have been asked to extend the PCR with, for the sections of an image.
abbrev pub Digests : Type 1
Digests = Sections → List Event → Type 0

module _ (firmware : Firmware) (platform : Platform) where
  -- `load` has found sections, asked for their measurements, and validated their kernel.
  pub record Loads (digests : Digests) (loaded : Loaded) (s t : Machine) (kernel : Image)
      : Type 0 where
    pub sections : Sections
    pub found : Found firmware platform loaded s sections
    pub parsed : parse platform.target platform.reader sections.kernel ≡ Result.ok kernel
    pub events : List Event
    pub digested : digests sections events
    pub calls : extends t.calls ≡ extends s.calls ++ events

  -- the measurements of sections that the uki crate finds ask for these
  abbrev pub Asks : Digests → Type 0
  Asks digests =
      (bytes : List ℕ) (sections : Sections)
      → platform.uki bytes ≡ some sections
      → (s : Machine)
      → (t : Machine) × (events : List Event) × (measure firmware platform sections s ≡ (ok tt, t))
        × digests sections events
        × (extends t.calls ≡ extends s.calls ++ events)

  -- the names of the sections that the uki crate finds are short
  abbrev pub Names : Type 0
  Names =
      (bytes : List ℕ) (sections : Sections)
      → platform.uki bytes ≡ some sections
      → All IsName sections.measured

  -- all sections in full
  abbrev pub Full : Digests
  Full sections events = events ≡ digest_events sections.measured

  pub Full-Asks : {tcg : ℕ} → Takes firmware tcg → Names → platform.tpm ≡ true → Asks Full
  unfolding measure
  Full-Asks takes names tpm bytes sections found s =
      let (t, goes, calls, _) =
        measure_each-extends firmware takes sections.measured s (names bytes sections found) in
      (t, digest_events sections.measured, rw tpm goes, refl, calls)

  -- each section in full, its name alone or not at all, and nothing in a build without a TPM
  abbrev pub Partial : Digests
  Partial sections events = if platform.tpm then Requests sections.measured events else events ≡ []

  pub Partial-Asks : Asks Partial
  unfolding measure
  Partial-Asks bytes sections found s = elim (Bool-cases platform.tpm) [
    | inl tpm ↦
        let (t, events, goes, requests, calls, _) =
          measure_each-Requests firmware sections.measured s in
        (t, events, rw tpm goes, rw tpm requests, calls)
    | inr plain ↦ (s, [], rw plain refl, rw plain refl, sym (append-nil _))
  ]

  pub load-Loads :
      (digests : Digests) (asks : Asks digests) (loaded : Loaded) (kernel : Image)
      (cmdline : Option (List ℕ)) (s t : Machine)
      → load firmware platform loaded s ≡ (ok (kernel, cmdline), t)
      → Loads digests loaded s t kernel
  load-Loads digests asks loaded kernel cmdline s t e =
      let stages = load-Stages firmware platform loaded kernel cmdline s t e in
      let sections = stages.sections in
      let (v, events, goes, digested, calls) = asks _ sections stages.found stages.first in
      let measured : v ≡ stages.second =
        ap (λ (r : Outcome (Unit {0}) × Machine). r.1) (sym goes ∙ stages.measures) in
      let before =
        Tame-same (find firmware platform loaded) (find-Tame firmware platform loaded)
          stages.finds in
      let installed =
        Tame-same (install_initrd firmware platform sections.initrd)
          (install_initrd-Tame firmware platform sections.initrd) stages.installs in
      let chosen =
        Tame-same (choose_cmdline firmware platform sections.cmdline)
          (choose_cmdline-Tame firmware platform sections.cmdline) stages.chooses in
      record {
        sections = sections;
        found = stages.found;
        parsed = stages.parsed;
        events = events;
        digested = digested;
        calls =
            ap (λ b. b.1) (chosen ∙ installed)
            ∙ ap (λ (m : Machine). extends m.calls) (sym measured)
            ∙ calls
            ∙ ap (λ b. b.1 ++ events) before;
      }

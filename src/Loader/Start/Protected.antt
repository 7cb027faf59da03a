-- ===== src/Loader/Start/Protected.antt =====
-- The page tables when `start` of src/pe/loader/mod.rs enters a kernel that is marked NX compatible.
use stub.Prelude.{
  ℕ, ◌+◌, ◌≡◌, inl, inr, refl, ap, sym, ◌∙◌, true, Option, none, some, List, [], ◌∷◌, arith, All,
  ltb,
}
use stub.Word.{u64_end, usize_end}
use stub.Machine.{Machine, ok, Firmware, Call, resume}
use stub.Pe.Kernel.{Image}
use stub.Loader.Mapping.Whole.{map_sections-IsMapped}
use stub.Loader.Cmdline.{encode_ucs2, encode_content}
use stub.Loader.Protocol.{locate_raw, found}
use stub.Loader.Protection.{memory_attribute_guid, locate}
use stub.Loader.Protection.Attributes.{Pages, AtPages, Honest, Grants, ReadExecute, SameAt, InCode}
use stub.Loader.Protection.Sweeps.{apply-ReadExecute}
use stub.Loader.Start.{protect_at, protect, prepare, set_cmdline, enter, start}
use stub.Loader.Start.Steps.{protect-nx, set_cmdline-Options}
use stub.Loader.Start.Entry.{CanStart}

-- the calls that ask for memory attributes
abbrev pub attribute_requests : List Call → List Call
attribute_requests [] = []
attribute_requests (Call.set_memory_attributes proto at len attributes ∷ calls) =
    Call.set_memory_attributes proto at len attributes ∷ attribute_requests calls
attribute_requests (Call.clear_memory_attributes proto at len attributes ∷ calls) =
    Call.clear_memory_attributes proto at len attributes ∷ attribute_requests calls
attribute_requests (_ ∷ calls) = attribute_requests calls

-- Only requests for attributes change those of this address.
abbrev pub Steady : Pages → ℕ → Type 0
Steady pages a =
    (s t : Machine) → attribute_requests t.calls ≡ attribute_requests s.calls → SameAt pages s t a

-- The protocol for memory attributes is found, whatever has been asked before.
pub record Locates (firmware : Firmware) (proto : ℕ) : Type 0 where
  pub table : (s : Machine) → firmware.has_system_table s ≡ true
  pub interface :
      (s : Machine) → found (firmware.locate_protocol s memory_attribute_guid) ≡ some proto

module _ (firmware : Firmware) where
  set_cmdline-requests :
      (cmdline : Option (List ℕ)) (s : Machine)
      → attribute_requests (set_cmdline firmware cmdline s).1.calls ≡ attribute_requests s.calls
  unfolding set_cmdline encode_ucs2 encode_content
  set_cmdline-requests none s = refl
  set_cmdline-requests (some cmdline) s = ground arith

  locate-found :
      (proto : ℕ) (s : Machine)
      → Locates firmware proto
      → locate firmware s ≡ (
        ok (some proto),
        record s { calls = Call.locate_protocol memory_attribute_guid ∷ s.calls },
      )
  unfolding locate locate_raw
  locate-found proto s locates = rw (locates.table s, locates.interface s)

  module _ (proto : ℕ) (pages : Pages) (a : ℕ) (kernel : Image) (cmdline : Option (List ℕ))
      (s : Machine) {base : ℕ} (can : CanStart firmware kernel cmdline s base)
      (nx : kernel.nx_compat ≡ true) (locates : Locates firmware proto)
      (honest : Honest firmware proto pages) (grants : Grants firmware proto)
      (whole : All (AtPages kernel base) kernel.sections) (steady : Steady pages a)
      (code : InCode kernel base a kernel.sections) where
    protect-ReadExecute :
        (m : Machine)
        → (t : Machine) × (protect firmware base kernel m ≡ (ok tt, t)) × ReadExecute pages t a
    unfolding protect_at
    protect-ReadExecute m =
        let asked : Machine = record m {
          calls = Call.locate_protocol memory_attribute_guid ∷ m.calls;
        } in
        let (t, e, is) =
          apply-ReadExecute firmware proto pages honest kernel base asked can.kernel_fields.headers
            can.room a grants whole in
        (
          t,
          protect-nx firmware kernel base m nx
              ∙ ap (resume (λ found. protect_at firmware found base kernel))
                  (locate-found proto m locates)
              ∙ e,
          elim is [ inl (_, protected) ↦ protected | inr (out, _) ↦ absurd (out code) ],
        )

    prepare-ReadExecute :
        (m : Machine) × (prepare firmware kernel cmdline s
          ≡ (ok (base + kernel.entry_point_rva), m))
        × ReadExecute pages m a
    unfolding prepare
    prepare-ReadExecute =
        let (u, mapped, is) =
          map_sections-IsMapped firmware kernel s can.kernel_fields can.pages can.fits in
        let (t, protected, (ro, nx)) = protect-ReadExecute u in
        let c : Machine = record t { calls = Call.set_image base kernel.size ∷ t.calls } in
        let (d, set, _, _) =
          set_cmdline-Options firmware base kernel.size can.pool c cmdline can.short in
        let requests : attribute_requests d.calls ≡ attribute_requests t.calls =
          ap (λ (r : _ × Machine). attribute_requests r.1.calls) (sym set)
          ∙ set_cmdline-requests cmdline c in
        let (ro_same, nx_same) = steady t d requests in
        let low : ltb base u64_end ≡ true = ground (arith, can.room) in
        let sum : ltb (base + kernel.entry_point_rva) u64_end ≡ true =
          ground (arith, can.room, can.kernel_fields.entry) in
        (d, rw (mapped, protected, set, low, sum), (ro_same ∙ ro, nx_same ∙ nx))

    -- Under CanStart, for a kernel that is marked NX compatible and whose code sections each have
    -- one or more whole pages as their protected range, if the protocol for memory attributes is
    -- found whenever asked, the firmware keeps to it and grants read-only and executable memory
    -- for whole pages, and no other call or write changes the attributes of an address in the
    -- pages of a code section, then that address is read-only and executable when start enters the
    -- kernel.
    pub start-ReadExecute :
        (image_handle : ℕ)
        → (t : Machine) × (start firmware kernel cmdline image_handle s
            ≡ enter firmware (base + kernel.entry_point_rva) image_handle t)
          × ReadExecute pages t a
    unfolding start
    start-ReadExecute image_handle =
        let (m, prepared, (ro, nx)) = prepare-ReadExecute in
        let t : Machine = record m { calls = Call.close_loaded_image ∷ m.calls } in
        let (ro_same, nx_same) = steady m t refl in
        let fits : ltb (base + kernel.entry_point_rva) usize_end ≡ true =
          ground (arith, can.room, can.kernel_fields.entry) in
        (t, rw (prepared, fits), (ro_same ∙ ro, nx_same ∙ nx))

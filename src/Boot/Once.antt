-- ===== src/Boot/Once.antt =====
-- Every run of main in src/main.rs and of start in src/pe/loader/mod.rs, whatever the firmware
-- answers: how it ends, and whether a kernel has been entered.
use stub.Prelude.{
  ℕ, ◌≡◌, inl, inr, refl, ap, ◌∙◌, Option, none, some, List, ◌∷◌, ◌==◌, Bool-cases, Option-cases,
}
use stub.Word.{usize_end, fit}
use stub.Machine.{
  Status, Machine, Outcome, ok, err, gone, Firmware, Error, Call, context, resume, fail, ◌>>=◌,
  ◌>>◌,
}
use stub.Pe.Kernel.{Image}
use stub.Loader.Start.{returned, prepare, enter, start}
use stub.Boot.{Platform, closing_on_error, setup_uefi_crate, load, main}
use stub.Tpm2.Measures.{extends}
use stub.Boot.Steps.{boot, entered, IsTame}
use stub.Boot.Order.{opened, load-Tame}
use stub.Boot.Loading.{prepare-Tame}

module _ (firmware : Firmware) where
  -- How a run from `s` ends: with an error, no kernel having been entered, or with the one jump
  -- into a kernel as its last call, right after LoadedImage was closed.
  pub data Ending {X : Type 0} (view : List Call → X) (s : Machine) (handle : ℕ)
      (r : Outcome (Unit {0}) × Machine) : Type 0 where
    failed : (e : Error) → r.0 ≡ err e → view r.1.calls ≡ view s.calls → Ending view s handle r
    jumped :
        (entry : ℕ) (u : Machine) (rest : List Call)
        → u.calls ≡ Call.close_loaded_image ∷ rest
        → view rest ≡ view s.calls
        → r ≡ (
          returned (firmware.enter_kernel u entry handle (firmware.system_table u)),
          record u { calls = Call.enter_kernel entry handle (firmware.system_table u) ∷ u.calls },
        )
        → Ending view s handle r

  -- what `start` does once `prepare` has ended
  resume-Ending :
      (handle : ℕ) (r : Outcome ℕ × Machine) (s : Machine)
      → IsTame boot r s
      → Ending boot s handle (
          resume
            (λ entry. context (fit usize_end entry) Error.entry_exceeds_usize >>= λ addr.
              enter firmware addr handle)
            (r.0, record r.1 { calls = Call.close_loaded_image ∷ r.1.calls }))
  unfolding enter entered extends
  resume-Ending handle (ok entry, t) s tame = elim (Option-cases (fit usize_end entry)) [
    | inl missing ↦ rw missing (Ending.failed Error.entry_exceeds_usize refl tame.calls)
    | inr (addr, fits) ↦ rw fits (
        Ending.jumped addr (record t { calls = Call.close_loaded_image ∷ t.calls }) t.calls refl
          tame.calls refl)
  ]
  resume-Ending handle (err e, t) s tame = Ending.failed e refl tame.calls
  resume-Ending handle (gone, t) s tame = absurd (tame.stays t refl)

  pub start-Ending :
      (kernel : Image) (cmdline : Option (List ℕ)) (handle : ℕ) (s : Machine)
      → Ending boot s handle (start firmware kernel cmdline handle s)
  unfolding start
  start-Ending kernel cmdline handle s =
      resume-Ending handle (prepare firmware kernel cmdline s) s
        (prepare-Tame firmware kernel cmdline s)

  -- an end is an end of the machine before, too
  pub Ending-before :
      {X : Type 0} {view : List Call → X} (handle : ℕ) (r : Outcome (Unit {0}) × Machine)
      (s t : Machine)
      → view t.calls ≡ view s.calls
      → Ending view t handle r
      → Ending view s handle r
  Ending-before handle r s t same (failed e is calls) = Ending.failed e is (calls ∙ same)
  Ending-before handle r s t same (jumped entry u rest closed calls is) =
      Ending.jumped entry u rest closed (calls ∙ same) is

  -- `fail` behind `start` is never reached
  pub fail-Ending :
      {X : Type 0} {view : List Call → X} (handle : ℕ) (e : Error)
      (r : Outcome (Unit {0}) × Machine) (s : Machine)
      → Ending view s handle r
      → Ending view s handle (resume (λ _. fail e) r)
  fail-Ending handle e (ok u, t) s (failed x is calls) = cc
  fail-Ending handle e (err x, t) s end = end
  fail-Ending handle e (gone, t) s end = end
  fail-Ending handle e (ok u, t) s (jumped entry m rest closed calls is) = absurd (
      returned-not-ok (firmware.enter_kernel m entry handle (firmware.system_table m))
        (ap (λ (q : Outcome (Unit {0}) × Machine). q.0) is))
    where
      returned-not-ok : (reply : Option Status) → ¬ (ok tt ≡ returned reply)
      returned-not-ok none x = cc
      returned-not-ok (some status) x = cc

  -- an end with a view of more is one with a view of less
  Ending-entered :
      (handle : ℕ) (r : Outcome (Unit {0}) × Machine) (s : Machine)
      → Ending boot s handle r
      → Ending entered s handle r
  Ending-entered handle r s (failed e is calls) = Ending.failed e is (ap (λ v. v.0) calls)
  Ending-entered handle r s (jumped entry u rest closed calls is) =
      Ending.jumped entry u rest closed (ap (λ v. v.0) calls) is

  module _ (platform : Platform) (s : Machine) where
    -- what main does with a LoadedImage that has been opened
    loaded-Ending :
        (handle : ℕ) (r : Outcome (Image × Option (List ℕ)) × Machine) (t : Machine)
        → IsTame entered r t
        → Ending entered t handle (
            resume
              (λ (kernel, cmdline).
                start firmware kernel cmdline handle >> fail Error.entry_point_returned)
              (closing_on_error r))
    unfolding entered
    loaded-Ending handle (ok (kernel, cmdline), u) t tame =
        fail-Ending handle Error.entry_point_returned (start firmware kernel cmdline handle u) t (
          Ending-before handle _ t u tame.calls
            (Ending-entered handle _ u (start-Ending kernel cmdline handle u)))
    loaded-Ending handle (err e, u) t tame = Ending.failed e refl tame.calls
    loaded-Ending handle (gone, u) t tame = absurd (tame.stays u refl)

    -- Whatever the firmware answers and whichever build it is, main ends in one of two ways: with
    -- an error, and no kernel has been entered, or its last call is the one jump into a kernel,
    -- with the image handle and the system table, right after LoadedImage was closed, and main
    -- comes to what that call comes to.
    pub main-Ending : Ending entered s (firmware.image_handle s) (main firmware platform s)
    unfolding main setup_uefi_crate entered
    main-Ending =
        let handle = firmware.image_handle s in
        elim (Bool-cases (handle == 0)) [
          | inl null ↦ rw null (Ending.failed Error.null_image_handle refl refl)
          | inr given ↦ elim (Option-cases (firmware.open_loaded_image s handle)) [
            | inl missing ↦
                rw (given, missing) (Ending.failed Error.loaded_image_unavailable refl refl)
            | inr (loaded, opens) ↦
                rw (given, opens)
                  (Ending-before handle _ s (opened firmware platform s) refl (
                    loaded-Ending handle
                      (load firmware platform loaded (opened firmware platform s)) _
                      (load-Tame firmware platform loaded (opened firmware platform s))))
          ]
        ]

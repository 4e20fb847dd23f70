-- ===== src/Programs/Runs.antt =====
-- What the operations of the library do while the logger is there.
use audio_io.Prelude.{
  ℕ, zero, suc, ◌≡◌, ◌⊎◌, inl, inr, refl, ap, ◌∙◌, Option, some, [], ◌∷◌, Option-cases, subst,
}
use audio_io.Sample.{Float}
use audio_io.Device.{
  Result, ok, throw, no_backend_error, first_factory, or_throw, get_output_device_factory,
}
use audio_io.Device.Interface.{Called, Makes, AllMake, first_factory-Makes}
use audio_io.Logging.{
  unused, shutting_down, dereference, initialize_logger, get_logger, log_message, shutdown_logger,
  initialize, shutdown, call, calls,
}
use audio_io.Logging.Life.{used, gone}
use audio_io.Programs.Generator.{Maths}
use audio_io.Programs.{
  Operation, get_factory, destroy_factory, with_factory, ending, then_result, then_run, caught,
  messages_of, Library, Session, ask, in_session, tell, set_up, factory_of_build,
}

messages_used : (n : ℕ) → calls (messages_of n) used ≡ some used
unfolding calls call log_message dereference
messages_used zero = refl
messages_used (suc n) = messages_used n

module _ (fl : Float) (m : Maths fl) (lib : Library fl m) where
  open lib use {W, F, creators}

  abbrev pub Run : Type 0
  Run = Session fl m lib

  -- A session with the logger there.
  abbrev pub lively : Run → Run
  lively s = record s { logger = used }

  pub ask_lem :
      {A : Type 0} (op : Operation) (f : W → Called W A) (s : Run)
      → s.logger ≡ used
      → ask fl m lib op f s ≡ in_session fl m lib (lively s) (f s.world)
  ask_lem op f s e = rw (e, messages_used (lib.messages op s.world)) refl

  pub set_up_lem : (s : Run) → s.logger ≡ unused → set_up fl m lib s ≡ some (ok tt, lively s)
  unfolding calls call initialize get_logger dereference initialize_logger
  set_up_lem s e = rw e refl

  pub shut_down_lem :
      (s : Run)
      → s.logger ≡ used
      → tell fl m lib (shutting_down ∷ []) s ≡ some (ok tt, record s { logger = gone })
  unfolding calls call shutdown shutdown_logger
  shut_down_lem s e = rw e refl

  -- getOutputDeviceFactory gives a factory that a backend has made, or throws.
  pub factory_of_build_lem :
      (Made : F → Type 0) (s : Run)
      → AllMake Made creators
      → s.logger ≡ used
      → (w : W) × (((fact : F) × Made fact
            × (factory_of_build fl m lib s ≡ some (ok fact, record (lively s) { world = w })))
          ⊎ (factory_of_build fl m lib s
              ≡ some (throw no_backend_error, record (lively s) { world = w })))
  unfolding get_output_device_factory
  factory_of_build_lem Made s make e =
      let called = ask_lem get_factory (λ w. some (get_output_device_factory creators w)) s e in
      let result = λ (x : Option F × W). in_session fl m lib (lively s) (some (or_throw x)) in
      (
        (first_factory creators s.world).1,
        elim (Option-cases (first_factory creators s.world).0) [
          | inl missing ↦
              inr (called ∙ ap result (λ i. (missing i, (first_factory creators s.world).1)))
          | inr (fact, there) ↦ inl (
            fact,
            subst (Makes Made) there (first_factory-Makes Made creators s.world make),
            called ∙ ap result (λ i. (there i, (first_factory creators s.world).1)),
          )
        ],
      )

  -- What the factory's scope does at its end.
  pub with_factory_lem :
      {A : Type 0} (fact : F) (p : Run → Called Run A) (s t : Run) (r : Result A)
      → p s ≡ some (r, t)
      → t.logger ≡ used
      → with_factory fl m lib fact p s
        ≡ some (r, record (lively t) { world = lib.destroy_factory fact t.world })
  with_factory_lem fact p s t r e alive =
      let finish = λ (w : W). some (ok tt, lib.destroy_factory fact w) in
      ap (λ o. ending fl m lib o (ask fl m lib destroy_factory finish)) e
      ∙ ap (then_result fl m lib r) (ask_lem destroy_factory finish t alive)

  -- The last call of a program, behind the factory's scope.
  pub finished_lem :
      (fact : F) (p : Run → Called Run Unit) (s t : Run)
      → p s ≡ some (ok tt, t)
      → t.logger ≡ used
      → caught fl m lib (
          then_run fl m lib
            (with_factory fl m lib fact p s)
            (λ _. tell fl m lib (shutting_down ∷ [])))
        ≡ some (record t { logger = gone; world = lib.destroy_factory fact t.world })
  finished_lem fact p s t e alive =
      ap (λ o. caught fl m lib (then_run fl m lib o (λ _. tell fl m lib (shutting_down ∷ []))))
        (with_factory_lem fact p s t (ok tt) e alive)
      ∙ ap (caught fl m lib) (shut_down_lem _ refl)

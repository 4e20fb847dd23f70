-- ===== src/Programs/Enumeration.antt =====
-- What src/tests/enumeration.cpp prints, and that it keeps the rules of the library.
use Prim.Native.String.{String}
use audio_io.Prelude.{
  ℕ, suc, ◌≡◌, ◌⊎◌, inl, inr, refl, sym, ap, ◌∙◌, arith, Option, some, List, [], ◌∷◌, ◌++◌, length,
  append_assoc, append-nil,
}
use audio_io.Sample.{Float}
use audio_io.Device.{ok, what, no_backend_error}
use audio_io.Device.Interface.{Called, Lists, AllMake}
use audio_io.Logging.{unused, shutting_down}
use audio_io.Logging.Life.{used, gone}
use audio_io.Programs.Generator.{Maths}
use audio_io.Programs.{
  Line, note, enumerating_with, exception, detected, device, Library, print_devices, enumerate,
  enumeration_main, with_factory, then_run, caught, tell, factory_of_build,
}
use audio_io.Programs.Runs.{Run, lively, set_up_lem, finished_lem, factory_of_build_lem}

-- A line for each device.
abbrev pub lines : List String → List ℕ → List Line
lines (name ∷ names) (n ∷ channels) = device name n ∷ lines names channels
lines _ _ = []

length-lines :
    (names : List String) (channels : List ℕ)
    → length names ≡ length channels
    → length (lines names channels) ≡ length names
length-lines [] channels e = refl
length-lines (name ∷ names) [] e = absurd (omega (arith, e))
length-lines (name ∷ names) (n ∷ channels) e =
    ap suc (length-lines names channels (omega (arith, e)))

module _ (fl : Float) (m : Maths fl) (lib : Library fl m) where
  open lib use {W, F, factories, creators}

  print_devices_lem :
      (names : List String) (channels : List ℕ) (s : Run fl m lib)
      → length names ≡ length channels
      → print_devices fl m lib names channels s
        ≡ some (ok tt, record s { printed = s.printed ++ lines names channels })
  unfolding print_devices
  print_devices_lem [] channels s e = rw (append-nil s.printed) refl
  print_devices_lem (name ∷ names) [] s e = absurd (omega (arith, e))
  print_devices_lem (name ∷ names) (n ∷ channels) s e =
      print_devices_lem names channels _ (omega (arith, e))
      ∙ ap (λ p. some (ok tt, record s { printed = p }))
          (append_assoc s.printed (device name n ∷ []) (lines names channels))

  -- All that the program prints of a factory.
  abbrev pub report : F → List Line
  report fact =
      enumerating_with (factories.get_name fact)
      ∷ note
      ∷ detected (factories.get_output_count fact)
      ∷ lines (factories.get_output_names fact) (factories.get_output_max_channels fact)

  regroup :
      (ls : List Line) (a b c : Line) (more : List Line)
      → ls ++ (a ∷ []) ++ (b ∷ []) ++ (c ∷ []) ++ more ≡ ls ++ (a ∷ b ∷ c ∷ more)
  regroup ls a b c more =
      append_assoc (ls ++ (a ∷ []) ++ (b ∷ [])) (c ∷ []) more
      ∙ append_assoc (ls ++ (a ∷ [])) (b ∷ []) (c ∷ more)
      ∙ append_assoc ls (a ∷ []) (b ∷ c ∷ more)

  enumerate_lem :
      (fact : F) (s : Run fl m lib)
      → length (factories.get_output_names fact) ≡ length (factories.get_output_max_channels fact)
      → enumerate fl m lib fact s ≡ some (ok tt, record s { printed = s.printed ++ report fact })
  unfolding enumerate
  enumerate_lem fact s e =
      print_devices_lem _ _ _ e
      ∙ ap (λ p. some (ok tt, record s { printed = p })) (regroup s.printed _ _ _ _)

  -- How the program ends: with the logger deleted and every device printed, or with the exception
  -- that there is no backend.
  abbrev pub Ends : (F → Type 0) → Run fl m lib → Run fl m lib → Type 0
  Ends Made s s' =
      ((fact : F) × Made fact
        × (s'.logger ≡ gone)
        × (s'.printed ≡ s.printed ++ report fact)
        × (length (lines (factories.get_output_names fact) (factories.get_output_max_channels fact))
            ≡ factories.get_output_count fact))
      ⊎ ((s'.logger ≡ used) × (s'.printed ≡ s.printed ++ (exception (what no_backend_error) ∷ [])))

  -- What follows the construction of the factory.
  abbrev after_factory : Called (Run fl m lib) F → Option (Run fl m lib)
  after_factory r = caught fl m lib (
      then_run fl m lib
        (then_run fl m lib r (λ fact. with_factory fl m lib fact (enumerate fl m lib fact)))
        (λ _. tell fl m lib (shutting_down ∷ [])))

  -- From the start of the library on, enumeration.cpp runs to its end on every factory that lists its
  -- devices properly: with a line for each device, and the logger deleted last, behind every message;
  -- or with the exception that there is no backend, and the logger still there.
  pub enumeration_main_lem :
      (Made : F → Type 0) (s : Run fl m lib)
      → Lists factories Made
      → AllMake Made creators
      → s.logger ≡ unused
      → (s' : Run fl m lib) × (enumeration_main fl m lib s ≡ some s') × Ends Made s s'
  unfolding enumeration_main
  enumeration_main_lem Made s lists make e =
      let (w, made) = factory_of_build_lem fl m lib Made (lively fl m lib s) make refl in
      let begun =
        ap
          (λ r. caught fl m lib (
            then_run fl m lib
              (then_run fl m lib r (λ _ t.
                then_run fl m lib (factory_of_build fl m lib t)
                  (λ fact. with_factory fl m lib fact (enumerate fl m lib fact))))
              (λ _. tell fl m lib (shutting_down ∷ []))))
          (set_up_lem fl m lib s e) in
      elim made [
        | inl (fact, is_made, got) ↦
            let names = lists.names_counted fact is_made in
            let same = names ∙ sym (lists.channels_counted fact is_made) in
            (
              _,
              begun
                  ∙ ap after_factory got
                  ∙ finished_lem fl m lib fact (enumerate fl m lib fact) _ _
                      (enumerate_lem fact _ same) refl,
              inl (fact, is_made, refl, refl, length-lines _ _ same ∙ names),
            )
        | inr got ↦ (_, begun ∙ ap after_factory got, inr (refl, refl))
      ]

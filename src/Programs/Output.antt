-- ===== src/Programs/Output.antt =====
-- How src/tests/output.cpp ends, and that it keeps the rules of the library.
use Prim.Native.String.{String}
use audio_io.Prelude.{
  ◌≡◌, ◌≢◌, ◌⊎◌, inl, inr, refl, ap, ◌∙◌, Option, none, some, List, [], ◌∷◌, ◌++◌, append_assoc,
  Option-cases,
}
use audio_io.Sample.{Float}
use audio_io.Device.{AudioIoError, Result, ok, throw, what, Creator, no_backend_error}
use audio_io.Device.Interface.{Called, Makes, AllMake}
use audio_io.Logging.{unused, shutting_down}
use audio_io.Logging.Life.{used, gone}
use audio_io.Programs.Generator.{Maths}
use audio_io.Programs.{
  Line, usage, playing, using_factory, exception, create_device, sleep, destroy_device, Globals,
  globals_of, Library, device_for, play, run_output, output_main, with_factory, then_run, caught,
  tell, in_session, ask,
}
use audio_io.Programs.Runs.{
  Run, lively, ask_lem, set_up_lem, with_factory_lem, finished_lem, factory_of_build_lem,
}

-- Whatever a creator makes, it has made.
made_something : {F : Type 0} (o : Option F) → Makes (λ _. Unit) o
made_something none = tt
made_something (some fact) = tt

all_make : {W F : Type 0} (creators : List (Creator W F)) → AllMake (λ _. Unit) creators
all_make [] = tt
all_make (create ∷ creators) = (λ world. made_something (create world).0, all_make creators)

module _ (fl : Float) (m : Maths fl) (lib : Library fl m) where
  open lib use {W, F, D, factories, devices, creators, play_on}

  -- createDevice does no undefined behaviour with these variables.
  abbrev pub Defined : Globals → Type 0
  Defined g = (fact : F) (w : W) → device_for fl m lib fact g w ≢ none

  -- The device has played, or could not be made.
  record Played (fact : F) (g : Globals) (s : Run fl m lib) : Type 0 where
    result : Result Unit
    after : Run fl m lib
    gives : play fl m lib fact g s ≡ some (result, after)
    alive : after.logger ≡ used
    shown : after.printed ≡ s.printed ++ (using_factory (factories.get_name fact) ∷ [])

  -- What follows the construction of the device.
  abbrev after_device : Called (Run fl m lib) D → Called (Run fl m lib) Unit
  after_device r = then_run fl m lib r (λ dev s.
      then_run fl m lib (ask fl m lib sleep (λ w. some (ok tt, play_on w)) s)
        (λ _. ask fl m lib destroy_device (λ w. some (ok tt, devices.destroy dev w))))

  device_played :
      (dev : D) (s : Run fl m lib)
      → s.logger ≡ used
      → after_device (some (ok dev, s))
        ≡ some (ok tt, record (lively fl m lib s) { world = devices.destroy dev (play_on s.world) })
  device_played dev s e =
      ap
        (λ r.
          then_run fl m lib r
            (λ _. ask fl m lib destroy_device (λ w. some (ok tt, devices.destroy dev w))))
        (ask_lem fl m lib sleep (λ (w : W). some (ok tt, play_on w)) s e)
      ∙ ask_lem fl m lib destroy_device (λ (w : W). some (ok tt, devices.destroy dev w)) _ refl

  play_lem :
      (fact : F) (g : Globals) (s : Run fl m lib) → Defined g → s.logger ≡ used → Played fact g s
  unfolding play
  play_lem fact g s defined e =
      let shown : Run fl m lib = record s {
        printed = s.printed ++ (using_factory (factories.get_name fact) ∷ []);
      } in
      let asked = ask_lem fl m lib create_device (device_for fl m lib fact g) shown e in
      elim (Option-cases (device_for fl m lib fact g s.world)) [
        | inl fails ↦ absurd (defined fact s.world fails)
        | inr ((ok dev, w), made) ↦ record {
          result = ok tt;
          after = record (lively fl m lib shown) { world = devices.destroy dev (play_on w) };
          gives =
              ap after_device (asked ∙ ap (in_session fl m lib (lively fl m lib shown)) made)
              ∙ device_played dev _ refl;
          alive = refl;
          shown = refl;
        }
        | inr ((throw e', w), made) ↦ record {
          result = throw e';
          after = record (lively fl m lib shown) { world = w };
          gives = ap after_device (asked ∙ ap (in_session fl m lib (lively fl m lib shown)) made);
          alive = refl;
          shown = refl;
        }
      ]

  -- How the program ends with four arguments, when `before` was printed before: it has played, and the
  -- logger is deleted; or it has shown an exception, of createDevice or because there is no backend.
  abbrev pub Heard : Globals → List Line → Run fl m lib → Type 0
  Heard g before s =
      let parameters = playing g.channels g.sr g.block_size g.mixahead in
      ((fact : F) × (s.logger ≡ gone)
        × (s.printed ≡ before ++ (parameters ∷ using_factory (factories.get_name fact) ∷ [])))
      ⊎ ((fact : F) × (e : AudioIoError) × (s.logger ≡ used)
          × (s.printed
              ≡ before
                ++ (parameters
                    ∷ using_factory (factories.get_name fact)
                    ∷ exception (what e)
                    ∷ [])))
      ⊎ ((s.logger ≡ used)
          × (s.printed ≡ before ++ (parameters ∷ exception (what no_backend_error) ∷ [])))

  -- With another number of arguments, in the world `w`: it has shown how it is used, and asked nothing
  -- of the library.
  abbrev pub Explained : List Line → W → Run fl m lib → Type 0
  Explained before w s = (s.logger ≡ used) × (s.world ≡ w) × (s.printed ≡ before ++ (usage ∷ []))

  abbrev pub Ends : List String → List Line → W → Run fl m lib → Type 0
  Ends (c ∷ r ∷ b ∷ a ∷ []) before w s = Heard (globals_of fl m lib c r b a) before s
  Ends _ before w s = Explained before w s

  abbrev pub Fine : List String → Type 0
  Fine (c ∷ r ∷ b ∷ a ∷ []) = Defined (globals_of fl m lib c r b a)
  Fine _ = Unit

  -- What follows the construction of the factory.
  abbrev after_factory : Globals → Called (Run fl m lib) F → Option (Run fl m lib)
  after_factory g r = caught fl m lib (
      then_run fl m lib
        (then_run fl m lib r (λ fact. with_factory fl m lib fact (play fl m lib fact g)))
        (λ _. tell fl m lib (shutting_down ∷ [])))

  played_lem :
      (fact : F) (g : Globals) (s : Run fl m lib) (before : List Line)
      → s.printed ≡ before ++ (playing g.channels g.sr g.block_size g.mixahead ∷ [])
      → Played fact g s
      → (s' : Run fl m lib) × (after_factory g (some (ok fact, s)) ≡ some s') × Heard g before s'
  played_lem fact g s before line p = go p.result p.gives
    where
      all_shown :
          p.after.printed
          ≡ before
            ++ (playing g.channels g.sr g.block_size g.mixahead
                ∷ using_factory (factories.get_name fact)
                ∷ [])
      all_shown =
          p.shown
          ∙ ap (λ ls. ls ++ (using_factory (factories.get_name fact) ∷ [])) line
          ∙ append_assoc before _ _

      go :
          (r : Result Unit)
          → play fl m lib fact g s ≡ some (r, p.after)
          → (s' : Run fl m lib) × (after_factory g (some (ok fact, s)) ≡ some s')
            × Heard g before s'
      go (ok _) gives = (
        _,
        finished_lem fl m lib fact (play fl m lib fact g) s p.after gives p.alive,
        inl (fact, refl, all_shown),
      )
      go (throw e) gives = (
        _,
        ap (λ o. caught fl m lib (then_run fl m lib o (λ _. tell fl m lib (shutting_down ∷ []))))
            (with_factory_lem fl m lib fact (play fl m lib fact g) s p.after (throw e) gives
              p.alive),
        inr (
            inl (
              fact,
              e,
              refl,
              ap (λ ls. ls ++ (exception (what e) ∷ [])) all_shown ∙ append_assoc before _ _,
            )),
      )

  run_output_lem :
      (args : List String) (s : Run fl m lib)
      → s.logger ≡ used
      → Fine args
      → (s' : Run fl m lib) × (caught fl m lib (run_output fl m lib args s) ≡ some s')
        × Ends args s.printed s.world s'
  unfolding run_output
  run_output_lem (c ∷ r ∷ b ∷ a ∷ []) s e fine =
      let g : Globals = globals_of fl m lib c r b a in
      let parameters = playing g.channels g.sr g.block_size g.mixahead in
      let shown : Run fl m lib = record s { printed = s.printed ++ (parameters ∷ []) } in
      let (w, made) = factory_of_build_lem fl m lib (λ _. Unit) shown (all_make creators) e in
      elim made [
        | inl (fact, _, got) ↦
            let t : Run fl m lib = record (lively fl m lib shown) { world = w } in
            let (s', result, heard) =
              played_lem fact g t s.printed refl (play_lem fact g t fine refl) in
            (s', ap (after_factory g) got ∙ result, heard)
        | inr got ↦ (_, ap (after_factory g) got, inr (inr (refl, append_assoc s.printed _ _)))
      ]
  run_output_lem [] s e fine = (_, refl, (e, refl, refl))
  run_output_lem (c ∷ []) s e fine = (_, refl, (e, refl, refl))
  run_output_lem (c ∷ r ∷ []) s e fine = (_, refl, (e, refl, refl))
  run_output_lem (c ∷ r ∷ b ∷ []) s e fine = (_, refl, (e, refl, refl))
  run_output_lem (c ∷ r ∷ b ∷ a ∷ x ∷ more) s e fine = (_, refl, (e, refl, refl))

  -- output.cpp runs to its end, if createDevice does no undefined behaviour with its arguments. With
  -- four arguments it plays, and deletes the logger last, behind every message; or it shows the
  -- exception, with the logger still there. Otherwise it shows how it is used, and asks nothing of the
  -- library.
  pub output_main_lem :
      (args : List String) (s : Run fl m lib)
      → s.logger ≡ unused
      → Fine args
      → (s' : Run fl m lib) × (output_main fl m lib args s ≡ some s')
        × Ends args s.printed s.world s'
  unfolding output_main
  output_main_lem args s e fine =
      let (s', result, ends) = run_output_lem args (lively fl m lib s) refl fine in
      (
        s',
        ap (λ r. caught fl m lib (then_run fl m lib r (λ _. run_output fl m lib args)))
              (set_up_lem fl m lib s e)
            ∙ result,
        ends,
      )

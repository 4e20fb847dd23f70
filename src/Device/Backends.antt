-- ===== src/Device/Backends.antt =====
-- Which backend getOutputDeviceFactory takes.
use audio_io.Prelude.{
  ◌≡◌, refl, Option, none, some, List, [], ◌∷◌, ◌++◌, ◌⊎◌, inl, inr, Option-cases, ap,
}
use audio_io.Device.{
  no_backend_error, ok, throw, Creator, first_factory, or_throw, get_output_device_factory,
}

module _ {W F : Type 0} where
  -- The creators are called one after the other, and none makes a factory.
  abbrev pub AllFail : List (Creator W F) → W → W → Type 0
  AllFail [] world world' = Path W world world'
  AllFail (create ∷ creators) world world' =
      ((create world).0 ≡ none) × AllFail creators (create world).1 world'

  -- The factory is the one of `create`, after the creators before it have failed.
  pub record Taken (creators : List (Creator W F)) (world : W) (fact : F) (world' : W)
      : Type 0 where
    pub before : List (Creator W F)
    pub after : List (Creator W F)
    pub create : Creator W F
    pub at : W
    pub split : creators ≡ before ++ (create ∷ after)
    pub failed : AllFail before world at
    pub made : create at ≡ (some fact, world')

  abbrev Outcome : List (Creator W F) → W → Option F × W → Type 0
  Outcome creators world result =
      ((fact : F) × (world' : W) × (result ≡ (some fact, world'))
        × Taken creators world fact world')
      ⊎ ((world' : W) × (result ≡ (none, world')) × AllFail creators world world')

  first_factory_outcome :
      (creators : List (Creator W F)) (world : W)
      → Outcome creators world (first_factory creators world)
  unfolding first_factory
  first_factory_outcome [] world = inr (world, refl, refl)
  first_factory_outcome (create ∷ creators) world = elim (Option-cases (create world).0) [
    | inr (fact, made) ↦ inl (
      fact,
      (create world).1,
      rw made refl,
      record {
        before = [];
        after = creators;
        create = create;
        at = world;
        split = refl;
        failed = refl;
        made = λ i. (made i, (create world).1);
      },
    )
    | inl missing ↦ elim (first_factory_outcome creators (create world).1) [
      | inl (fact, world', result, taken) ↦ inl (
        fact,
        world',
        rw missing result,
        record {
          before = create ∷ taken.before;
          after = taken.after;
          create = taken.create;
          at = taken.at;
          split = ap (λ cs. create ∷ cs) taken.split;
          failed = (missing, taken.failed);
          made = taken.made;
        },
      )
      | inr (world', result, fails) ↦ inr (world', rw missing result, (missing, fails))
    ]
  ]

  -- getOutputDeviceFactory gives the factory of the first backend that has one, and does not try
  -- those after it; it throws NoBackendError exactly when every backend of the build fails.
  pub get_output_device_factory_lem :
      (creators : List (Creator W F)) (world : W)
      → ((fact : F) × (world' : W) × (get_output_device_factory creators world ≡ (ok fact, world'))
          × Taken creators world fact world')
        ⊎ ((world' : W) × (get_output_device_factory creators world
              ≡ (throw no_backend_error, world'))
            × AllFail creators world world')
  unfolding get_output_device_factory
  get_output_device_factory_lem creators world = elim (first_factory_outcome creators world) [
    | inl (fact, world', result, taken) ↦ inl (fact, world', ap or_throw result, taken)
    | inr (world', result, fails) ↦ inr (world', ap or_throw result, fails)
  ]

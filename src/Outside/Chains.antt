-- ===== src/Outside/Chains.antt =====
-- Chains of calls that throw at the first that fails.
use Prim.Native.String.{String}
use audio_io.Prelude.{
  ◌≡◌, refl, not, ap, ◌∙◌, Bool, true, false, Option, none, some, List, [], ◌∷◌, inl, inr,
  Bool-cases,
}
use audio_io.Device.{AudioIoError, audio_io_error}
use audio_io.Outside.{
  Service, Driver, Outcome, done, thrown, undefined, M, pure, bind, then_do, or_undefined, attempt,
}

-- `message_of` is what the user is told if a call fails; a call that must not be made has no message.
module _ (Call Reply : Type 0) (succeeded : Call → Reply → Bool) (service : Service Call Reply)
    (message_of : Call → Option String) where
  -- Only calls with a message, and all of them succeeded.
  abbrev pub AllWell : List (Call × Bool) → Type 0
  AllWell [] = Unit
  AllWell ((call, well) ∷ earlier) =
      (well ≡ true) × ((text : String) × (message_of call ≡ some text)) × AllWell earlier

  -- The latest call failed, the ones before succeeded, and the exception says which it was.
  pub record FailedLast (e : AudioIoError) (log : List (Call × Bool)) : Type 0 where
    pub call : Call
    pub earlier : List (Call × Bool)
    pub latest : log ≡ (call, false) ∷ earlier
    pub before : AllWell earlier
    pub text : String
    pub says : e ≡ audio_io_error text
    pub message : message_of call ≡ some text

  abbrev pub Post : {A : Type 0} → Outcome Call Reply succeeded service A → Type 0
  Post (done a s) = AllWell s.log
  Post (thrown e s) = FailedLast e s.log
  Post undefined = Unit

  -- From calls that succeeded `m` leads to calls that succeeded, or to an exception for the first
  -- that failed.
  abbrev pub Sound : {A : Type 0} → M Call Reply succeeded service A → Type 0
  Sound m = (s : Driver Call Reply succeeded service) → AllWell s.log → Post (m s)

  pub attempt-Sound :
      (fails : Reply → Bool) (call : Call) (text : String)
      → message_of call ≡ some text
      → ((reply : Reply) → succeeded call reply ≡ not (fails reply))
      → Sound (attempt Call Reply succeeded service fails call text)
  attempt-Sound fails call text told checked s well =
      let result = (service.answer call s.world).1 in
      elim (Bool-cases (fails result)) [
        | inl failed ↦ rw failed (record {
          call = call;
          earlier = s.log;
          latest = ap (λ well'. (call, well') ∷ s.log) (checked result ∙ ap not failed);
          before = well;
          text = text;
          says = refl;
          message = told;
        })
        | inr fine ↦ rw fine (checked result ∙ ap not fine, (text, told), well)
      ]

  pub then_do-Post :
      {A B : Type 0} (o : Outcome Call Reply succeeded service A)
      (f : A → M Call Reply succeeded service B)
      → Post o
      → ((a : A) → Sound (f a))
      → Post (then_do Call Reply succeeded service o f)
  then_do-Post (done a s) f h sound = sound a s h
  then_do-Post (thrown e s) f h sound = h
  then_do-Post undefined f h sound = tt

  pub bind-Sound :
      {A B : Type 0} (m : M Call Reply succeeded service A)
      (f : A → M Call Reply succeeded service B)
      → Sound m
      → ((a : A) → Sound (f a))
      → Sound (bind Call Reply succeeded service m f)
  bind-Sound m f first later s well = then_do-Post (m s) f (first s well) later

  pub or_undefined-Sound :
      {A : Type 0} (o : Option A) → Sound (or_undefined Call Reply succeeded service o)
  or_undefined-Sound none s well = tt
  or_undefined-Sound (some a) s well = well

  pub pure-Sound : {A : Type 0} (a : A) → Sound (pure Call Reply succeeded service a)
  pure-Sound a s well = well

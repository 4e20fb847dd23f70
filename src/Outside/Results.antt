-- ===== src/Outside/Results.antt =====
-- What chains of calls return, when they do not throw.
use Prim.Native.String.{String}
use audio_io.Prelude.{Bool, inl, inr, Bool-cases}
use audio_io.Outside.{Service, Driver, Outcome, done, thrown, undefined, M, bind, then_do, attempt}

module _ (Call Reply : Type 0) (succeeded : Call → Reply → Bool)
    (service : Service Call Reply) where
  -- A result with the property, or an exception.
  abbrev pub Good : {A : Type 0} → (A → Type 0) → Outcome Call Reply succeeded service A → Type 0
  Good P (done a s) = P a
  Good P (thrown e s) = Unit
  Good P undefined = ⊥

  abbrev pub Gives : {A : Type 0} → (A → Type 0) → M Call Reply succeeded service A → Type 0
  Gives P m = (s : Driver Call Reply succeeded service) → Good P (m s)

  pub attempt-Gives :
      (fails : Reply → Bool) (call : Call) (text : String)
      → Gives (λ reply. Unit) (attempt Call Reply succeeded service fails call text)
  attempt-Gives fails call text s = elim (Bool-cases (fails (service.answer call s.world).1)) [
    | inl failed ↦ rw failed tt
    | inr fine ↦ rw fine tt
  ]

  then_do-Good :
      {A B : Type 0} (P : A → Type 0) (Q : B → Type 0) (o : Outcome Call Reply succeeded service A)
      (f : A → M Call Reply succeeded service B)
      → Good P o
      → ((a : A) → P a → Gives Q (f a))
      → Good Q (then_do Call Reply succeeded service o f)
  then_do-Good P Q (done a s) f h gives = gives a h s
  then_do-Good P Q (thrown e s) f h gives = tt
  then_do-Good P Q undefined f h gives = absurd h

  pub bind-Gives :
      {A B : Type 0} (P : A → Type 0) (Q : B → Type 0) (m : M Call Reply succeeded service A)
      (f : A → M Call Reply succeeded service B)
      → Gives P m
      → ((a : A) → P a → Gives Q (f a))
      → Gives Q (bind Call Reply succeeded service m f)
  bind-Gives P Q m f first later s = then_do-Good P Q (m s) f (first s) later

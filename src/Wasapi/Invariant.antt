-- ===== src/Wasapi/Invariant.antt =====
-- One round of the mixing thread of the WASAPI backend over an IAudioClient that was initialised.
use audio_io.Prelude.{
  ℕ, ◌-◌, ◌*◌, ◌≤◌, ◌≡◌, ◌≢◌, ◌∙◌, inl, inr, refl, not, sym, subst, arith, Bool, true, false,
  Bool-cases, Option, some, List, [], ◌∷◌, leb, ◌==◌, if◌then◌else◌,
}
use audio_io.Sample.{Float, Buffer}
use audio_io.Converter.{Client, ResamplerLib}
use audio_io.Worker.Queue.{AudioCommand, SpscQueue}
use audio_io.Worker.System.{System}
use audio_io.Worker.Steady.{Steady, write-Filled}
use audio_io.Wasapi.Calls.{
  ComCall, get_buffer_size, get_service, get_current_padding, get_buffer, release_buffer, Com,
  is_error, Driver,
}
use audio_io.Wasapi.Playback.{Playing, Session, hand_over, deliver, fill, round}

-- The calls that take and give back the device's buffer: none asks for more than `size` frames, and
-- every buffer that is given back has been got by the call before, with the same number of frames.
abbrev pub Got : {F : Type 0} → ℕ → List (ComCall F × Bool) → Type 0
Got n [] = ⊥
Got n ((get_buffer render m, well) ∷ earlier) = (m ≡ n) × (well ≡ true)
Got n (_ ∷ earlier) = ⊥

abbrev pub Obeys : {F : Type 0} → ℕ → List (ComCall F × Bool) → Type 0
Obeys size [] = Unit
Obeys size ((get_buffer render n, well) ∷ earlier) = (n ≤ size) × Obeys size earlier
Obeys size ((release_buffer render samples n, well) ∷ earlier) = Got n earlier × Obeys size earlier
Obeys size (_ ∷ earlier) = Obeys size earlier

-- What an IAudioClient that was initialised does: it knows the size of its buffer, which stays, it
-- has a render client, and the padding is no more than the size.
pub record Initialised {F : Type 0} (win : Com F) (audio_client size : ℕ) : Type 0 where
  pub size_known :
      (w : win.World)
      → (is_error (win.answer (get_buffer_size audio_client) w).1 ≡ false)
        × ((win.answer (get_buffer_size audio_client) w).1.value ≡ size)
  pub serves :
      (w : win.World)
      → (is_error (win.answer (get_service audio_client) w).1 ≡ false)
        × ((win.answer (get_service audio_client) w).1.value ≢ 0)
  pub padded :
      (w : win.World)
      → is_error (win.answer (get_current_padding audio_client) w).1 ≡ false
      → (win.answer (get_current_padding audio_client) w).1.value ≤ size

module _ (fl : Float) (client : Client fl) (lib : ResamplerLib fl)
    (spsc : SpscQueue (AudioCommand fl)) (win : Com fl.F) (resample_fuel : ℕ) where
  abbrev State : Type 0
  State = System fl client lib spsc resample_fuel

  abbrev Thread : Type 0
  Thread = Playing fl client lib spsc win resample_fuel

  module _ (size output_channels : ℕ) (beyond : Buffer fl) where
    -- The invariant of the loop. The storage has size * output_channels samples.
    pub record Sound (s : Thread) : Type 0 where
      pub steady : Steady fl client lib spsc resample_fuel s.system
      pub channels : s.system.object.destination_channels ≡ output_channels
      pub outside : (k : ℕ) → size * output_channels ≤ k → s.storage k ≡ beyond k
      pub obeys : Obeys size s.driver.log

    pub with_driver :
        (s : Thread) (d : Driver fl.F win)
        → Sound s
        → Obeys size d.log
        → Sound (record s { driver = d })
    with_driver s d v obeys = record {
      steady = v.steady;
      channels = v.channels;
      outside = v.outside;
      obeys = obeys;
    }

    hand_over-Obeys :
        (refused : Bool) (render written : ℕ) (storage : Buffer fl) (w : win.World)
        (log : List (ComCall fl.F × Bool))
        → written ≤ size
        → Obeys size log
        → Obeys size
            (hand_over fl client lib spsc win resample_fuel refused render written storage
              (record { world = w; log = (get_buffer render written, not refused) ∷ log })).log
    unfolding hand_over
    hand_over-Obeys true render written storage w log le h = (le, h)
    hand_over-Obeys false render written storage w log le h = ((refl, refl), (le, h))

    deliver-Sound :
        (session : Session fl client lib spsc win resample_fuel) (render written : ℕ) (s : Thread)
        → session.render_client ≡ some render
        → written ≤ size
        → Sound s
        → (t : Thread) × (deliver fl client lib spsc win resample_fuel session written s ≡ some t)
          × Sound t
    unfolding deliver
    deliver-Sound session render written s has le v =
        rw (deliver, has)
          (
            _,
            refl,
            with_driver s _ v
                (hand_over-Obeys _ render written s.storage _ s.driver.log le v.obeys),
          )

    fill-Sound :
        (session : Session fl client lib spsc win resample_fuel) (render padding : ℕ) (s : Thread)
        → session.render_client ≡ some render
        → session.buffer_size ≡ size
        → padding ≤ size
        → Sound s
        → (t : Thread) × (fill fl client lib spsc win resample_fuel session padding s ≡ some t)
          × Sound t
    unfolding fill
    fill-Sound session render padding s has same le v =
        let (x, e, filled) =
          write-Filled fl client lib spsc resample_fuel s.system s.storage
            (session.buffer_size - padding) size v.steady (omega arith) in
        let fits : leb padding session.buffer_size ≡ true = ground arith in
        let v' : Sound (record s { system = record (s.system) { object = x.1 }; storage = x.2 }) =
          record {
            steady = filled.steady;
            channels = filled.channels ∙ v.channels;
            outside = λ j far.
                filled.outside j (subst (λ c. size * c ≤ j) (sym v.channels) far) ∙ v.outside j far;
            obeys = v.obeys;
          } in
        elim (Bool-cases (x.0 == 0)) [
          | inl nothing ↦ rw (fill, fits, e, nothing) (_, refl, v')
          | inr something ↦
              rw (fill, fits, e, something)
                (deliver-Sound session render x.0 _ has (omega (arith, filled.no_more)) v')
        ]

    abbrev pub run_round : Session fl client lib spsc win resample_fuel → Thread → Option Thread
    run_round = round fl client lib spsc win resample_fuel

    pub round-Sound :
        (session : Session fl client lib spsc win resample_fuel) (render : ℕ) (s : Thread)
        → Initialised win session.audio_client size
        → session.render_client ≡ some render
        → session.buffer_size ≡ size
        → Sound s
        → (t : Thread) × (run_round session s ≡ some t) × Sound t
    unfolding round
    round-Sound session render s good has same v =
        let reply = (win.answer (get_current_padding session.audio_client) s.driver.world).1 in
        fill-Sound session render (if is_error reply then 0 else reply.value) _ has same
          (known (is_error reply) reply.value (good.padded s.driver.world))
          (with_driver s _ v v.obeys)
      where
        known :
            (failed : Bool) (value : ℕ)
            → (failed ≡ false → value ≤ size)
            → (if failed then 0 else value) ≤ size
        known true value le = omega arith
        known false value le = le refl

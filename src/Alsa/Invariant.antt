-- ===== src/Alsa/Invariant.antt =====
-- One round of the I/O thread of the ALSA backend, whatever libasound answers.
use audio_io.Prelude.{
  ℕ, ◌*◌, ◌≤◌, ◌≡◌, ◌∙◌, refl, arith, subst, sym, Bool, true, false, Bool-cases, Option, some, List,
  [], ◌∷◌, ltb, if◌then◌else◌, inl, inr, min,
}
use audio_io.Prelude.Int.{ℤ, pos_part}
use audio_io.Sample.{Float, Buffer}
use audio_io.Converter.{Client, ResamplerLib}
use audio_io.Worker.Queue.{AudioCommand, SpscQueue}
use audio_io.Worker.System.{System}
use audio_io.Worker.Steady.{Steady, behind, write-Filled}
use audio_io.Alsa.Calls.{AlsaCall, avail_update, recover, writei, wait, Libasound, negative, Driver}
use audio_io.Alsa.Surround.{reorder_miss}
use audio_io.Alsa.Playback.{
  Round, cleanup, Playing, alsarec, recovered, hand_over, fill, go_on, round,
}

-- The frames that a call hands to the device.
abbrev pub frames_of : {F : Type 0} → AlsaCall F → ℕ
frames_of (writei samples n) = n
frames_of _ = 0

-- No call has handed over more than `n` frames.
abbrev pub Fits : {F : Type 0} → ℕ → List (AlsaCall F × Bool) → Type 0
Fits n [] = Unit
Fits n ((call, well) ∷ earlier) = (frames_of call ≤ n) × Fits n earlier

module _ (fl : Float) (client : Client fl) (lib : ResamplerLib fl)
    (spsc : SpscQueue (AudioCommand fl)) (alsa : Libasound fl.F) (resample_fuel : ℕ) where
  abbrev pub State : Type 0
  State = System fl client lib spsc resample_fuel

  abbrev Thread : Type 0
  Thread = Playing fl client lib spsc alsa resample_fuel

  module _ (output_channels alsa_buffer_frames : ℕ) (beyond : Buffer fl) where
    -- The invariant of the loop. The workspace has alsa_buffer_frames * output_channels samples.
    pub record Sound (s : Thread) : Type 0 where
      pub steady : Steady fl client lib spsc resample_fuel s.system
      pub channels : s.system.object.destination_channels ≡ output_channels
      pub outside : (k : ℕ) → alsa_buffer_frames * output_channels ≤ k → s.workspace k ≡ beyond k
      pub fits : Fits alsa_buffer_frames s.driver.log

    recovered-Fits :
        (call : AlsaCall fl.F) (d : Driver fl.F alsa)
        → frames_of call ≤ alsa_buffer_frames
        → Fits alsa_buffer_frames d.log
        → Fits alsa_buffer_frames (recovered fl client lib spsc alsa resample_fuel call d).2.log
    recovered-Fits call d le h = ground arith

    pub with_driver :
        (s : Thread) (d : Driver fl.F alsa)
        → Sound s
        → Fits alsa_buffer_frames d.log
        → Sound (record s { driver = d })
    with_driver s d v fits = record {
      steady = v.steady;
      channels = v.channels;
      outside = v.outside;
      fits = fits;
    }

    hand_over-Sound :
        (written : ℕ) (s : Thread)
        → written ≤ alsa_buffer_frames
        → Sound s
        → Sound (hand_over fl client lib spsc alsa resample_fuel written s).1
    unfolding hand_over
    hand_over-Sound written s le v =
        let wrote = recovered-Fits (writei s.workspace written) s.driver le v.fits in
        let waited =
          recovered-Fits (wait 200)
            (recovered fl client lib spsc alsa resample_fuel (writei s.workspace written)
              s.driver).2
            (omega arith) wrote in
        elim (Bool-cases
          (recovered fl client lib spsc alsa resample_fuel (writei s.workspace written)
            s.driver).1) [
              | inl lost ↦ rw lost (with_driver s _ v wrote)
              | inr fine ↦
                  rw fine
                    (elim (Bool-cases
                      (recovered fl client lib spsc alsa resample_fuel (wait 200)
                        (recovered fl client lib spsc alsa resample_fuel
                          (writei s.workspace written) s.driver).2).1) [
                            | inl lost ↦ rw lost (with_driver s _ v waited)
                            | inr fine ↦ rw fine (with_driver s _ v waited)
                          ])
            ]

    at_most : (n a : ℕ) → (if ltb n a then n else a) ≡ min n a
    at_most n a = ground arith

    fill-Sound :
        (available : ℕ) (s : Thread)
        → Sound s
        → (x : ℕ × Thread) × (fill fl client lib spsc alsa resample_fuel output_channels
              alsa_buffer_frames available s
            ≡ some x)
          × (x.0 ≤ alsa_buffer_frames)
          × Sound x.1
    unfolding fill
    fill-Sound available s v =
        let (x, e, filled) =
          write-Filled fl client lib spsc resample_fuel s.system s.workspace
            (if ltb alsa_buffer_frames available then alsa_buffer_frames else available)
            alsa_buffer_frames v.steady (omega (arith, at_most alsa_buffer_frames available)) in
        let le : x.0 ≤ alsa_buffer_frames =
          omega (arith, at_most alsa_buffer_frames available, filled.no_more) in
        rw (fill, e)
          (
            _,
            refl,
            le,
            record {
              steady = filled.steady;
              channels = filled.channels ∙ v.channels;
              outside = λ j far.
                  reorder_miss output_channels x.0 j x.2 (
                    behind fl client lib spsc resample_fuel x.0 alsa_buffer_frames output_channels j
                      le far)
                  ∙ filled.outside j (subst (λ c. alsa_buffer_frames * c ≤ j) (sym v.channels) far)
                  ∙ v.outside j far;
              fits = v.fits;
            },
          )

    -- The latest call was an attempt to recover, and failed.
    abbrev pub GaveUp : List (AlsaCall fl.F × Bool) → Type 0
    GaveUp log =
        (err : ℤ) × (earlier : List (AlsaCall fl.F × Bool)) × (log ≡ (recover err, false) ∷ earlier)

    alsarec-GaveUp :
        (err : ℤ) (d : Driver fl.F alsa)
        → (alsarec fl client lib spsc alsa resample_fuel err d).0 ≡ true
        → GaveUp (alsarec fl client lib spsc alsa resample_fuel err d).1.log
    alsarec-GaveUp err d lost = (err, d.log, ground arith)

    recovered-GaveUp :
        (call : AlsaCall fl.F) (d : Driver fl.F alsa)
        → (recovered fl client lib spsc alsa resample_fuel call d).1 ≡ true
        → GaveUp (recovered fl client lib spsc alsa resample_fuel call d).2.log
    recovered-GaveUp call d lost = alsarec-GaveUp _ _ lost

    hand_over-GaveUp :
        (written : ℕ) (s : Thread)
        → (hand_over fl client lib spsc alsa resample_fuel written s).0 ≡ cleanup
        → GaveUp (hand_over fl client lib spsc alsa resample_fuel written s).1.driver.log
    unfolding hand_over
    hand_over-GaveUp written s left =
        let wrote =
          recovered fl client lib spsc alsa resample_fuel (writei s.workspace written) s.driver in
        let waited = recovered fl client lib spsc alsa resample_fuel (wait 200) wrote.2 in
        elim (Bool-cases wrote.1) [
          | inl lost ↦
              rw (hand_over, lost) (recovered-GaveUp (writei s.workspace written) s.driver lost)
          | inr fine ↦ elim (Bool-cases waited.1) [
            | inl lost ↦ rw (hand_over, fine, lost) (recovered-GaveUp (wait 200) wrote.2 lost)
            | inr fine' ↦ absurd (ground arith)
          ]
        ]

    abbrev pub run_round : Thread → Option (Round × Thread)
    run_round = round fl client lib spsc alsa resample_fuel output_channels alsa_buffer_frames

    -- What a round that has ended in `x` leaves.
    abbrev pub Ended : Round × Thread → Type 0
    Ended x = Sound x.1 × (x.0 ≡ cleanup → GaveUp x.1.driver.log)

    go_on-Sound :
        (available : ℤ) (lost : Bool) (s : Thread)
        → Sound s
        → (lost ≡ true → GaveUp s.driver.log)
        → (x : Round × Thread) × (go_on fl client lib spsc alsa resample_fuel output_channels
              alsa_buffer_frames available lost s
            ≡ some x)
          × Ended x
    unfolding go_on
    go_on-Sound available true s v gave = (_, refl, (v, λ e. gave refl))
    go_on-Sound available false s v gave = elim (Bool-cases (negative available)) [
      | inl under ↦ rw (go_on, under) (_, refl, (v, λ e. absurd (cc e)))
      | inr enough ↦
          let (x, e, le, v') = fill-Sound (pos_part available) s v in
          rw (go_on, enough, e) (_, refl, (hand_over-Sound x.0 x.1 le v', hand_over-GaveUp x.0 x.1))
    ]

    pub round-Sound :
        (s : Thread) → Sound s → (x : Round × Thread) × (run_round s ≡ some x) × Ended x
    unfolding round
    round-Sound s v =
        go_on-Sound _ _ _
          (with_driver s _ v (recovered-Fits avail_update s.driver (omega arith) v.fits))
          (recovered-GaveUp avail_update s.driver)

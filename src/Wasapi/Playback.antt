-- ===== src/Wasapi/Playback.antt =====
-- WasapiOutputDevice::wasapiMixingThreadFunction of src/audio_io/wasapi/output_device.cpp, with the
-- worker thread that fills the buffers: it takes as many steps as a schedule says before each round,
-- and stands still during one. `none` is undefined behaviour or a loop that does not end.
use audio_io.Prelude.{
  ℕ, ◌-◌, ◌*◌, Bool, true, false, Option, none, some, List, [], ◌∷◌, ltb, leb, ◌==◌, if◌then◌else◌,
}
use audio_io.Sample.{Float, Buffer}
use audio_io.Converter.{Client, ResamplerLib}
use audio_io.Worker.Queue.{AudioCommand, SpscQueue}
use audio_io.Worker
use audio_io.Worker.System.{System, mixed_by}
use audio_io.Wasapi.Calls.{
  co_initialize, get_buffer_size, get_service, create_event, set_event_handle, start,
  get_current_padding, get_buffer, release_buffer, wait_for, stop, reset, co_uninitialize,
  close_handle, Com, is_error, not_ok, Driver, request, call_only,
}

-- How far the thread is: in the loop, at its end, or at the early return without COM.
pub data Stage : Type 0 where
  looping ended no_com : Stage

-- wrapComPointer: a null pointer stays one.
unfoldable pub wrap_com_pointer : ℕ → Option ℕ
wrap_com_pointer what = if what == 0 then none else some what

module _ (fl : Float) (client : Client fl) (lib : ResamplerLib fl)
    (spsc : SpscQueue (AudioCommand fl)) (win : Com fl.F) (resample_fuel : ℕ) where
  -- OutputWorkerThread with its worker thread, `intermediateStorage`, and WASAPI.
  pub record Playing : Type 0 where
    pub system : System fl client lib spsc resample_fuel
    pub storage : Buffer fl
    pub driver : Driver fl.F win

  -- What the thread has got before the loop.
  pub record Session : Type 0 where
    pub audio_client : ℕ
    pub render_client : Option ℕ
    pub event : ℕ
    pub buffer_size : ℕ

  -- The frames are copied into the device's buffer, unless GetBuffer refused it.
  unfoldable pub hand_over : Bool → ℕ → ℕ → Buffer fl → Driver fl.F win → Driver fl.F win
  hand_over true render written storage d = d
  hand_over false render written storage d =
      call_only fl.F win (release_buffer render storage written) d

  -- The end of a round, which polls the event; a call through a null pointer is undefined.
  unfoldable pub deliver : Session → ℕ → Playing → Option Playing
  unfolding hand_over
  deliver session written s = elim session.render_client [
    | none ↦ none
    | some render ↦
        let (got, d) = request fl.F win (get_buffer render written) s.driver in
        let d' = hand_over (not_ok got) render written s.storage d in
        some (record s { driver = call_only fl.F win (wait_for session.event) d' })
  ]

  -- A round once the padding is known; a padding beyond the buffer is undefined.
  unfoldable pub fill : Session → ℕ → Playing → Option Playing
  unfolding deliver
  fill session padding s =
      if leb padding session.buffer_size
      then elim (Worker.write fl client lib spsc (session.buffer_size - padding) 0 s.system.object
          s.storage) [
            | none ↦ none
            | some (written, w, storage) ↦
                let s' = record s {
                  system = record (s.system) { object = w };
                  storage = storage;
                } in
                if written == 0 then some s' else deliver session written s'
          ]
      else none

  -- The body of the loop; the padding stays 0 if the call fails.
  unfoldable pub round : Session → Playing → Option Playing
  unfolding fill
  round session s =
      let (reply, d) = request fl.F win (get_current_padding session.audio_client) s.driver in
      fill session (if is_error reply then 0 else reply.value) (record s { driver = d })

  -- What follows the loop.
  unfoldable pub finish : Session → Playing → Playing
  finish session s =
      let d = call_only fl.F win (stop session.audio_client) s.driver in
      let d' = call_only fl.F win (reset session.audio_client) d in
      let d'' = call_only fl.F win co_uninitialize d' in
      record s { driver = call_only fl.F win (close_handle session.event) d'' }

  -- The while loop: for each test of the flag, the steps that the worker thread takes before it, and
  -- what it finds.
  unfoldable pub rounds : Session → List (ℕ × Bool) → Playing → Option (Stage × Playing)
  unfolding round finish
  rounds session [] s = some (looping, s)
  rounds session ((steps, running) ∷ later) s =
      let s' = record s { system = mixed_by fl client lib spsc resample_fuel steps s.system } in
      if running
      then elim (round session s') [ none ↦ none | some s'' ↦ rounds session later s'' ]
      else some (ended, finish session s')

  -- The calls before the loop; a size that is not known is undefined.
  unfoldable pub prepare : ℕ → Driver fl.F win → Option (Session × Driver fl.F win)
  unfolding wrap_com_pointer
  prepare audio_client d =
      let (size, d1) = request fl.F win (get_buffer_size audio_client) d in
      let (service, d2) = request fl.F win (get_service audio_client) d1 in
      let (event, d3) = request fl.F win create_event d2 in
      let d4 = call_only fl.F win (set_event_handle audio_client) d3 in
      let session : Session = record {
        audio_client = audio_client;
        render_client = if is_error service then none else wrap_com_pointer service.value;
        event = event.value;
        buffer_size = size.value;
      } in
      if is_error size then none else some (session, call_only fl.F win (start audio_client) d4)

  -- wasapiMixingThreadFunction, after awaitInitialMix: the storage is cleared first. What lies behind
  -- it in memory is `beyond`.
  unfoldable pub mixing_thread_function :
      ℕ
      → ℕ
      → List (ℕ × Bool)
      → Buffer fl
      → System fl client lib spsc resample_fuel
      → Driver fl.F win
      → Option (Stage × Playing)
  mixing_thread_function audio_client output_channels schedule beyond system driver =
      let (initialized, d) = request fl.F win co_initialize driver in
      if is_error initialized
      then some (no_com, record { system = system; storage = beyond; driver = d })
      else elim (prepare audio_client d) [
        | none ↦ none
        | some (session, d') ↦ rounds session schedule (record {
          system = system;
          storage =
              λ k. if ltb k (session.buffer_size * output_channels) then fl.lit 0 else beyond k;
          driver = d';
        })
      ]

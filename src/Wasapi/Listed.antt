-- ===== src/Wasapi/Listed.antt =====
-- What WasapiOutputDeviceFactory lists after its scan.
use Prim.Native.String.{String}
use audio_io.Prelude.{
  ℕ, zero, suc, ◌+◌, ◌≡◌, refl, sym, arith, ap, ◌∙◌, Bool-cases, Option, none, some, List, [], ◌∷◌,
  length, length-append, inl, inr,
}
use audio_io.Sample.{Float}
use audio_io.Converter.{Client, ResamplerLib}
use audio_io.Worker.Queue.{AudioCommand, SpscQueue}
use audio_io.Outside.{done, thrown, undefined, Outcome}
use audio_io.Outside.Results
use audio_io.Wasapi.Calls.{
  ComCall, create_enumerator, get_default_audio_endpoint, activate, get_mix_format, initialize,
  Reply, Com, is_error, succeeded, M, Driver, bind, attempt,
}
use audio_io.Wasapi.Factory.{
  WasapiOutputDeviceFactory, get_output_count, scan_item, scan_items, rescan, create_factory,
  or_null, caught, create_wasapi_output_device_factory,
}

abbrev pub keys : List (ℕ × String) → List ℕ
keys [] = []
keys ((key, id) ∷ entries) = key ∷ keys entries

-- n - 1, ..., 1, 0
abbrev pub below : ℕ → List ℕ
below zero = []
below (suc n) = n ∷ below n

-- As many channel counts as names, and an identifier for each index and for no other.
pub record Listed (factory : WasapiOutputDeviceFactory) : Type 0 where
  pub channels : length factory.max_channels ≡ get_output_count factory
  pub identifiers : keys factory.ids_to_id_strings ≡ below (get_output_count factory)

module _ (fl : Float) (client : Client fl) (lib : ResamplerLib fl)
    (spsc : SpscQueue (AudioCommand fl)) (win : Com fl.F) where
  abbrev Gives : {A : Type 0} → (A → Type 0) → M fl.F win A → Type 0
  Gives P m = Results.Gives (ComCall fl.F) Reply succeeded win P m

  called :
      {B : Type 0} (Q : B → Type 0) (call : ComCall fl.F) (text : String) (f : Reply → M fl.F win B)
      → ((reply : Reply) → Gives Q (f reply))
      → Gives Q (bind fl.F win (attempt fl.F win is_error call text) f)
  called Q call text f later =
      Results.bind-Gives (ComCall fl.F) Reply succeeded win (λ reply. Unit) Q _ f
        (Results.attempt-Gives (ComCall fl.F) Reply succeeded win is_error call text)
        (λ reply h. later reply)

  scan_item-Gives :
      (collection i : ℕ) → Gives (λ x. Unit) (scan_item fl client lib spsc win collection i)
  unfolding scan_item
  scan_item-Gives collection i = called _ _ _ _ λ device. called _ _ _ _ λ properties.
      called _ _ _ _ λ format. called _ _ _ _ λ identifier. called _ _ _ _ λ name. λ s. tt

  below_more : (n : ℕ) → below (n + 1) ≡ n ∷ below n
  below_more n = ap below {x = n + 1} {y = suc n} (omega arith)

  scan_items-Listed :
      (collection left i : ℕ) (factory : WasapiOutputDeviceFactory)
      → Listed factory
      → get_output_count factory ≡ i
      → Gives Listed (scan_items fl client lib spsc win collection left i factory)
  unfolding scan_items get_output_count
  scan_items-Listed collection zero i factory v count = λ s. v
  scan_items-Listed collection (suc left) i factory v count =
      Results.bind-Gives (ComCall fl.F) Reply succeeded win (λ x. Unit) Listed _ _
        (scan_item-Gives collection i)
        λ x h.
          let longer = length-append factory.names (x.0 ∷ []) in
          scan_items-Listed collection left (i + 1) _
            (record {
              channels =
                  omega (arith, length-append factory.max_channels (x.1 ∷ []), longer, v.channels);
              identifiers =
                  ap (λ ks. i ∷ ks) v.identifiers
                  ∙ ap (λ n. n ∷ below (length factory.names)) (sym count)
                  ∙ sym (below_more (length factory.names))
                  ∙ ap below (sym longer);
            })
            (omega (arith, longer))

  create_factory-Listed : Gives Listed (create_factory fl client lib spsc win)
  unfolding create_factory rescan get_output_count
  create_factory-Listed = called _ _ _ _ λ made. called _ _ _ _ λ collection.
      called _ _ _ _ λ count.
        scan_items-Listed collection.value count.value 0 _
          (record { channels = refl; identifiers = refl }) refl

  -- A call of createWasapiOutputDeviceFactory that has returned, with a factory that is listed if it
  -- gave one.
  abbrev pub Tried :
      Outcome (ComCall fl.F) Reply succeeded win (Option WasapiOutputDeviceFactory) → Type 0
  Tried (done none s) = Unit
  Tried (done (some factory) s) = Listed factory
  Tried (thrown e s) = ⊥
  Tried undefined = ⊥

  or_null-Tried :
      (call : ComCall fl.F) (f : Reply → M fl.F win (Option WasapiOutputDeviceFactory))
      (s : Driver fl.F win)
      → ((reply : Reply) (s' : Driver fl.F win) → Tried (f reply s'))
      → Tried (or_null fl client lib spsc win call f s)
  or_null-Tried call f s later = elim (Bool-cases (is_error (win.answer call s.world).1)) [
    | inl failed ↦ rw failed tt
    | inr fine ↦ rw fine (later _ _)
  ]

  caught-Tried :
      (o : Outcome (ComCall fl.F) Reply succeeded win WasapiOutputDeviceFactory)
      → Results.Good (ComCall fl.F) Reply succeeded win Listed o
      → Tried (caught fl client lib spsc win o)
  caught-Tried (done factory s) h = h
  caught-Tried (thrown e s) h = tt
  caught-Tried undefined h = h

  pub create_wasapi_output_device_factory_lem :
      (s : Driver fl.F win) → Tried (create_wasapi_output_device_factory fl client lib spsc win s)
  unfolding create_wasapi_output_device_factory
  create_wasapi_output_device_factory_lem s = or_null-Tried create_enumerator _ s λ enumerator s1.
      or_null-Tried (get_default_audio_endpoint enumerator.value) _ s1 λ device s2.
        or_null-Tried (activate device.value) _ s2 λ audio_client s3.
          or_null-Tried (get_mix_format audio_client.value) _ s3 λ mixed s4.
            or_null-Tried (initialize audio_client.value mixed.format) _ s4 λ _ s5.
              caught-Tried (create_factory fl client lib spsc win s5) (create_factory-Listed s5)

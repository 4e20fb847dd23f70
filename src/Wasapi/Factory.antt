-- ===== src/Wasapi/Factory.antt =====
-- src/audio_io/wasapi/output_factory.cpp: WasapiOutputDeviceFactory and the function that tries whether
-- there is WASAPI. The calls that go through the single-threaded apartment are calls; the pointers are
-- released where they go out of scope, which is left out.
use Prim.Native.String.{String}
use audio_io.Prelude.{
  ℕ, zero, suc, ◌+◌, Option, none, some, List, [], ◌∷◌, ◌++◌, ◌==◌, if◌then◌else◌, length,
}
use audio_io.Prelude.Int.{ℤ, pos, negsuc}
use audio_io.Sample.{Float}
use audio_io.Converter.{Client, ResamplerLib}
use audio_io.Worker.Queue.{AudioCommand, SpscQueue}
use audio_io.Outside.{Outcome, done, thrown, undefined}
use audio_io.Wasapi.Calls.{
  ComCall, create_enumerator, enum_audio_endpoints, get_count, item, open_property_store,
  get_device_format, get_id, get_friendly_name, get_default_audio_endpoint, get_device, activate,
  get_mix_format, initialize, Reply, Com, is_error, succeeded, M, pure, bind, request, attempt,
}
use audio_io.Wasapi.Open
use audio_io.Wasapi.Open.{WasapiOutputDevice}

-- `ids_to_id_strings` holds its entries with their keys, the latest first.
pub record WasapiOutputDeviceFactory : Type 0 where
  pub enumerator : ℕ
  pub names : List String
  pub max_channels : List ℕ
  pub ids_to_id_strings : List (ℕ × String)

-- ids_to_id_strings[index], which is empty for a key that is not there.
unfoldable pub id_string : List (ℕ × String) → ℕ → String
id_string [] index = ""
id_string ((key, id) ∷ entries) index = if key == index then id else id_string entries index

unfoldable pub get_output_names : WasapiOutputDeviceFactory → List String
get_output_names factory = factory.names

unfoldable pub get_output_max_channels : WasapiOutputDeviceFactory → List ℕ
get_output_max_channels factory = factory.max_channels

unfoldable pub get_output_count : WasapiOutputDeviceFactory → ℕ
get_output_count factory = length factory.names

unfoldable pub get_name : WasapiOutputDeviceFactory → String
get_name factory = "Wasapi"

module _ (fl : Float) (client : Client fl) (lib : ResamplerLib fl)
    (spsc : SpscQueue (AudioCommand fl)) (win : Com fl.F) where
  infixl 5 ◌>>=◌ ◌>>◌
  abbrev ◌>>=◌ : {A B : Type 0} → M fl.F win A → (A → M fl.F win B) → M fl.F win B
  m >>= f = bind fl.F win m f

  abbrev ◌>>◌ : {A B : Type 0} → M fl.F win A → M fl.F win B → M fl.F win B
  m >> k = bind fl.F win m (λ _. k)

  abbrev try_call : ComCall fl.F → String → M fl.F win Reply
  try_call call message = attempt fl.F win is_error call message

  -- The body of rescan's loop: the name, the channels and the identifier of device `i`. The name
  -- is given in UTF-8.
  unfoldable pub scan_item : ℕ → ℕ → M fl.F win (String × ℕ × String)
  scan_item collection i = do
    device ← try_call (item collection i) "Failure to retrieve device information."
    properties ← try_call (open_property_store device.value) "Cannot open property store."
    format ← try_call (get_device_format properties.value) "Couldn't get device format."
    identifier ← try_call (get_id device.value) "Failure to retrieve device identifier"
    name ← try_call (get_friendly_name properties.value) "Couldn't get friendly name"
    pure fl.F win (name.text, format.format.channels, identifier.text)

  -- The loop, with `left` devices to go from `i` on.
  unfoldable pub scan_items :
      ℕ → ℕ → ℕ → WasapiOutputDeviceFactory → M fl.F win WasapiOutputDeviceFactory
  unfolding scan_item
  scan_items collection zero i factory = pure fl.F win factory
  scan_items collection (suc left) i factory = do
    (name, channels, identifier) ← scan_item collection i
    scan_items collection left (i + 1) (record factory {
      names = factory.names ++ (name ∷ []);
      max_channels = factory.max_channels ++ (channels ∷ []);
      ids_to_id_strings = (i, identifier) ∷ factory.ids_to_id_strings;
    })

  unfoldable pub rescan : ℕ → M fl.F win WasapiOutputDeviceFactory
  unfolding scan_items
  rescan enumerator = do
    collection ← try_call (enum_audio_endpoints enumerator) "Could not create IMMDeviceCollection."
    count ← try_call (get_count collection.value) "Could not determine device count."
    scan_items collection.value count.value 0
        (record { enumerator = enumerator; names = []; max_channels = []; ids_to_id_strings = [] })

  -- The constructor.
  unfoldable pub create_factory : M fl.F win WasapiOutputDeviceFactory
  unfolding rescan
  create_factory = do
    made ← try_call create_enumerator "Could not create Wasapi device enumerator"
    rescan made.value

  -- The call of createDevice that looks the device up; -1 is the default device, and no other
  -- negative number is a key.
  unfoldable pub find_device : WasapiOutputDeviceFactory → ℤ → ComCall fl.F
  unfolding id_string
  find_device factory (pos index) =
      get_device factory.enumerator (id_string factory.ids_to_id_strings index)
  find_device factory (negsuc index) =
      if index == 0
      then get_default_audio_endpoint factory.enumerator
      else get_device factory.enumerator ""

  unfoldable pub create_device :
      WasapiOutputDeviceFactory
      → client.World
      → ℤ
      → ℕ
      → ℕ
      → ℕ
      → ℕ
      → M fl.F win (WasapiOutputDevice fl client lib spsc win)
  unfolding find_device
  create_device factory world index channels sr block_size mixahead = do
    device ← try_call (find_device factory index) "Could not create IMMDeviceInstance"
    Open.create fl client lib spsc win world device.value block_size channels sr mixahead

  -- return nullptr, if IS_ERROR of the result.
  abbrev pub or_null :
      ComCall fl.F
      → (Reply → M fl.F win (Option WasapiOutputDeviceFactory))
      → M fl.F win (Option WasapiOutputDeviceFactory)
  or_null call f s =
      let (reply, s') = request fl.F win call s in
      if is_error reply then done none s' else f reply s'

  -- catch(...) return nullptr
  abbrev pub caught :
      Outcome (ComCall fl.F) Reply succeeded win WasapiOutputDeviceFactory
      → Outcome (ComCall fl.F) Reply succeeded win (Option WasapiOutputDeviceFactory)
  caught (done factory s) = done (some factory) s
  caught (thrown e s) = done none s
  caught undefined = undefined

  -- createWasapiOutputDeviceFactory: opens the default device, and makes a factory if that worked.
  unfoldable pub create_wasapi_output_device_factory : M fl.F win (Option WasapiOutputDeviceFactory)
  unfolding create_factory
  create_wasapi_output_device_factory = or_null create_enumerator λ enumerator.
      or_null (get_default_audio_endpoint enumerator.value) λ device.
        or_null (activate device.value) λ audio_client.
          or_null (get_mix_format audio_client.value) λ mixed.
            or_null (initialize audio_client.value mixed.format) λ _. λ s. caught (create_factory s)

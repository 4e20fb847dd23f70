-- ===== src/Lib.antt =====
-- audio_io plays blocks of audio that a program mixes in a callback. A backend's output device
-- owns an OutputWorkerThread; its worker thread keeps `mixahead` buffers filled, and the backend's
-- I/O thread copies frames out of them. The worker thread fills a buffer through a
-- SampleFormatConverter, which calls the program, resamples and remixes to the device's format.
--
-- Sample: `float` and the buffers. A float is opaque; the operations are a record of functions.
-- Memory: the arrays of SampleFormatConverter and LatencyPredictor, new[] and delete[].
-- Mixing: include/audio_io/private/mixing_matrices.hpp and src/audio_io/format_conversion/.
--   Matrices and Registry are mixing_matrices.cpp (entries in units of 1/100000), Kernels and
--   Remix are remix.cpp (remixAudioInterleaved is remix_audio_interleaved, and so on). Documented
--   has what include/audio_io/audio_io.hpp says of the two functions.
-- Converter: include/audio_io/private/sample_format_converter.hpp and
--   src/audio_io/format_conversion/sample_format_converter.cpp. The constructor is create,
--   refillOutputBuffer is refill_output_buffer. Frames has the description by single frames,
--   Anywhere that the place asked for does not matter, SameRate what is left of the code when
--   nothing is resampled.
-- Worker: include/audio_io/private/output_worker_thread.hpp and
--   src/audio_io/output_worker_thread.cpp. Worker itself has the constructor and the I/O thread's
--   functions, System both threads as a step relation, InitialMix awaitInitialMix, Destroy the end
--   of the destructor and Join the whole of it, Mixahead how much a call of `write` can count on;
--   Played is about a Worker and its Converter together, WriteSteps has a call of `write` as steps
--   of System, Continues what it gives the backend at any sample rates and Plays at equal ones.
-- Latency: include/audio_io/private/latency_predictor.hpp and
--   src/audio_io/common/latency_predictor.cpp, over a record for `double` and the clock (Double),
--   with the order of the numbers as hypotheses (Ordered). Window has the history as the last
--   passes, Interface the class with the order of its calls that the header asks for.
-- Semaphore: include/audio_io/private/semaphore.hpp. LightweightSemaphore is a step relation for
--   any number of threads, a step for each access to m_count or m_sema; Platform has the Semaphore
--   class for each operating system, Systems the three side by side, Build which of them a build
--   gets.
-- Device: what the backends share: the exceptions of include/audio_io/audio_io.hpp,
--   include/audio_io/private/audio_outputs.hpp, and common_output.cpp and factory_creation.cpp of
--   src/audio_io/common/. Stop has `stop` of both backends beside the thread that plays.
-- Alsa: src/audio_io/alsa/. Alsa itself has rescan of output_factory.cpp and the size of the
--   buffer, where any fuel above 8192 is enough; Calls has libasound and what it answers, Open the
--   constructor of AlsaOutputDevice and createDevice, Playback the I/O thread, Surround the order
--   of the channels.
-- Wasapi: src/audio_io/wasapi/, and wrapComPointer of include/audio_io/private/com.hpp. Wasapi
--   itself has the format that is asked for; Calls has COM and what it answers, Open the
--   constructor of WasapiOutputDevice, Playback the mixing thread, Factory the scan for devices,
--   createDevice and createWasapiOutputDeviceFactory.
-- Apartment: SingleThreadedApartment, src/audio_io/helpers/windows/single_threaded_apartment.cpp
--   and include/audio_io/private/com.hpp, as a step relation for any number of callers.
-- Logging: src/audio_io/logging.cpp, src/audio_io/initialization.cpp and
--   include/audio_io/private/logging.hpp, as far as the life of the logger goes; Documented has
--   the order of the calls that include/audio_io/audio_io.hpp asks for.
-- Programs: the programs of src/tests/: enumeration.cpp and output.cpp in Programs itself, over a
--   backend of any kind (Device/Interface has the abstract classes that they see, Alsa/Interface
--   and Wasapi/Interface what the two backends are through them), SineGen in Generator.
-- Outside: chains of calls to a library that may fail, for Alsa and Wasapi.
-- Fixtures: concrete stand-ins for the parameters, for the tests.
--
-- Parameters, for code that is not part of this program or is a library of its own: the program
-- behind the callback (Client), the resampler (ResamplerLib; Productive is what the termination of
-- a refill needs of it), boost's spsc_queue (SpscQueue), the semaphores of the operating systems
-- (Kernel), the arithmetic of the tone (Maths), sscanf and the build's backends (Library),
-- libasound (Libasound, of which nothing is assumed), COM (Com; Initialised is what the mixing
-- thread needs of an IAudioClient), and the float operations. In Worker the semaphore is a number
-- of permits (Semaphore/Counting has LightweightSemaphore as one). A step of a system of threads
-- is one access to what they share, and the queues, the atomics and the semaphores are
-- sequentially consistent. LightweightSemaphore spins 10000 rounds, as in the code, and its count
-- does not leave the range of an `int`.
--
-- Numbers are natural; `none` is undefined behaviour or a loop out of fuel. `int` overflow is
-- written out in the constructors, which is where the sizes of the buffers are computed. The loop
-- of SampleFormatConverter::write has 2 * frames + 2 rounds of fuel, the resampling loop has the
-- fuel `enough` (the frames times the resampler's delay plus one, and the delay plus two), the
-- loop of OutputWorkerThread::write has count + 1. While the I/O thread of a backend is in one
-- call of `write`, the worker thread stands still; before each round it takes any number of steps.
--
-- Not modelled: what is logged, the release of COM pointers, and the libraries
-- speex_resampler_cpp, powercores and logger_singleton, which stand in the repository and are not
-- its own. In Wasapi a call through the apartment is a call. In Programs, negative arguments are
-- left out, and what the logger's callback prints.
pub mod Prelude
pub mod Sample
pub mod Memory
pub mod Mixing
pub mod Converter
pub mod Worker
pub mod Semaphore
pub mod Device
pub mod Latency
pub mod Outside
pub mod Alsa
pub mod Wasapi
pub mod Apartment
pub mod Logging
pub mod Programs
pub mod Fixtures

-- ===== src/Apartment/Safety.antt =====
-- What current_task says of the callers and of the apartment's thread.
use audio_io.Apartment.{Apartment}

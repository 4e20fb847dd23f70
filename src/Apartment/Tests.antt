-- ===== src/Apartment/Tests.antt =====
-- The theorem on the apartment where one of two callers waits for its task.
use audio_io.Prelude.{true, some, [], ◌∷◌}
use audio_io.Prelude.Threads.{update}
use audio_io.Apartment.{outside, posting, waiting, running, Apartment, create, receiving, sta_task}

abbrev set_up : Apartment
set_up = record create { ready = true; apartment_at = receiving }

abbrev submitted : Apartment
submitted = record set_up { current_task = some 1; caller_at = update (λ _. outside) 1 posting }

abbrev sent : Apartment
sent = record submitted {
  messages = sta_task ∷ [];
  caller_at = update (update (λ _. outside) 1 posting) 1 waiting;
}

abbrev busy : Apartment
busy = record sent { messages = []; apartment_at = running 1 }

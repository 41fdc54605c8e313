-- ===== src/Live/Scenarios.antt =====
-- Small hubs: clients of two users, and clients that do not keep up.
use mentis_eterna.Prelude.{
  List, [], if◌then◌else◌, none, refl, replicate, true, ℕ, ◌==◌, ◌∷◌, ◌≡◌, nat_key, string_key,
}
use mentis_eterna.Prelude.Maps.{lookup}
use mentis_eterna.Live.Hub.{
  LiveClient, LiveHub, LiveMessage, HubOutcome, broadcast_to_user, device_msg, edit_body,
  enqueue_each, out_of_fuel, panics, pong, ran,
}
use mentis_eterna.Live.Messages.{body, handle_text, to_device, unique_positive_note_ids}
use mentis_eterna.Live.Isolation.{IsIsolated, handle_text-IsIsolated}
use mentis_eterna.Live.Overflow.{broadcast_to_user-panics}

-- The clients 1 and 2 of Ada, and 3 of Bob, each registered for a device.
abbrev heap : ℕ → LiveClient
heap j =
    if j == 1
    then record { username = "ada"; device_id = "phone"; send = []; is_open = true }
    else if j == 2
    then record { username = "ada"; device_id = "desk"; send = []; is_open = true }
    else record { username = "bob"; device_id = "tablet"; send = []; is_open = true }

abbrev three : LiveHub
three = record {
  heap = heap;
  clients = 1 ∷ 2 ∷ 3 ∷ [];
  devices = ("phone", 1) ∷ ("desk", 2) ∷ ("tablet", 3) ∷ [];
}

abbrev sent_to : ℕ → HubOutcome → List LiveMessage
sent_to j (ran h) = (h.heap j).send
sent_to j panics = []
sent_to j out_of_fuel = []

-- Ada's phone reaches her desk, and not Bob's tablet.
own_device :
    sent_to 2 (handle_text 1 (to_device "desk" "c" "x") three)
    ≡ device_msg "desk" "phone" "c" "x" ∷ []
unfolding handle_text enqueue_each lookup
own_device = refl

other_device : sent_to 3 (handle_text 1 (to_device "tablet" "c" "x") three) ≡ []
unfolding handle_text enqueue_each lookup
other_device = refl

handle_text-IsIsolated_example :
    IsIsolated "ada" three (handle_text 1 (body 4 "text" "phone") three)
handle_text-IsIsolated_example = handle_text-IsIsolated 1 (body 4 "text" "phone") three

-- Two clients of Ada with full channels.
abbrev full : List LiveMessage
full = replicate 64 pong

abbrev slow_heap : ℕ → LiveClient
slow_heap j =
    if j == 1
    then record { username = "ada"; device_id = "phone"; send = full; is_open = true }
    else record { username = "ada"; device_id = ""; send = full; is_open = true }

broadcast_to_user-panics_example :
    broadcast_to_user "ada" none
      (edit_body 4 "text" "desk")
      (record { heap = slow_heap; clients = 1 ∷ 2 ∷ []; devices = ("phone", 1) ∷ [] })
    ≡ panics
broadcast_to_user-panics_example =
    broadcast_to_user-panics slow_heap 1 2 "ada" "phone" (edit_body 4 "text" "desk") full full []
      refl refl refl refl refl refl

-- The ids of a notification: positive, each once.
notified_ids : unique_positive_note_ids [] (4 ∷ 0 ∷ 7 ∷ 4 ∷ []) ≡ 4 ∷ 7 ∷ []
unfolding unique_positive_note_ids
notified_ids = refl

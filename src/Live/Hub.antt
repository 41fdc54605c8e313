-- ===== src/Live/Hub.antt =====
-- The hub of internal/server/live.go. A client is an index into the heap; a channel is the messages that it
-- buffers and whether it is open. The order of `clients` and `devices` stands for any order of a Go map.
use mentis_eterna.Prelude.{
  Bool, List, Option, String, [], false, if◌then◌else◌, keep_if, leb, length, none, not, some, suc,
  zero, ℕ, ◌&&◌, ◌++◌, ◌==◌, ◌||◌, ◌∷◌, nat_key, string_key,
}
use mentis_eterna.Prelude.Maps.{Map, lookup, delete}

-- A message, without the time at which it is written.
pub data LiveMessage : Type 0 where
  ready pong jobs_changed : LiveMessage
  notes_changed : String → List ℕ → LiveMessage
  edit_sync : ℕ → Bool → String → LiveMessage
  edit_body : ℕ → String → String → LiveMessage
  device_msg : String → String → String → String → LiveMessage
  device_online device_offline : String → LiveMessage

pub record LiveClient : Type 0 where
  pub username : String
  pub device_id : String
  pub send : List LiveMessage
  pub is_open : Bool

pub record LiveHub : Type 0 where
  pub heap : ℕ → LiveClient
  pub clients : List ℕ
  pub devices : Map String ℕ

-- A send on a closed channel panics.
pub data HubOutcome : Type 0 where
  ran : LiveHub → HubOutcome
  panics out_of_fuel : HubOutcome

abbrev pub and_then : HubOutcome → (LiveHub → HubOutcome) → HubOutcome
and_then (ran h) next = next h
and_then panics next = panics
and_then out_of_fuel next = out_of_fuel

abbrev pub channel_size : ℕ
channel_size = 64

abbrev pub set_client : ℕ → LiveClient → LiveHub → LiveHub
set_client i c h = record h { heap = λ j. if i == j then c else h.heap j }

abbrev pub is_client : ℕ → List ℕ → Bool
is_client i [] = false
is_client i (j ∷ clients) = j == i || is_client i clients

-- `register`.
unfoldable pub register : ℕ → LiveHub → LiveHub
register i h = if is_client i h.clients then h else record h { clients = i ∷ h.clients }

-- The channel takes the message.
abbrev pub push : ℕ → LiveMessage → LiveHub → LiveHub
push i msg h = set_client i (record (h.heap i) { send = (h.heap i).send ++ msg ∷ [] }) h

abbrev pub close_send : ℕ → LiveHub → LiveHub
close_send i h = set_client i (record (h.heap i) { is_open = false }) h

-- The first half of `unregister`: the client leaves, and its channel is closed.
abbrev pub leave : ℕ → LiveHub → LiveHub
leave i h =
    if is_client i h.clients
    then close_send i (record h { clients = keep_if (λ j. not (j == i)) h.clients })
    else h

abbrev pub is_at : ℕ → Option ℕ → Bool
is_at i none = false
is_at i (some j) = j == i

-- The device id of a client that is registered for it.
abbrev pub has_device : ℕ → LiveHub → Bool
has_device i h = let id = (h.heap i).device_id in not (id == "") && is_at i (lookup id h.devices)

abbrev pub is_target : String → Option ℕ → LiveHub → ℕ → Bool
is_target user except h j = (h.heap j).username == user && not (is_at j except)

-- `unregister`, with `broadcastToUser` to the users' other clients.
abbrev pub unregister_with :
    (LiveMessage → List ℕ → LiveHub → HubOutcome) → ℕ → LiveHub → HubOutcome
unregister_with again i h =
    let left = leave i h in
    let id = (left.heap i).device_id in
    if has_device i left
    then (let gone = record left { devices = delete id left.devices } in
        again (device_offline id)
          (keep_if (is_target (left.heap i).username none gone) gone.clients) gone)
    else ran left

-- `enqueueJSON`: a client whose channel is full is dropped.
abbrev pub enqueue_with :
    (LiveMessage → List ℕ → LiveHub → HubOutcome) → ℕ → LiveMessage → LiveHub → HubOutcome
enqueue_with again i msg h =
    if not (h.heap i).is_open
    then panics
    else if leb channel_size (length (h.heap i).send)
    then unregister_with again i h
    else ran (push i msg h)

-- The loop over the clients of a snapshot. Each level of fuel is an `unregister` inside another.
unfoldable pub enqueue_each : ℕ → LiveMessage → List ℕ → LiveHub → HubOutcome
enqueue_each fuel msg [] h = ran h
enqueue_each zero msg (i ∷ is) h =
    and_then (enqueue_with (λ m js g. out_of_fuel) i msg h) (λ g. enqueue_each zero msg is g)
enqueue_each (suc fuel) msg (i ∷ is) h =
    and_then (enqueue_with (λ m js g. enqueue_each fuel m js g) i msg h)
      (λ g. enqueue_each (suc fuel) msg is g)

-- One level for each device that may go.
abbrev pub enough : LiveHub → ℕ
enough h = length h.devices

unfoldable pub enqueue_json : ℕ → LiveMessage → LiveHub → HubOutcome
unfolding enqueue_each
enqueue_json i msg h = enqueue_each (enough h) msg (i ∷ []) h

unfoldable pub unregister : ℕ → LiveHub → HubOutcome
unfolding enqueue_each
unregister i h = unregister_with (λ m js g. enqueue_each (enough g) m js g) i h

unfoldable pub broadcast_to_user : String → Option ℕ → LiveMessage → LiveHub → HubOutcome
unfolding enqueue_each
broadcast_to_user user except msg h =
    enqueue_each (enough h) msg (keep_if (is_target user except h) h.clients) h

unfoldable pub broadcast : LiveMessage → LiveHub → HubOutcome
unfolding enqueue_each
broadcast msg h = enqueue_each (enough h) msg h.clients h

-- ===== src/Live/Messages.antt =====
-- What a client sends, and what the server announces, in internal/server/live.go.
use mentis_eterna.Prelude.{
  Bool, List, Option, String, [], if◌then◌else◌, none, not, some, ℕ, ◌&&◌, ◌==◌, ◌||◌, ◌∷◌, nat_key,
  string_key,
}
use mentis_eterna.Prelude.Maps.{Map, lookup, delete, insert}
use mentis_eterna.Live.Hub.{
  LiveHub, LiveMessage, HubOutcome, and_then, broadcast, broadcast_to_user, device_msg,
  device_online, edit_body, edit_sync, enqueue_json, has_device, is_client, jobs_changed,
  notes_changed, pong, ran, set_client,
}

abbrev pub old_device_gone : ℕ → LiveHub → LiveHub
old_device_gone c h =
    if has_device c h then record h { devices = delete (h.heap c).device_id h.devices } else h

abbrev pub with_device : ℕ → String → LiveHub → LiveHub
with_device c id h = record (set_client c (record (h.heap c) { device_id = id }) h) {
  devices = insert id c h.devices;
}

-- The ids of the user's other devices.
abbrev pub online_ids : String → String → LiveHub → Map String ℕ → List String
online_ids user id h [] = []
online_ids user id h ((other, j) ∷ devices) =
    let rest = online_ids user id h devices in
    if not (other == id) && (h.heap j).username == user then other ∷ rest else rest

unfoldable pub announce_online : ℕ → List String → LiveHub → HubOutcome
unfolding enqueue_json
announce_online c [] h = ran h
announce_online c (id ∷ ids) h =
    and_then (enqueue_json c (device_online id) h) (λ g. announce_online c ids g)

-- `registerDevice`.
unfoldable pub register_device : ℕ → String → LiveHub → HubOutcome
unfolding broadcast_to_user announce_online
register_device c id h =
    let user = (h.heap c).username in
    let known = with_device c id (old_device_gone c h) in
    let online = online_ids user id known known.devices in
    and_then (broadcast_to_user user (some c) (device_online id) known)
      (λ g. announce_online c online g)

-- Unknown, the sender itself, or of another user: dropped.
abbrev pub route_to : Option ℕ → ℕ → LiveMessage → LiveHub → HubOutcome
route_to none from msg h = ran h
route_to (some target) from msg h =
    if target == from || not ((h.heap target).username == (h.heap from).username)
    then ran h
    else enqueue_json target msg h

-- `routeToDevice`.
unfoldable pub route_to_device : String → ℕ → LiveMessage → LiveHub → HubOutcome
unfolding enqueue_json
route_to_device id from msg h = route_to (lookup id h.devices) from msg h

-- What a client sends as a text, where it is JSON of a known type. A note id that is not positive is 0.
pub data ClientMessage : Type 0 where
  ping unknown : ClientMessage
  sync : ℕ → Option Bool → String → ClientMessage
  body : ℕ → String → String → ClientMessage
  hello : String → ClientMessage
  to_device : String → String → String → ClientMessage

abbrev pub sync_of : ℕ → ℕ → Option Bool → String → LiveHub → HubOutcome
sync_of c note none device h = ran h
sync_of c note (some editing) device h =
    if note == 0
    then ran h
    else broadcast_to_user (h.heap c).username (some c) (edit_sync note editing device) h

-- The switch of `readLoop`.
unfoldable pub handle_text : ℕ → ClientMessage → LiveHub → HubOutcome
unfolding enqueue_json broadcast_to_user register_device route_to_device
handle_text c ping h = enqueue_json c pong h
handle_text c unknown h = ran h
handle_text c (sync note editing device) h = sync_of c note editing device h
handle_text c (body note text device) h =
    if note == 0
    then ran h
    else broadcast_to_user (h.heap c).username (some c) (edit_body note text device) h
handle_text c (hello device) h = if device == "" then ran h else register_device c device h
handle_text c (to_device device channel payload) h =
    if device == ""
    then ran h
    else route_to_device device c (device_msg device (h.heap c).device_id channel payload) h

-- The ids that are positive, each once, in order; a number that is not positive is 0.
unfoldable pub unique_positive_note_ids : List ℕ → List ℕ → List ℕ
unique_positive_note_ids seen [] = []
unique_positive_note_ids seen (id ∷ ids) =
    let rest = unique_positive_note_ids seen ids in
    let more = id ∷ unique_positive_note_ids (id ∷ seen) ids in
    if id == 0 || is_client id seen then rest else more

abbrev pub notes_message : String → List ℕ → LiveHub → HubOutcome
notes_message reason [] h = ran h
notes_message reason (id ∷ ids) h = broadcast (notes_changed reason (id ∷ ids)) h

-- `notifyNotesChanged`.
unfoldable pub notify_notes_changed : String → List ℕ → LiveHub → HubOutcome
unfolding unique_positive_note_ids broadcast
notify_notes_changed reason ids h = notes_message reason (unique_positive_note_ids [] ids) h

-- `notifyJobEvent`.
unfoldable pub notify_job_event : LiveHub → HubOutcome
unfolding broadcast
notify_job_event h = broadcast jobs_changed h

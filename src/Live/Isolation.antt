-- ===== src/Live/Isolation.antt =====
-- A message of one user reaches no client of another, and every action comes to an end.
use mathlib.Core.Bool.{false≢true}
use mentis_eterna.Prelude.{
  if◌then◌else◌, ==_refl, ==→eq, All, All-mono, Bool, Bool-cases, List, Option, String, [], ap,
  arith, false, inl, inr, keep_if, leb, length, none, not, refl, some, subst, suc, sym, true, zero,
  ℕ, ◌++◌, ◌<◌, ◌==◌, ◌||◌, ◌∙◌, ◌∷◌, ◌≡◌, ◌≤◌, nat_key, string_key,
}
use mentis_eterna.Prelude.Maps.{Map, lookup, delete}
use mentis_eterna.Live.Hub.{
  LiveClient, LiveHub, LiveMessage, HubOutcome, and_then, broadcast_to_user, channel_size,
  close_send, device_msg, device_offline, device_online, edit_body, edit_sync, enough, enqueue_each,
  enqueue_json, enqueue_with, has_device, is_at, is_client, is_target, leave, out_of_fuel, panics,
  pong, ran, set_client, unregister_with,
}
use mentis_eterna.Live.Messages.{
  ClientMessage, announce_online, body, handle_text, hello, old_device_gone, online_ids, ping,
  register_device, route_to, route_to_device, sync, sync_of, to_device, unknown, with_device,
}

-- The clients of other users are as before, no client changes its user, and there are no more devices.
record Keeps (user : String) (h g : LiveHub) : Type 0 where
  others : (j : ℕ) → ((h.heap j).username == user) ≡ false → g.heap j ≡ h.heap j
  same_user : (j : ℕ) → (g.heap j).username ≡ (h.heap j).username
  fewer : length g.devices ≤ length h.devices

abbrev Ends : (LiveHub → Type 0) → HubOutcome → Type 0
Ends P (ran g) = P g
Ends P panics = Unit
Ends P out_of_fuel = ⊥

Keeps-trans : (user : String) (h g k : LiveHub) → Keeps user h g → Keeps user g k → Keeps user h k
Keeps-trans user h g k a b = record {
  others = λ j e. b.others j (rw (a.same_user j) e) ∙ a.others j e;
  same_user = λ j. b.same_user j ∙ a.same_user j;
  fewer = let first = a.fewer in let second = b.fewer in omega (arith, first, second);
}

Keeps-self : (user : String) (h : LiveHub) → Keeps user h h
Keeps-self user h = record { others = λ j e. refl; same_user = λ j. refl; fewer = omega arith }

-- A change of a client of the user.
Keeps-set_client :
    (user : String) (i : ℕ) (c : LiveClient) (h : LiveHub)
    → (h.heap i).username ≡ user
    → c.username ≡ user
    → Keeps user h (set_client i c h)
Keeps-set_client user i c h e f = record {
  others = λ j n. elim (Bool-cases (i == j)) [
    | inl k ↦ absurd (false≢true (sym n ∙ rw (sym (==→eq i j k)) (rw e (==_refl user))))
    | inr k ↦ rw k refl
  ];
  same_user = λ j. elim (Bool-cases (i == j)) [
    | inl k ↦ rw k (f ∙ sym e ∙ ap (λ l. (h.heap l).username) (==→eq i j k))
    | inr k ↦ rw k refl
  ];
  fewer = omega arith;
}

length-delete_le : (id : String) (m : Map String ℕ) → length (delete id m) ≤ length m
unfolding delete
length-delete_le id [] = omega arith
length-delete_le id ((k, j) ∷ m) = ground (arith, length-delete_le id m)

length-delete_lt :
    (id : String) (i : ℕ) (m : Map String ℕ)
    → is_at i (lookup id m) ≡ true
    → length (delete id m) < length m
unfolding delete lookup
length-delete_lt id i [] h = absurd (false≢true h)
length-delete_lt id i ((k, j) ∷ m) h = elim (Bool-cases (k == id)) [
  | inl e ↦ ground (arith, e, length-delete_le id m)
  | inr e ↦ let rest = length-delete_lt id i m (rw e at h) in rw e (omega (arith, rest))
]

Keeps-leave :
    (user : String) (i : ℕ) (h : LiveHub) → (h.heap i).username ≡ user → Keeps user h (leave i h)
Keeps-leave user i h e = elim (Bool-cases (is_client i h.clients)) [
  | inl k ↦ rw k (record { others = kept.others; same_user = kept.same_user; fewer = omega arith })
  | inr k ↦ rw k (Keeps-self user h)
]
  where
    kept : Keeps user h (close_send i h)
    kept = Keeps-set_client user i (record (h.heap i) { is_open = false }) h e e

All-targets :
    (user : String) (except : Option ℕ) (h : LiveHub) (is : List ℕ)
    → All (λ j. (h.heap j).username ≡ user) (keep_if (is_target user except h) is)
All-targets user except h [] = tt
All-targets user except h (i ∷ is) = elim (Bool-cases (is_target user except h i)) [
  | inl e ↦ rw e (==→eq (h.heap i).username user (ground (arith, e)), All-targets user except h is)
  | inr e ↦ rw e (All-targets user except h is)
]

Ends-after :
    (user : String) (h g : LiveHub) (o : HubOutcome)
    → Keeps user h g
    → Ends (Keeps user g) o
    → Ends (Keeps user h) o
Ends-after user h g (ran k) a b = Keeps-trans user h g k a b
Ends-after user h g panics a b = tt
Ends-after user h g out_of_fuel a b = b

module _ (again : LiveMessage → List ℕ → LiveHub → HubOutcome) (user : String) (size : ℕ)
    (again-Keeps : (m : LiveMessage) (js : List ℕ) (g : LiveHub)
      → length g.devices < size
      → All (λ j. (g.heap j).username ≡ user) js
      → Ends (Keeps user g) (again m js g)) where
  unregister_with-Keeps :
      (i : ℕ) (h : LiveHub)
      → length h.devices ≤ size
      → (h.heap i).username ≡ user
      → Ends (Keeps user h) (unregister_with again i h)
  unregister_with-Keeps i h le e =
      let left = leave i h in
      let kept = Keeps-leave user i h e in
      let own : (left.heap i).username ≡ user = kept.same_user i ∙ e in
      elim (Bool-cases (has_device i left)) [
        | inr k ↦ rw k kept
        | inl k ↦
            let id = (left.heap i).device_id in
            let gone = record left { devices = delete id left.devices } in
            let less = length-delete_lt id i left.devices (ground (arith, k)) in
            let all_of = kept.fewer in
            rw k (
              Ends-after user h gone
                (again (device_offline id)
                  (keep_if (is_target (left.heap i).username none gone) gone.clients) gone)
                (record {
                  others = kept.others;
                  same_user = kept.same_user;
                  fewer = omega (arith, less, all_of);
                })
                (again-Keeps (device_offline id)
                  (keep_if (is_target (left.heap i).username none gone) gone.clients) gone
                  (omega (arith, less, all_of, le))
                  (subst
                    (λ u.
                      All (λ j. (gone.heap j).username ≡ u)
                        (keep_if (is_target (left.heap i).username none gone) gone.clients))
                    own (All-targets (left.heap i).username none gone gone.clients))))
      ]

  enqueue_with-Keeps :
      (i : ℕ) (msg : LiveMessage) (h : LiveHub)
      → length h.devices ≤ size
      → (h.heap i).username ≡ user
      → Ends (Keeps user h) (enqueue_with again i msg h)
  enqueue_with-Keeps i msg h le e = elim (Bool-cases (h.heap i).is_open) [
    | inr k ↦ rw k tt
    | inl k ↦ elim (Bool-cases (leb channel_size (length (h.heap i).send))) [
      | inl full ↦ rw k (rw full (unregister_with-Keeps i h le e))
      | inr free ↦ rw k (
          rw free (
            Keeps-set_client user i
              (record (h.heap i) { send = (h.heap i).send ++ msg ∷ []; is_open = true }) h e e))
    ]
  ]

and_then-Keeps :
    (user : String) (h : LiveHub) (o : HubOutcome) (next : LiveHub → HubOutcome)
    → Ends (Keeps user h) o
    → ((g : LiveHub) → Keeps user h g → Ends (Keeps user h) (next g))
    → Ends (Keeps user h) (and_then o next)
and_then-Keeps user h (ran g) next a b = b g a
and_then-Keeps user h panics next a b = tt
and_then-Keeps user h out_of_fuel next a b = a

enqueue_each-Keeps :
    (user : String) (fuel : ℕ) (msg : LiveMessage) (is : List ℕ) (h : LiveHub)
    → length h.devices ≤ fuel
    → All (λ i. (h.heap i).username ≡ user) is
    → Ends (Keeps user h) (enqueue_each fuel msg is h)
unfolding enqueue_each
enqueue_each-Keeps user fuel msg [] h le all_of = Keeps-self user h
enqueue_each-Keeps user zero msg (i ∷ is) h le all_of =
    and_then-Keeps user h (enqueue_with (λ m js g. out_of_fuel) i msg h)
      (λ g. enqueue_each zero msg is g)
      (enqueue_with-Keeps (λ m js g. out_of_fuel) user 0 (λ m js g lt k. absurd (omega (arith, lt)))
        i msg h le all_of.0)
      (λ g kept.
        let less = kept.fewer in
        Ends-after user h g (enqueue_each zero msg is g) kept (
          enqueue_each-Keeps user zero msg is g (omega (arith, less, le))
            (All-mono (λ j e. kept.same_user j ∙ e) is all_of.1)))
enqueue_each-Keeps user (suc fuel) msg (i ∷ is) h le all_of =
    and_then-Keeps user h (enqueue_with (λ m js g. enqueue_each fuel m js g) i msg h)
      (λ g. enqueue_each (suc fuel) msg is g)
      (enqueue_with-Keeps (λ m js g. enqueue_each fuel m js g) user (suc fuel)
        (λ m js g lt k. enqueue_each-Keeps user fuel m js g (omega (arith, lt)) k) i msg h le
        all_of.0)
      (λ g kept.
        let less = kept.fewer in
        Ends-after user h g (enqueue_each (suc fuel) msg is g) kept (
          enqueue_each-Keeps user (suc fuel) msg is g (omega (arith, less, le))
            (All-mono (λ j e. kept.same_user j ∙ e) is all_of.1)))

enqueue_json-Keeps :
    (user : String) (i : ℕ) (msg : LiveMessage) (h : LiveHub)
    → (h.heap i).username ≡ user
    → Ends (Keeps user h) (enqueue_json i msg h)
unfolding enqueue_json
enqueue_json-Keeps user i msg h e =
    enqueue_each-Keeps user (enough h) msg (i ∷ []) h (omega arith) (e, tt)

broadcast_to_user-Keeps :
    (user : String) (except : Option ℕ) (msg : LiveMessage) (h : LiveHub)
    → Ends (Keeps user h) (broadcast_to_user user except msg h)
unfolding broadcast_to_user
broadcast_to_user-Keeps user except msg h =
    enqueue_each-Keeps user (enough h) msg (keep_if (is_target user except h) h.clients) h
      (omega arith) (All-targets user except h h.clients)

-- An action that comes to an end, with or without a panic, and leaves the clients of other users alone.
abbrev pub IsIsolated : String → LiveHub → HubOutcome → Type 0
IsIsolated user h (ran g) = (j : ℕ) → ((h.heap j).username == user) ≡ false → g.heap j ≡ h.heap j
IsIsolated user h panics = Unit
IsIsolated user h out_of_fuel = ⊥

-- The part of `Keeps` that the registration of a device has too.
Keeps-IsIsolated :
    (user : String) (h : LiveHub) (o : HubOutcome) → Ends (Keeps user h) o → IsIsolated user h o
Keeps-IsIsolated user h (ran g) k = k.others
Keeps-IsIsolated user h panics k = tt
Keeps-IsIsolated user h out_of_fuel k = k

announce_online-Keeps :
    (user : String) (c : ℕ) (ids : List String) (h : LiveHub)
    → (h.heap c).username ≡ user
    → Ends (Keeps user h) (announce_online c ids h)
unfolding announce_online
announce_online-Keeps user c [] h e = Keeps-self user h
announce_online-Keeps user c (id ∷ ids) h e =
    and_then-Keeps user h (enqueue_json c (device_online id) h) (λ g. announce_online c ids g)
      (enqueue_json-Keeps user c (device_online id) h e)
      (λ g kept.
        Ends-after user h g (announce_online c ids g) kept
          (announce_online-Keeps user c ids g (kept.same_user c ∙ e)))

-- The registration itself changes the client alone.
IsIsolated-after :
    (user : String) (h g : LiveHub) (o : HubOutcome)
    → ((j : ℕ) → ((h.heap j).username == user) ≡ false → g.heap j ≡ h.heap j)
    → ((j : ℕ) → (g.heap j).username ≡ (h.heap j).username)
    → Ends (Keeps user g) o
    → IsIsolated user h o
IsIsolated-after user h g (ran k) others same kept =
    λ j e. kept.others j (rw (same j) e) ∙ others j e
IsIsolated-after user h g panics others same kept = tt
IsIsolated-after user h g out_of_fuel others same kept = kept

abbrev renamed : ℕ → String → (ℕ → LiveClient) → ℕ → LiveClient
renamed c id f j = if c == j then record (f c) { device_id = id } else f j

register_device-IsIsolated :
    (c : ℕ) (id : String) (h : LiveHub) → IsIsolated (h.heap c).username h (register_device c id h)
unfolding register_device
register_device-IsIsolated c id h =
    let user = (h.heap c).username in
    let known = with_device c id (old_device_gone c h) in
    let same_heap : (old_device_gone c h).heap ≡ h.heap = elim (Bool-cases (has_device c h)) [
      | inl e ↦ rw e refl
      | inr e ↦ rw e refl
    ] in
    let changed = Keeps-set_client user c (record (h.heap c) { device_id = id }) h refl refl in
    let as_set : known.heap ≡ (set_client c (record (h.heap c) { device_id = id }) h).heap =
      ap (renamed c id) same_heap in
    IsIsolated-after user h known
      (and_then (broadcast_to_user user (some c) (device_online id) known)
        (λ g. announce_online c (online_ids user id known known.devices) g))
      (λ j e. ap (λ f. f j) as_set ∙ changed.others j e)
      (λ j. ap (λ f. (f j).username) as_set ∙ changed.same_user j)
      (and_then-Keeps user known (broadcast_to_user user (some c) (device_online id) known)
        (λ g. announce_online c (online_ids user id known known.devices) g)
        (broadcast_to_user-Keeps user (some c) (device_online id) known)
        (λ g kept.
          Ends-after user known g (announce_online c (online_ids user id known known.devices) g)
            kept
            (announce_online-Keeps user c (online_ids user id known known.devices) g
              (kept.same_user c ∙ ap (λ f. (f c).username) as_set ∙ changed.same_user c))))

route_to-IsIsolated :
    (o : Option ℕ) (c : ℕ) (msg : LiveMessage) (h : LiveHub)
    → IsIsolated (h.heap c).username h (route_to o c msg h)
route_to-IsIsolated none c msg h = λ j e. refl
route_to-IsIsolated (some i) c msg h =
    elim (Bool-cases (i == c || not ((h.heap i).username == (h.heap c).username))) [
      | inl e ↦ rw e (λ j n. refl)
      | inr e ↦
          let own : (h.heap i).username ≡ (h.heap c).username =
            ==→eq (h.heap i).username (h.heap c).username (ground (arith, e)) in
          rw e (
            Keeps-IsIsolated (h.heap c).username h (enqueue_json i msg h)
              (enqueue_json-Keeps (h.heap c).username i msg h own))
    ]

sync_of-IsIsolated :
    (c note : ℕ) (editing : Option Bool) (device : String) (h : LiveHub)
    → IsIsolated (h.heap c).username h (sync_of c note editing device h)
sync_of-IsIsolated c note none device h = λ j e. refl
sync_of-IsIsolated c note (some editing) device h = elim (Bool-cases (note == 0)) [
  | inl e ↦ rw e (λ j n. refl)
  | inr e ↦ rw e (
      Keeps-IsIsolated (h.heap c).username h
        (broadcast_to_user (h.heap c).username (some c) (edit_sync note editing device) h)
        (broadcast_to_user-Keeps (h.heap c).username (some c) (edit_sync note editing device) h))
]

-- Whatever text a client sends, its handling comes to an end, and if it does not panic, no client of another
-- user gets a message, is closed or changed: not by what is sent on, nor by the clients that are dropped since
-- their channels are full, nor by what is announced of those.
pub handle_text-IsIsolated :
    (c : ℕ) (msg : ClientMessage) (h : LiveHub)
    → IsIsolated (h.heap c).username h (handle_text c msg h)
unfolding handle_text route_to_device
handle_text-IsIsolated c ping h =
    Keeps-IsIsolated (h.heap c).username h (enqueue_json c pong h)
      (enqueue_json-Keeps (h.heap c).username c pong h refl)
handle_text-IsIsolated c unknown h = λ j e. refl
handle_text-IsIsolated c (sync note editing device) h = sync_of-IsIsolated c note editing device h
handle_text-IsIsolated c (body note text device) h = elim (Bool-cases (note == 0)) [
  | inl e ↦ rw e (λ j n. refl)
  | inr e ↦ rw e (
      Keeps-IsIsolated (h.heap c).username h
        (broadcast_to_user (h.heap c).username (some c) (edit_body note text device) h)
        (broadcast_to_user-Keeps (h.heap c).username (some c) (edit_body note text device) h))
]
handle_text-IsIsolated c (hello device) h = elim (Bool-cases (device == "")) [
  | inl e ↦ rw e (λ j n. refl)
  | inr e ↦ rw e (register_device-IsIsolated c device h)
]
handle_text-IsIsolated c (to_device device channel payload) h = elim (Bool-cases (device == "")) [
  | inl e ↦ rw e (λ j n. refl)
  | inr e ↦ rw e (
      route_to-IsIsolated (lookup device h.devices) c
        (device_msg device (h.heap c).device_id channel payload) h)
]

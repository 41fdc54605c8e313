-- ===== src/Live/Overflow.antt =====
-- What happens when the channels of two clients of a user are full.
use mentis_eterna.Prelude.{
  ==_refl, List, String, [], arith, false, leb, length, nat_key, none, refl, suc, true, zero, ℕ,
  ◌==◌, ◌∷◌, ◌≡◌, string_key,
}
use mentis_eterna.Prelude.Maps.{Map, lookup}
use mentis_eterna.Live.Hub.{
  LiveClient, LiveMessage, broadcast_to_user, channel_size, enqueue_each, panics,
}

both_full :
    (fuel : ℕ) (heap : ℕ → LiveClient) (a b : ℕ) (user id : String) (msg : LiveMessage)
    (first second : List LiveMessage) (more : Map String ℕ)
    → heap a ≡ record { username = user; device_id = id; send = first; is_open = true }
    → heap b ≡ record { username = user; device_id = ""; send = second; is_open = true }
    → leb channel_size (length first) ≡ true
    → leb channel_size (length second) ≡ true
    → (a == b) ≡ false
    → (b == a) ≡ false
    → (id == "") ≡ false
    → enqueue_each
        (suc fuel)
        msg
        (a ∷ b ∷ [])
        (record { heap = heap; clients = a ∷ b ∷ []; devices = (id, a) ∷ more })
      ≡ panics
unfolding enqueue_each lookup
both_full zero heap a b user id msg first second more ha hb full_a full_b apart other named =
    simp
      (ha, hb, full_a, full_b, apart, other, named, ==_refl a, ==_refl b, ==_refl user, ==_refl id)
      refl
both_full (suc fuel) heap a b user id msg first second more ha hb full_a full_b apart other named =
    simp
      (ha, hb, full_a, full_b, apart, other, named, ==_refl a, ==_refl b, ==_refl user, ==_refl id)
      refl

-- Two clients of a user have full channels, and the first is registered for a device: then a message to the
-- user's clients panics. The first is dropped, and its going offline is announced to the second, which is
-- dropped and closed for its full channel; then the message is sent to the second.
pub broadcast_to_user-panics :
    (heap : ℕ → LiveClient) (a b : ℕ) (user id : String) (msg : LiveMessage)
    (first second : List LiveMessage) (more : Map String ℕ)
    → heap a ≡ record { username = user; device_id = id; send = first; is_open = true }
    → heap b ≡ record { username = user; device_id = ""; send = second; is_open = true }
    → leb channel_size (length first) ≡ true
    → leb channel_size (length second) ≡ true
    → (a == b) ≡ false
    → (id == "") ≡ false
    → broadcast_to_user user none msg
        (record { heap = heap; clients = a ∷ b ∷ []; devices = (id, a) ∷ more })
      ≡ panics
unfolding broadcast_to_user enqueue_each lookup
broadcast_to_user-panics heap a b user id msg first second more ha hb full_a full_b apart named =
    let other : (b == a) ≡ false =
      ground (arith, apart, nat_key.same_iff b a, nat_key.same_iff a b) in
    rw ha (
      rw hb (
        rw (==_refl user) (
          both_full (length more) heap a b user id msg first second more ha hb full_a full_b apart
            other named)))

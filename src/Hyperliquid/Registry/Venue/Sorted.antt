-- ===== src/Hyperliquid/Registry/Venue/Sorted.antt =====
-- The reconnect of pkg/hyperliquid/hyperliquid.go: onConnect sends the registry in the order of its
-- keys.
use go_exchange_connector.Prelude.{
  Text, eqb, eqb_iff, Bool, true, false, List, [], ◌∷◌, map, Option, none, some, ◌≡◌, refl, ◌∙◌, ap,
  arith, Bool-cases, inl, inr, All,
}
use go_exchange_connector.Prelude.Sort.{text_lt}
use go_exchange_connector.Prelude.Dict.{lookup, lookup_congr}
use go_exchange_connector.Hyperliquid.Subscription.{Subscription, key}
use go_exchange_connector.Hyperliquid.Registry.{
  Registry, Frame, Link, subscribe_frame, insert_sorted, all_subscriptions, resend, on_connect,
  text_lt,
}
use go_exchange_connector.Hyperliquid.Registry.Keyed.{IsKeyed}
use go_exchange_connector.Hyperliquid.Registry.Venue.{venue, venue_after}

-- No subscription of the list has the key.
abbrev Apart : Text → List Subscription → Type 0
Apart k = All (λ t. eqb k (key t) ≡ false)

abbrev frames_of : List Subscription → List Frame
frames_of = map subscribe_frame

resend_all :
    (link : Link) (l : List Subscription)
    → ((f : Frame) → link.accepts f ≡ true)
    → resend link l ≡ (frames_of l, true)
unfolding resend
resend_all link [] live = refl
resend_all link (s ∷ l) live =
    rw (live (subscribe_frame s), resend)
      (ap (λ (r : List Frame × Bool). (subscribe_frame s ∷ r.0, r.1)) (resend_all link l live))

venue-Apart :
    (k : Text) (l : List Subscription) (v : Option Subscription)
    → Apart k l
    → venue (frames_of l) k v ≡ v
venue-Apart k [] v h = refl
venue-Apart k (t ∷ l) v h = rw (h.0, venue) (venue-Apart k l v h.1)

venue_swap :
    (s t : Subscription) (l : List Subscription) (k : Text) (v : Option Subscription)
    → eqb (key s) (key t) ≡ false
    → venue (frames_of (t ∷ s ∷ l)) k v ≡ venue (frames_of (s ∷ t ∷ l)) k v
venue_swap s t l k v h =
    ap (λ (w : Option Subscription). venue (frames_of l) k w)
      (ground (arith, eqb_iff k (key s), eqb_iff k (key t), eqb_iff (key s) (key t)))

venue-insert_sorted :
    (s : Subscription) (l : List Subscription) (k : Text) (v : Option Subscription)
    → Apart (key s) l
    → venue (frames_of (insert_sorted s l)) k v ≡ venue (frames_of (s ∷ l)) k v
unfolding insert_sorted
venue-insert_sorted s [] k v h = refl
venue-insert_sorted s (t ∷ l) k v h = elim (Bool-cases (text_lt (key s) (key t))) [
  | inl lt ↦ rw lt refl
  | inr ge ↦ rw ge (
      venue-insert_sorted s l k (venue_after (subscribe_frame t) k v) h.1
      ∙ venue_swap s t l k v h.0)
]

Apart-insert_sorted :
    (k : Text) (s : Subscription) (l : List Subscription)
    → eqb k (key s) ≡ false
    → Apart k l
    → Apart k (insert_sorted s l)
unfolding insert_sorted
Apart-insert_sorted k s [] h a = (h, tt)
Apart-insert_sorted k s (t ∷ l) h a = elim (Bool-cases (text_lt (key s) (key t))) [
  | inl lt ↦ rw lt (h, (a.0, a.1))
  | inr ge ↦ rw ge (a.0, Apart-insert_sorted k s l h a.1)
]

Apart-all_subscriptions :
    (k : Text) (reg : Registry)
    → IsKeyed reg
    → lookup k reg ≡ none
    → Apart k (all_subscriptions reg)
unfolding all_subscriptions lookup
Apart-all_subscriptions k [] w h = tt
Apart-all_subscriptions k ((j, s) ∷ reg) w h =
    Apart-insert_sorted k s (all_subscriptions reg) (ground (arith, w.0, h))
      (Apart-all_subscriptions k reg w.2 (ground (arith, h)))

venue-all_subscriptions :
    (reg : Registry) (k : Text)
    → IsKeyed reg
    → venue (frames_of (all_subscriptions reg)) k none ≡ lookup k reg
unfolding all_subscriptions lookup
venue-all_subscriptions [] k w = refl
venue-all_subscriptions ((j, s) ∷ reg) k w =
    venue-insert_sorted s (all_subscriptions reg) k none
      (Apart-all_subscriptions (key s) reg w.2 (rw w.0 w.1))
    ∙ elim (Bool-cases (eqb k (key s))) [
      | inl is ↦
          ap (λ (v : Option Subscription). venue (frames_of (all_subscriptions reg)) k v)
            (rw is refl)
          ∙ venue-Apart k (all_subscriptions reg) (some s) (
              Apart-all_subscriptions k reg w.2
                (ground (arith, w.0, w.1, eqb_iff k (key s), lookup_congr k j reg)))
          ∙ ground (arith, is, w.0)
      | inr isnt ↦
          ap (λ (v : Option Subscription). venue (frames_of (all_subscriptions reg)) k v)
            (rw isnt refl)
          ∙ venue-all_subscriptions reg k w.2
          ∙ ground (arith, isnt, w.0)
    ]

-- On a connection that accepts its writes, onConnect succeeds, and the venue, which starts with
-- nothing, then streams under every key exactly what the registry holds.
pub on_connect-venue :
    (link : Link) (reg : Registry) (k : Text)
    → ((f : Frame) → link.accepts f ≡ true)
    → IsKeyed reg
    → let (frames, done) = on_connect link reg in
      (done ≡ true) × (venue frames k none ≡ lookup k reg)
unfolding on_connect
on_connect-venue link reg k live w =
    rw (resend_all link (all_subscriptions reg) live) (refl, venue-all_subscriptions reg k w)

-- ===== src/Polymarket/Market/Wire.antt =====
-- What the venue delivers after the frames of pkg/polymarket/market.go: a reading of the frames that
-- is independent of the registry, and the two set against one another.
use go_exchange_connector.Prelude.{
  Text, Bool, true, false, not, ◌&&◌, ◌||◌, List, [], ◌∷◌, ◌++◌, ◌≡◌, refl, arith,
}
use go_exchange_connector.Prelude.Sets.{has}
use go_exchange_connector.Polymarket.Market.{
  Registry, Frame, Link, handshake, subscribe_op, unsubscribe_op, collect_add, collect_remove,
  is_nil, write_op, flush_connected, flush_pending, all_ids, on_connect,
}
use go_exchange_connector.Polymarket.Market.Wanted.{
  wanted, has-collect_add, has-collect_add_out, has-collect_remove, has-collect_remove_out,
  wanted-flush_pending, has-all_ids,
}

-- Does the venue send an asset's data after a frame, if `b` says whether it did before? The
-- handshake replaces the set, and the operations add to it and take from it.
abbrev serves_after : Frame → Text → Bool → Bool
serves_after (handshake ids) j b = has j ids
serves_after (subscribe_op ids) j b = has j ids || b
serves_after (unsubscribe_op ids) j b = not (has j ids) && b

abbrev pub serves : List Frame → Text → Bool → Bool
serves [] j b = b
serves (f ∷ fs) j b = serves fs j (serves_after f j b)

-- A connection on which every write succeeds.
abbrev pub Reliable : Link → Type 0
Reliable link = (f : Frame) → link.accepts f ≡ true

has-is_nil : (ids : List Text) (j : Text) → is_nil ids ≡ true → has j ids ≡ false
unfolding has
has-is_nil [] j h = refl
has-is_nil (x ∷ ids) j h = cc

-- The two operations on a reliable link, as the venue reads them.
serves-write_ops :
    (link : Link) (adds removes : List Text) (j : Text) (b : Bool)
    → Reliable link
    → serves ((write_op link subscribe_op adds).0 ++ (write_op link unsubscribe_op removes).0) j b
      ≡ (not (has j removes) && (has j adds || b))
unfolding write_op has
serves-write_ops link [] [] j b ok = ground arith
serves-write_ops link [] (x ∷ removes) j b ok = ground (arith, ok (unsubscribe_op (x ∷ removes)))
serves-write_ops link (x ∷ adds) [] j b ok = ground (arith, ok (subscribe_op (x ∷ adds)))
serves-write_ops link (x ∷ adds) (y ∷ removes) j b ok =
    ground (arith, ok (subscribe_op (x ∷ adds)), ok (unsubscribe_op (y ∷ removes)))

write_op_ok :
    (link : Link) (op : List Text → Frame) (ids : List Text)
    → Reliable link
    → (write_op link op ids).1 ≡ true
unfolding write_op
write_op_ok link op ids ok = ground (arith, ok (op ids))

flush_connected-clears :
    (link : Link) (r : Registry)
    → Reliable link
    → ((flush_connected link r).0.pending_subscribe ≡ [])
      × ((flush_connected link r).0.pending_unsubscribe ≡ [])
unfolding flush_connected
flush_connected-clears link r ok =
    let added = collect_add r.pending_subscribe r.subscribed [] in
    let removed = collect_remove r.pending_unsubscribe added.0 [] in
    ground (
      arith,
      write_op_ok link subscribe_op added.1 ok,
      write_op_ok link unsubscribe_op removed.1 ok,
    )

flush_connected-serves :
    (link : Link) (r : Registry) (j : Text)
    → Reliable link
    → serves (flush_connected link r).1 j (has j r.subscribed)
      ≡ has j (flush_connected link r).0.subscribed
unfolding flush_connected has
flush_connected-serves link r j ok =
    let added = collect_add r.pending_subscribe r.subscribed [] in
    let removed = collect_remove r.pending_unsubscribe added.0 [] in
    ground (
      arith,
      write_op_ok link subscribe_op added.1 ok,
      write_op_ok link unsubscribe_op removed.1 ok,
      serves-write_ops link added.1 removed.1 j (has j r.subscribed) ok,
      has-is_nil added.1 j,
      has-is_nil removed.1 j,
      has-collect_add j r.pending_subscribe r.subscribed [],
      has-collect_add_out j r.pending_subscribe r.subscribed [],
      has-collect_remove j r.pending_unsubscribe added.0 [],
      has-collect_remove_out j r.pending_unsubscribe added.0 [],
    )

-- On a live connection whose writes succeed, a flush brings what the venue serves from the
-- subscribed set to exactly the wanted set, the subscribed set follows it, and nothing is left
-- pending.
pub flush_pending-serves :
    (link : Link) (r : Registry) (j : Text)
    → link.connected ≡ true
    → Reliable link
    → let (r', frames) = flush_pending link r in
      (serves frames j (has j r.subscribed) ≡ wanted r j)
      × (has j r'.subscribed ≡ wanted r j)
      × (r'.pending_subscribe ≡ [])
      × (r'.pending_unsubscribe ≡ [])
unfolding flush_pending has
flush_pending-serves link r j live ok = ground (
  arith,
  flush_connected-serves link r j ok,
  flush_connected-clears link r ok,
  wanted-flush_pending link r j,
)

-- A handshake that is accepted makes a fresh connection serve exactly the wanted set; the registry
-- then holds that set as subscribed and nothing as pending. This holds with no frame at all when
-- nothing is wanted.
pub on_connect-serves :
    (link : Link) (r : Registry) (j : Text)
    → Reliable link
    → let (r', frames, ok) = on_connect link r in
      (ok ≡ true)
      × (serves frames j false ≡ wanted r j)
      × (has j r'.subscribed ≡ wanted r j)
      × (r'.pending_subscribe ≡ [])
      × (r'.pending_unsubscribe ≡ [])
unfolding on_connect
on_connect-serves link r j reliable =
    ground (arith, reliable (handshake (all_ids r)), has-all_ids r j, has-is_nil (all_ids r) j)

-- No frame repeats what the venue has: a flush subscribes only to assets that were not subscribed,
-- and it unsubscribes only from assets that are subscribed once the additions are made.
pub flush_minimal :
    (r : Registry) (j : Text)
    → let added = collect_add r.pending_subscribe r.subscribed [] in
      let removed = collect_remove r.pending_unsubscribe added.0 [] in
      (has j added.1 ≡ (has j r.pending_subscribe && not (has j r.subscribed)))
      × (has j removed.1
          ≡ (has j r.pending_unsubscribe && (has j r.pending_subscribe || has j r.subscribed)))
unfolding has
flush_minimal r j =
    let added = collect_add r.pending_subscribe r.subscribed [] in
    (
      has-collect_add_out j r.pending_subscribe r.subscribed [],
      ground (
        arith,
        has-collect_remove_out j r.pending_unsubscribe added.0 [],
        has-collect_add j r.pending_subscribe r.subscribed [],
      ),
    )

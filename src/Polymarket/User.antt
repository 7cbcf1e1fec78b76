-- ===== src/Polymarket/User.antt =====
-- pkg/polymarket/user.go: the market filter of WSPolymarketUserWS. The error of a write is
-- discarded: the registry changes whether or not the frame arrives.
pub mod Filter
pub mod Events
mod Tests
use go_exchange_connector.Prelude.{
  Text, codes, List, [], ◌∷◌, ◌++◌, Bool, true, false, if◌then◌else◌,
}
use go_exchange_connector.Prelude.Int.{ℤ, pos, eqb_ℤ}
use go_exchange_connector.Prelude.Sets.{has, insert, delete, insert_all, delete_all}

-- The fields `subscribedMarketIDs`, `pendingSubscribeMarketIDs`, `pendingUnsubscribeMarketIDs`.
pub record Registry : Type 0 where
  pub subscribed : List Text
  pub pending_subscribe : List Text
  pub pending_unsubscribe : List Text

-- The handshake carries the credentials and no markets.
pub data Frame : Type 0 where
  handshake : Frame
  subscribe_op : List Text → Frame
  unsubscribe_op : List Text → Frame

-- The transport during one call: `Conn() != nil`, and whether a write of a frame succeeds.
pub record Link : Type 0 where
  pub connected : Bool
  pub accepts : Frame → Bool

-- The frames that a write puts on the wire.
unfoldable pub write : Link → Frame → List Frame
write link f = if link.accepts f then f ∷ [] else []

-- `NewWSPolymarketUserWS`
pub new_registry : Registry
new_registry = record { subscribed = []; pending_subscribe = []; pending_unsubscribe = [] }

-- The first write of `flushMarketSubscriptions`, and what it does to the subscribed set.
pub flush_unsubscribes : Link → List Text → List Text → List Text × List Frame
unfolding write
flush_unsubscribes link [] subscribed = (subscribed, [])
flush_unsubscribes link (id ∷ ids) subscribed =
    (delete_all (id ∷ ids) subscribed, write link (unsubscribe_op (id ∷ ids)))

-- The second write.
pub flush_subscribes : Link → List Text → List Text → List Text × List Frame
unfolding write
flush_subscribes link [] subscribed = (subscribed, [])
flush_subscribes link (id ∷ ids) subscribed =
    (insert_all (id ∷ ids) subscribed, write link (subscribe_op (id ∷ ids)))

-- `flushMarketSubscriptions`: with no connection what was taken is put back.
pub flush : Link → Registry → Registry × List Frame
unfolding flush_unsubscribes flush_subscribes
flush link r =
    let (removed, unsubs) = flush_unsubscribes link r.pending_unsubscribe r.subscribed in
    let (added, subs) = flush_subscribes link r.pending_subscribe removed in
    if link.connected
    then (
      record { subscribed = added; pending_subscribe = []; pending_unsubscribe = [] },
      unsubs ++ subs,
    )
    else (
      record r {
        pending_subscribe = insert_all r.pending_subscribe [];
        pending_unsubscribe = insert_all r.pending_unsubscribe [];
      },
      [],
    )

-- The loop of `SubscribeMarkets`.
pub queue_subscribe : List Text → Registry → Registry
queue_subscribe [] r = r
queue_subscribe (id ∷ ids) r = queue_subscribe ids (record r {
  pending_unsubscribe = delete id r.pending_unsubscribe;
  pending_subscribe =
      if has id r.subscribed then r.pending_subscribe else insert id r.pending_subscribe;
})

-- `SubscribeMarkets`
unfoldable pub subscribe_markets : Link → List Text → Registry → Registry × List Frame
unfolding flush queue_subscribe
subscribe_markets link ids r = flush link (queue_subscribe ids r)

-- The loop of `UnsubscribeMarkets`.
pub queue_unsubscribe : List Text → Registry → Registry
queue_unsubscribe [] r = r
queue_unsubscribe (id ∷ ids) r = queue_unsubscribe ids (record r {
  pending_subscribe = delete id r.pending_subscribe;
  pending_unsubscribe = insert id r.pending_unsubscribe;
})

-- `UnsubscribeMarkets`
unfoldable pub unsubscribe_markets : Link → List Text → Registry → Registry × List Frame
unfolding flush queue_unsubscribe
unsubscribe_markets link ids r = flush link (queue_unsubscribe ids r)

-- `onConnect`: the registry is left alone; the last part says whether it returned nil.
pub on_connect : Link → Registry → Registry × List Frame × Bool
unfolding write
on_connect link r = (r, write link handshake, link.accepts handshake)

-- `clearSubscriptions`, called by `Stop`.
pub clear_subscriptions : Registry → Registry
unfolding new_registry
clear_subscriptions r = new_registry

-- `resolveReadLimit` of types.go, which `SetReadLimitBytes` stores.
pub resolve_read_limit : ℤ → ℤ
resolve_read_limit v = if eqb_ℤ v (pos 0) then pos 1048576 else v

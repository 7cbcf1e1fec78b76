-- ===== src/Polymarket/Market.antt =====
-- pkg/polymarket/market.go: the subscription registry of WSPolymarketMarket and the frames that it
-- writes. A method is a function on the three sets; what the transport does (is there a connection,
-- does a write succeed) is an argument.
pub mod Wanted
pub mod Wire
pub mod Retry
pub mod Trace
pub mod Latency
pub mod Payloads
pub mod Events
mod Tests
use go_exchange_connector.Prelude.{
  Text, Bool, true, false, not, ◌&&◌, ◌||◌, List, [], ◌∷◌, ◌++◌, if◌then◌else◌,
}
use go_exchange_connector.Prelude.Sets.{has, insert, delete, insert_all, delete_all}

-- The fields `subscribedAssetIDs`, `pendingSubscribeIDs` and `pendingUnsubscribeIDs`.
pub record Registry : Type 0 where
  pub subscribed : List Text
  pub pending_subscribe : List Text
  pub pending_unsubscribe : List Text

-- The frames: the handshake of `onConnect`, and the two operations of `writeOp`.
pub data Frame : Type 0 where
  handshake : List Text → Frame
  subscribe_op : List Text → Frame
  unsubscribe_op : List Text → Frame

-- The transport during one call: `Conn() != nil`, and whether `conn.Write` accepts a frame.
pub record Link : Type 0 where
  pub connected : Bool
  pub accepts : Frame → Bool

pub new_registry : Registry
new_registry = record { subscribed = []; pending_subscribe = []; pending_unsubscribe = [] }

-- The first loop of `flushPending`: the subscribed set, and `toAdd`.
pub collect_add : List Text → List Text → List Text → List Text × List Text
collect_add [] subscribed to_add = (subscribed, to_add)
collect_add (id ∷ ids) subscribed to_add =
    collect_add ids (insert id subscribed) (if has id subscribed then to_add else to_add ++ id ∷ [])

-- The second loop of `flushPending`: the subscribed set, and `toRemove`.
pub collect_remove : List Text → List Text → List Text → List Text × List Text
collect_remove [] subscribed to_remove = (subscribed, to_remove)
collect_remove (id ∷ ids) subscribed to_remove =
    collect_remove ids (delete id subscribed)
      (if has id subscribed then to_remove ++ id ∷ [] else to_remove)

abbrev pub is_nil : List Text → Bool
is_nil [] = true
is_nil (_ ∷ _) = false

-- One `writeOp`: the frames that reached the wire, and whether there was no error. Nothing is
-- written for an empty list.
pub write_op : Link → (List Text → Frame) → List Text → List Frame × Bool
write_op link op ids =
    if is_nil ids
    then ([], true)
    else if link.accepts (op ids)
    then (op ids ∷ [], true)
    else ([], false)

-- The re-queueing after a failed write.
pub requeue : List Text → List Text → Registry → Registry
requeue to_add to_remove r = record r {
  pending_subscribe = insert_all to_add r.pending_subscribe;
  pending_unsubscribe = insert_all to_remove r.pending_unsubscribe;
}

-- `flushPending` once there is a connection.
pub flush_connected : Link → Registry → Registry × List Frame
flush_connected link r =
    let added = collect_add r.pending_subscribe r.subscribed [] in
    let removed = collect_remove r.pending_unsubscribe added.0 [] in
    let r' : Registry = record {
      subscribed = removed.0;
      pending_subscribe = [];
      pending_unsubscribe = [];
    } in
    let subs = write_op link subscribe_op added.1 in
    let unsubs = write_op link unsubscribe_op removed.1 in
    if is_nil added.1 && is_nil removed.1
    then (r', [])
    else if subs.1 && unsubs.1
    then (r', subs.0 ++ unsubs.0)
    else (requeue added.1 removed.1 r', subs.0 ++ unsubs.0)

-- `flushPending`: with no connection the pending sets wait for `onConnect`.
pub flush_pending : Link → Registry → Registry × List Frame
flush_pending link r = if link.connected then flush_connected link r else (r, [])

-- The loop of `Subscribe`.
pub queue_subscribe : List Text → Registry → Registry
queue_subscribe [] r = r
queue_subscribe (id ∷ ids) r = queue_subscribe ids (record r {
  pending_unsubscribe = delete id r.pending_unsubscribe;
  pending_subscribe =
      if has id r.subscribed then r.pending_subscribe else insert id r.pending_subscribe;
})

-- `Subscribe`
unfoldable pub subscribe : Link → List Text → Registry → Registry × List Frame
subscribe link ids r = flush_pending link (queue_subscribe ids r)

-- The loop of `Unsubscribe`.
pub queue_unsubscribe : List Text → Registry → Registry
queue_unsubscribe [] r = r
queue_unsubscribe (id ∷ ids) r = queue_unsubscribe ids (record r {
  pending_subscribe = delete id r.pending_subscribe;
  pending_unsubscribe = insert id r.pending_unsubscribe;
})

-- `Unsubscribe`
unfoldable pub unsubscribe : Link → List Text → Registry → Registry × List Frame
unsubscribe link ids r = flush_pending link (queue_unsubscribe ids r)

-- `allIDs` of `onConnect`.
pub all_ids : Registry → List Text
all_ids r =
    delete_all r.pending_unsubscribe (insert_all r.pending_subscribe (insert_all r.subscribed []))

-- `onConnect`: the new registry, the frame if one was written, and whether it returned nil.
unfoldable pub on_connect : Link → Registry → Registry × List Frame × Bool
on_connect link r =
    let ids = all_ids r in
    let r' : Registry = record {
      subscribed = ids;
      pending_subscribe = [];
      pending_unsubscribe = [];
    } in
    if is_nil ids
    then (r', [], true)
    else if link.accepts (handshake ids)
    then (r', handshake ids ∷ [], true)
    else (r', [], false)

-- `onDisconnect`: every subscription is queued again.
pub on_disconnect : Registry → Registry
on_disconnect r = record r {
  subscribed = [];
  pending_subscribe = insert_all r.subscribed r.pending_subscribe;
}

-- `clearSubscriptions`, called by `Stop`.
pub clear_subscriptions : Registry → Registry
unfolding new_registry
clear_subscriptions r = new_registry

-- `ShouldConnect`
pub should_connect : Registry → Bool
should_connect r = not (is_nil r.pending_subscribe) || not (is_nil r.subscribed)

-- `isSubscribed`
pub is_subscribed : Registry → Text → Bool
is_subscribed r id = has id r.subscribed

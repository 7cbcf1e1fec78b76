-- ===== src/Hyperliquid/Registry.antt =====
-- pkg/hyperliquid/hyperliquid.go: the subscription registry of hlConn, Subscribe and Unsubscribe,
-- and the frames that are written. What the transport does is an argument.
pub mod Keyed
pub mod Venue
use go_exchange_connector.Prelude.{
  ℕ, Text, eqb, Bool, true, false, ◌&&◌, List, [], ◌∷◌, ◌++◌, map, Option, none, some, is_some, ltb,
  ◌==◌, if◌then◌else◌,
}
use go_exchange_connector.Prelude.Sort.{text_lt}
use go_exchange_connector.Prelude.Dict.{lookup, put, remove}
use go_exchange_connector.Hyperliquid.Channels.{SubParams, Checked, ok, err, Error}
use go_exchange_connector.Hyperliquid.Subscription.{
  Subscription, key, check_all, build_subscriptions,
}

-- The field `subs`: subscriptions by key.
abbrev pub Registry : Type 0
Registry = List (Text × Subscription)

-- SubscribeFrame and UnsubscribeFrame; the keepalive is no part of the registry.
pub data Frame : Type 0 where
  subscribe_frame : Subscription → Frame
  unsubscribe_frame : Subscription → Frame

-- `Conn() != nil`, and whether `conn.Write` accepts a frame.
pub record Link : Type 0 where
  pub connected : Bool
  pub accepts : Frame → Bool

-- `addSubs`: the registry, and the subscriptions that are new.
pub add_subs : List Subscription → Registry → Registry × List Subscription
add_subs [] reg = (reg, [])
add_subs (sub ∷ subs) reg = elim (lookup (key sub) reg) [
  | some _ ↦ add_subs subs reg
  | none ↦ let (reg', added) = add_subs subs (put (key sub) sub reg) in (reg', sub ∷ added)
]

-- `removeSubs`: the registry, and the stored subscriptions.
unfoldable pub remove_subs : List Subscription → Registry → Registry × List Subscription
remove_subs [] reg = (reg, [])
remove_subs (sub ∷ subs) reg = elim (lookup (key sub) reg) [
  | none ↦ remove_subs subs reg
  | some stored ↦
      let (reg', removed) = remove_subs subs (remove (key sub) reg) in (reg', stored ∷ removed)
]

-- `hasSubscription`
unfoldable pub has_subscription : Text → Registry → Bool
has_subscription k reg = is_some (lookup k reg)

-- Sorting by key (`sort.Slice`).
pub insert_sorted : Subscription → List Subscription → List Subscription
insert_sorted s [] = s ∷ []
insert_sorted s (t ∷ ts) =
    let rest = insert_sorted s ts in if text_lt (key s) (key t) then s ∷ t ∷ ts else t ∷ rest

-- `allSubscriptions`
pub all_subscriptions : Registry → List Subscription
unfolding insert_sorted text_lt
all_subscriptions [] = []
all_subscriptions ((k, s) ∷ reg) = insert_sorted s (all_subscriptions reg)

-- The frame of `writeSub`.
abbrev frame_of : Bool → Subscription → Frame
frame_of unsubscribing s = if unsubscribing then unsubscribe_frame s else subscribe_frame s

-- `writeSub`: what reaches the wire. A failed write is logged and forgotten.
pub write_sub : Link → Bool → Subscription → List Frame
write_sub link unsubscribing s =
    if link.connected && link.accepts (frame_of unsubscribing s)
    then frame_of unsubscribing s ∷ []
    else []

pub write_subs : Link → Bool → List Subscription → List Frame
unfolding write_sub
write_subs link unsubscribing [] = []
write_subs link unsubscribing (s ∷ ss) =
    write_sub link unsubscribing s ++ write_subs link unsubscribing ss

-- `Subscribe`: the registry, the frames and the error.
unfoldable pub subscribe :
    Link → List Subscription → Registry → Registry × List Frame × Option Error
unfolding add_subs write_subs
subscribe link subs reg = elim (check_all subs) [
  | some e ↦ (reg, [], some e)
  | none ↦ let (reg', added) = add_subs subs reg in (reg', write_subs link false added, none)
]

-- `Unsubscribe`: the registry and the frames; it never fails.
unfoldable pub unsubscribe : Link → List Subscription → Registry → Registry × List Frame
unfolding remove_subs write_subs
unsubscribe link subs reg =
    let (reg', removed) = remove_subs subs reg in (reg', write_subs link true removed)

-- `subscribeChannel`
subscribe_channel :
    Link → Text → List Text → SubParams → Registry → Registry × List Frame × Option Error
unfolding subscribe
subscribe_channel link ch coins p reg = elim (build_subscriptions ch coins p) [
  | err e ↦ (reg, [], some e)
  | ok subs ↦ subscribe link subs reg
]

-- `unsubscribeChannel`
unsubscribe_channel :
    Link → Text → List Text → SubParams → Registry → Registry × List Frame × Option Error
unfolding unsubscribe
unsubscribe_channel link ch coins p reg = elim (build_subscriptions ch coins p) [
  | err e ↦ (reg, [], some e)
  | ok subs ↦ let (reg', frames) = unsubscribe link subs reg in (reg', frames, none)
]

-- The loop of `onConnect`: the frames up to the first failure, and whether there was none.
pub resend : Link → List Subscription → List Frame × Bool
resend link [] = ([], true)
resend link (s ∷ ss) = elim (link.accepts (subscribe_frame s)) [
  | false ↦ ([], false)
  | true ↦ let (frames, done) = resend link ss in (subscribe_frame s ∷ frames, done)
]

-- `onConnect`, up to the ping ticker.
pub on_connect : Link → Registry → List Frame × Bool
unfolding resend all_subscriptions
on_connect link reg = resend link (all_subscriptions reg)

-- `clearSubscriptions`
pub clear_subscriptions : Registry → Registry
clear_subscriptions reg = []

-- ===== src/Polymarket/Market/Retry.antt =====
-- What becomes of a flush of pkg/polymarket/market.go whose write fails.
use go_exchange_connector.Prelude.{Text, true, false, List, [], ◌∷◌, ◌≡◌, refl, arith, eqb_refl}
use go_exchange_connector.Prelude.Sets.{has, insert, has-insert_all, delete}
use go_exchange_connector.Polymarket.Market.{
  Registry, Frame, Link, subscribe_op, unsubscribe_op, collect_add, collect_remove, write_op,
  requeue, flush_connected, flush_pending,
}
use go_exchange_connector.Polymarket.Market.Wanted.{
  has-collect_add, has-collect_add_out, has-collect_remove, has-collect_remove_out,
}

-- Every key of the first list is in the second.
abbrev Within : List Text → List Text → Type 0
Within ids s = (j : Text) → has j ids ≡ true → has j s ≡ true

-- No key of the first list is in the second.
abbrev Apart : List Text → List Text → Type 0
Apart ids s = (j : Text) → has j ids ≡ true → has j s ≡ false

head_known : (id : Text) (ids : List Text) → has id (id ∷ ids) ≡ true
unfolding has
head_known id ids = ground (arith, eqb_refl id)

tail_known : (j id : Text) (ids : List Text) → has j ids ≡ true → has j (id ∷ ids) ≡ true
unfolding has
tail_known j id ids h = ground arith

-- With a link that accepts nothing, no frame is written.
flush_down_silent :
    (down : Link) (r : Registry)
    → ((f : Frame) → down.accepts f ≡ false)
    → (flush_connected down r).1 ≡ []
unfolding flush_connected write_op
flush_down_silent down r fails =
    let added = collect_add r.pending_subscribe r.subscribed [] in
    let removed = collect_remove r.pending_unsubscribe added.0 [] in
    ground (arith, fails (subscribe_op added.1), fails (unsubscribe_op removed.1))

delete_absent : (k : Text) (s : List Text) → has k s ≡ false → delete k s ≡ s
unfolding delete has
delete_absent k [] h = refl
delete_absent k (x ∷ xs) h = ground (arith, delete_absent k xs)

collect_add_known :
    (ids sub out : List Text) → Within ids sub → collect_add ids sub out ≡ (sub, out)
unfolding collect_add has insert
collect_add_known [] sub out within = refl
collect_add_known (id ∷ ids) sub out within = ground (
  arith,
  within id (head_known id ids),
  collect_add_known ids sub out (λ j h. within j (tail_known j id ids h)),
)

collect_remove_absent :
    (ids sub out : List Text) → Apart ids sub → collect_remove ids sub out ≡ (sub, out)
unfolding collect_remove has
collect_remove_absent [] sub out apart = refl
collect_remove_absent (id ∷ ids) sub out apart = ground (
  arith,
  apart id (head_known id ids),
  delete_absent id sub,
  collect_remove_absent ids sub out (λ j h. apart j (tail_known j id ids h)),
)

module _ (link : Link) (r : Registry) where
  abbrev added : List Text
  added = (collect_add r.pending_subscribe r.subscribed []).1

  abbrev removed : List Text
  removed =
      (collect_remove r.pending_unsubscribe (collect_add r.pending_subscribe r.subscribed []).0
        []).1

  requeued_add :
      Apart r.pending_subscribe r.pending_unsubscribe
      → Within (flush_connected link r).0.pending_subscribe (flush_connected link r).0.subscribed
  unfolding flush_connected requeue has
  requeued_add apart j = ground (
    arith,
    apart j,
    has-insert_all j added [],
    has-collect_add_out j r.pending_subscribe r.subscribed [],
    has-collect_remove j r.pending_unsubscribe (collect_add r.pending_subscribe r.subscribed []).0
        [],
    has-collect_add j r.pending_subscribe r.subscribed [],
  )

  requeued_remove :
      Apart (flush_connected link r).0.pending_unsubscribe (flush_connected link r).0.subscribed
  unfolding flush_connected requeue has
  requeued_remove j = ground (
    arith,
    has-insert_all j removed [],
    has-collect_remove_out j r.pending_unsubscribe
        (collect_add r.pending_subscribe r.subscribed []).0 [],
    has-collect_remove j r.pending_unsubscribe (collect_add r.pending_subscribe r.subscribed []).0
        [],
  )

flush_known_silent :
    (link : Link) (r : Registry)
    → Within r.pending_subscribe r.subscribed
    → Apart r.pending_unsubscribe r.subscribed
    → flush_connected link r ≡ (record r { pending_subscribe = []; pending_unsubscribe = [] }, [])
unfolding flush_connected
flush_known_silent link r within apart = ground (
  arith,
  collect_add_known r.pending_subscribe r.subscribed [] within,
  collect_remove_absent r.pending_unsubscribe r.subscribed [] apart,
)

-- Let no asset be queued both ways, let every write of a flush fail, and let no call come before the
-- next flush is over. Then that flush, on a connection, writes no frame either, whatever its writes
-- would do, and drops what the first one had queued again.
pub flush_failed_not_retried :
    (down link : Link) (r : Registry)
    → ((f : Frame) → down.accepts f ≡ false)
    → ((j : Text) → has j r.pending_subscribe ≡ true → has j r.pending_unsubscribe ≡ false)
    → link.connected ≡ true
    → let (r₁, lost) = flush_connected down r in
      let (r₂, retried) = flush_pending link r₁ in
      (lost ≡ []) × (retried ≡ []) × (r₂.pending_subscribe ≡ []) × (r₂.pending_unsubscribe ≡ [])
unfolding flush_pending
flush_failed_not_retried down link r fails apart live =
    let silent =
      flush_known_silent link (flush_connected down r).0 (requeued_add down r apart)
        (requeued_remove down r) in
    ground (arith, silent, flush_down_silent down r fails)

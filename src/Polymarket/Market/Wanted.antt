-- ===== src/Polymarket/Market/Wanted.antt =====
-- The assets that the caller wants, as the registry holds them, under each method of
-- pkg/polymarket/market.go.
use go_exchange_connector.Prelude.{
  Text, Bool, not, ◌&&◌, ◌||◌, List, [], ◌∷◌, ◌++◌, ◌≡◌, refl, ◌∙◌, arith, if◌then◌else◌,
}
use go_exchange_connector.Prelude.Sets.{
  has, has-insert, has-delete, has-append, has_congr, insert_all, has-insert_all, has-delete_all,
  insert, delete,
}
use go_exchange_connector.Polymarket.Market.{
  Registry, Link, collect_add, collect_remove, requeue, flush_connected, flush_pending,
  queue_subscribe, queue_unsubscribe, subscribe, unsubscribe, all_ids, on_connect, on_disconnect,
}

-- An asset is wanted if it is subscribed or queued, and not queued for removal.
abbrev pub wanted : Registry → Text → Bool
wanted r j = (has j r.subscribed || has j r.pending_subscribe) && not (has j r.pending_unsubscribe)

pub has-collect_add :
    (j : Text) (ids sub out : List Text)
    → has j (collect_add ids sub out).0 ≡ (has j ids || has j sub)
unfolding collect_add has
has-collect_add j [] sub out = refl
has-collect_add j (id ∷ ids) sub out = ground (
  arith,
  has-collect_add j ids (insert id sub) (if has id sub then out else out ++ id ∷ []),
  has-insert j id sub,
)

pub has-collect_add_out :
    (j : Text) (ids sub out : List Text)
    → has j (collect_add ids sub out).1 ≡ (has j out || (has j ids && not (has j sub)))
unfolding collect_add has
has-collect_add_out j [] sub out = ground arith
has-collect_add_out j (id ∷ ids) sub out = ground (
  arith,
  has-collect_add_out j ids (insert id sub) (if has id sub then out else out ++ id ∷ []),
  has-insert j id sub,
  has-append j out (id ∷ []),
  has_congr j id sub,
)

pub has-collect_remove :
    (j : Text) (ids sub out : List Text)
    → has j (collect_remove ids sub out).0 ≡ (not (has j ids) && has j sub)
unfolding collect_remove has
has-collect_remove j [] sub out = refl
has-collect_remove j (id ∷ ids) sub out = ground (
  arith,
  has-collect_remove j ids (delete id sub) (if has id sub then out ++ id ∷ [] else out),
  has-delete j id sub,
)

pub has-collect_remove_out :
    (j : Text) (ids sub out : List Text)
    → has j (collect_remove ids sub out).1 ≡ (has j out || (has j ids && has j sub))
unfolding collect_remove has
has-collect_remove_out j [] sub out = ground arith
has-collect_remove_out j (id ∷ ids) sub out = ground (
  arith,
  has-collect_remove_out j ids (delete id sub) (if has id sub then out ++ id ∷ [] else out),
  has-delete j id sub,
  has-append j out (id ∷ []),
  has_congr j id sub,
)

wanted-flush_connected :
    (link : Link) (r : Registry) (j : Text) → wanted (flush_connected link r).0 j ≡ wanted r j
unfolding flush_connected requeue has
wanted-flush_connected link r j =
    let added = collect_add r.pending_subscribe r.subscribed [] in
    let removed = collect_remove r.pending_unsubscribe added.0 [] in
    ground (
      arith,
      has-collect_add j r.pending_subscribe r.subscribed [],
      has-collect_add_out j r.pending_subscribe r.subscribed [],
      has-collect_remove j r.pending_unsubscribe added.0 [],
      has-collect_remove_out j r.pending_unsubscribe added.0 [],
      has-insert_all j added.1 [],
      has-insert_all j removed.1 [],
    )

-- Flushing changes what is on the wire and not what is wanted, also when a write fails.
pub wanted-flush_pending :
    (link : Link) (r : Registry) (j : Text) → wanted (flush_pending link r).0 j ≡ wanted r j
unfolding flush_pending
wanted-flush_pending link r j = ground (arith, wanted-flush_connected link r j)

pub wanted-queue_subscribe :
    (ids : List Text) (r : Registry) (j : Text)
    → wanted (queue_subscribe ids r) j ≡ (has j ids || wanted r j)
unfolding queue_subscribe has
wanted-queue_subscribe [] r j = refl
wanted-queue_subscribe (id ∷ ids) r j = ground (
  arith,
  wanted-queue_subscribe ids
      (record r {
        pending_unsubscribe = delete id r.pending_unsubscribe;
        pending_subscribe =
            if has id r.subscribed then r.pending_subscribe else insert id r.pending_subscribe;
      })
      j,
  has-delete j id r.pending_unsubscribe,
  has-insert j id r.pending_subscribe,
  has_congr j id r.subscribed,
)

pub wanted-queue_unsubscribe :
    (ids : List Text) (r : Registry) (j : Text)
    → wanted (queue_unsubscribe ids r) j ≡ (not (has j ids) && wanted r j)
unfolding queue_unsubscribe has
wanted-queue_unsubscribe [] r j = refl
wanted-queue_unsubscribe (id ∷ ids) r j = ground (
  arith,
  wanted-queue_unsubscribe ids
      (record r {
        pending_subscribe = delete id r.pending_subscribe;
        pending_unsubscribe = insert id r.pending_unsubscribe;
      })
      j,
  has-delete j id r.pending_subscribe,
  has-insert j id r.pending_unsubscribe,
)

pub wanted-subscribe :
    (link : Link) (ids : List Text) (r : Registry) (j : Text)
    → wanted (subscribe link ids r).0 j ≡ (has j ids || wanted r j)
unfolding subscribe
wanted-subscribe link ids r j =
    wanted-flush_pending link (queue_subscribe ids r) j ∙ wanted-queue_subscribe ids r j

pub wanted-unsubscribe :
    (link : Link) (ids : List Text) (r : Registry) (j : Text)
    → wanted (unsubscribe link ids r).0 j ≡ (not (has j ids) && wanted r j)
unfolding unsubscribe
wanted-unsubscribe link ids r j =
    wanted-flush_pending link (queue_unsubscribe ids r) j ∙ wanted-queue_unsubscribe ids r j

pub has-all_ids : (r : Registry) (j : Text) → has j (all_ids r) ≡ wanted r j
unfolding all_ids has
has-all_ids r j = ground (
  arith,
  has-delete_all j r.pending_unsubscribe
      (insert_all r.pending_subscribe (insert_all r.subscribed [])),
  has-insert_all j r.pending_subscribe (insert_all r.subscribed []),
  has-insert_all j r.subscribed [],
)

pub wanted-on_connect :
    (link : Link) (r : Registry) (j : Text) → wanted (on_connect link r).0 j ≡ wanted r j
unfolding on_connect has
wanted-on_connect link r j = ground (arith, has-all_ids r j)

pub wanted-on_disconnect : (r : Registry) (j : Text) → wanted (on_disconnect r) j ≡ wanted r j
unfolding on_disconnect has
wanted-on_disconnect r j = ground (arith, has-insert_all j r.subscribed r.pending_subscribe)

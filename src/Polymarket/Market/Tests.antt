-- ===== src/Polymarket/Market/Tests.antt =====
-- Runs of the market registry of pkg/polymarket/market.go on two assets.
use go_exchange_connector.Prelude.{Text, codes, eqb, Bool, true, false, List, [], ◌∷◌, ◌≡◌, refl}
use go_exchange_connector.Prelude.Sets.{has, insert, delete, insert_all, delete_all}
use go_exchange_connector.Polymarket.Market.{
  Registry, Frame, Link, subscribe_op, new_registry, collect_add, collect_remove, write_op, requeue,
  flush_connected, flush_pending, queue_subscribe, queue_unsubscribe, subscribe, unsubscribe,
  all_ids, on_connect, on_disconnect, clear_subscriptions, should_connect, is_subscribed,
}
use go_exchange_connector.Polymarket.Market.Wanted.{wanted}
use go_exchange_connector.Polymarket.Market.Retry.{flush_failed_not_retried}
use go_exchange_connector.Polymarket.Market.Trace.{
  Event, caller_subscribes, caller_unsubscribes, flush_tick, connects, drops, step, run,
  new_machine, intents, wanted-run,
}
use go_exchange_connector.Polymarket.Market.Trace.Sync.{reliably, served-run}

abbrev yes_token : Text
yes_token = codes "71321"

abbrev no_token : Text
no_token = codes "52114"

-- Subscribe before the connection, reconnect after a drop, and leave one asset.
abbrev session : List Event
session =
    caller_subscribes (yes_token ∷ no_token ∷ [])
    ∷ connects
    ∷ drops
    ∷ connects
    ∷ caller_unsubscribes (no_token ∷ [])
    ∷ flush_tick
    ∷ []

session_live : (run (reliably session) new_machine).connected ≡ true
unfolding run step subscribe unsubscribe queue_subscribe queue_unsubscribe flush_pending
    flush_connected collect_add collect_remove write_op requeue on_connect on_disconnect all_ids
    new_machine new_registry has eqb insert delete insert_all delete_all
session_live = refl

served-run_example :
    (run (reliably session) new_machine).served no_token ≡ intents (reliably session) no_token false
served-run_example = served-run session no_token session_live

-- A run in which the second subscription is not accepted by the transport.
abbrev lossy : List ((Frame → Bool) × Event)
lossy =
    (λ f. true, connects)
    ∷ (λ f. false, caller_subscribes (yes_token ∷ []))
    ∷ (λ f. true, drops)
    ∷ (λ f. true, connects)
    ∷ []

wanted-run_example :
    wanted (run lossy new_machine).registry yes_token
    ≡ intents lossy yes_token (wanted new_machine.registry yes_token)
wanted-run_example = wanted-run lossy new_machine yes_token

-- One asset is served, another is queued, and the first is queued for removal.
abbrev switching : Registry
switching = record {
  subscribed = yes_token ∷ [];
  pending_subscribe = no_token ∷ [];
  pending_unsubscribe = yes_token ∷ [];
}

abbrev up : Link
up = record { connected = true; accepts = λ f. true }

abbrev broken : Link
broken = record { connected = true; accepts = λ f. false }

abbrev fresh : Registry
fresh = record { subscribed = []; pending_subscribe = yes_token ∷ []; pending_unsubscribe = [] }

flush_failed_not_retried_example :
    let (r₁, lost) = flush_connected broken fresh in
    let (r₂, retried) = flush_pending up r₁ in
    (lost ≡ []) × (retried ≡ []) × (r₂.pending_subscribe ≡ []) × (r₂.pending_unsubscribe ≡ [])
unfolding has
flush_failed_not_retried_example =
    flush_failed_not_retried broken up fresh (λ f. refl) (λ j h. refl) refl

-- A frame goes out for a new asset, and none for a repeated one.
subscribe_once :
    (subscribe up (yes_token ∷ yes_token ∷ []) new_registry).1 ≡ subscribe_op (yes_token ∷ []) ∷ []
unfolding subscribe queue_subscribe flush_pending flush_connected collect_add collect_remove
    write_op requeue new_registry has eqb insert delete insert_all
subscribe_once = refl

deferred_connect :
    (should_connect new_registry ≡ false)
    × (should_connect fresh ≡ true)
    × (should_connect (clear_subscriptions fresh) ≡ false)
    × (is_subscribed fresh yes_token ≡ false)
unfolding should_connect clear_subscriptions new_registry is_subscribed has
deferred_connect = (refl, refl, refl, refl)

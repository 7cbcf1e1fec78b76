-- ===== src/Polymarket/Rtds/Served.antt =====
-- What the venue streams after the requests of pkg/polymarket/rtds.go, as a reading of the requests
-- alone, against the symbols that the registry holds.
use go_exchange_connector.Prelude.{
  Text, eqb, eqb_refl, Bool, true, false, not, ◌&&◌, ◌||◌, List, [], ◌∷◌, Option, none, some, ◌≡◌,
  refl, arith, Option-cases, inl, inr,
}
use go_exchange_connector.Prelude.Sets.{has}
use go_exchange_connector.Prelude.Dict.{lookup, put, lookup-put}
use go_exchange_connector.Polymarket.Rtds.{
  TopicState, Registry, new_topic_state, add_loop, remove_loop, none_in, add_symbols_windowed,
  add_symbols, remove_symbols, Entry, Request, subscribe_request, unsubscribe_request,
  binance_entries, filtered_entries, send_entries, subscribe_crypto_prices,
  unsubscribe_crypto_prices, subscribe_filtered, unsubscribe_filtered, crypto_price_topic,
}
use go_exchange_connector.Polymarket.Rtds.Symbols.{
  asked, has-add_loop, has-remove_loop, asked-add_loop, asked-remove_loop, add_loop_none,
  remove_loop_none, add_loop_nonempty, remove_loop_empty,
}

-- The symbols subscribed under a topic.
abbrev pub symbols_of : Text → Registry → List Text
symbols_of key reg = elim (lookup key reg) [ none ↦ [] | some st ↦ st.symbols ]

-- The same filter: none, or the same symbol.
abbrev same_filter : Option Text → Option Text → Bool
same_filter none none = true
same_filter none (some t) = false
same_filter (some s) none = false
same_filter (some s) (some t) = eqb s t

-- Does a list of entries name a stream?
abbrev pub names : Text → Option Text → List Entry → Bool
names topic filter [] = false
names topic filter (e ∷ es) =
    (eqb topic e.topic && same_filter filter e.filter) || names topic filter es

-- Does the venue send a stream after the requests, if `b` says whether it did before?
abbrev pub streams : List Request → Text → Option Text → Bool → Bool
streams [] topic filter b = b
streams (subscribe_request es ∷ rs) topic filter b =
    streams rs topic filter (names topic filter es || b)
streams (unsubscribe_request es ∷ rs) topic filter b =
    streams rs topic filter (not (names topic filter es) && b)

names-filtered_entries :
    (topic j : Text) (raws : List Text)
    → names topic (some j) (filtered_entries topic raws) ≡ asked j raws
unfolding filtered_entries
names-filtered_entries topic j [] = refl
names-filtered_entries topic j (raw ∷ raws) =
    ground (arith, eqb_refl topic, names-filtered_entries topic j raws)

pub streams-subscribe :
    (es : List Entry) (topic : Text) (filter : Option Text) (b : Bool)
    → streams (send_entries true subscribe_request es) topic filter b ≡ (names topic filter es || b)
unfolding send_entries
streams-subscribe [] topic filter b = refl
streams-subscribe (e ∷ es) topic filter b = refl

streams-unsubscribe :
    (es : List Entry) (topic : Text) (filter : Option Text) (b : Bool)
    → streams (send_entries true unsubscribe_request es) topic filter b
      ≡ (not (names topic filter es) && b)
unfolding send_entries
streams-unsubscribe [] topic filter b = refl
streams-unsubscribe (e ∷ es) topic filter b = refl

asked-none_in : (j : Text) (ss : List Text) → none_in ss ≡ true → asked j ss ≡ false
asked-none_in j [] h = refl
asked-none_in j (s ∷ ss) h = cc

symbols-put :
    (key : Text) (st : TopicState) (reg : Registry) → symbols_of key (put key st reg) ≡ st.symbols
symbols-put key st reg = ground (arith, lookup-put key key st reg, eqb_refl key)

symbols-add_symbols :
    (topic : Text) (raws : List Text) (reg : Registry)
    → (symbols_of topic (add_symbols topic raws reg).0 ≡ (add_loop raws (symbols_of topic reg)).0)
      × ((add_symbols topic raws reg).1 ≡ (
          none_in (symbols_of topic reg) && not (none_in (add_loop raws (symbols_of topic reg)).0)))
      × ((add_symbols topic raws reg).2 ≡ (add_loop raws (symbols_of topic reg)).1)
unfolding add_symbols add_symbols_windowed new_topic_state
symbols-add_symbols topic raws reg = elim (Option-cases (lookup topic reg)) [
  | inl e ↦
      let made : TopicState = record { window_seconds = 0; symbols = (add_loop raws []).0 } in
      ground (arith, e, symbols-put topic made reg)
  | inr (st, e) ↦
      let made : TopicState = record {
        window_seconds = 0;
        symbols = (add_loop raws st.symbols).0;
      } in
      ground (arith, e, symbols-put topic made reg)
]

-- On a connection that takes the write, subscribing to symbols of a filtered topic (Chainlink or
-- equity prices) makes the venue stream exactly the symbols that are then subscribed, if it streamed
-- those subscribed before.
pub subscribe_filtered-streams :
    (topic j : Text) (raws : List Text) (reg : Registry) (b : Bool)
    → b ≡ has j (symbols_of topic reg)
    → let (reg', requests) = subscribe_filtered true topic raws reg in
      streams requests topic (some j) b ≡ has j (symbols_of topic reg')
unfolding subscribe_filtered
subscribe_filtered-streams topic j raws reg b h =
    let set = symbols_of topic reg in
    let added = (add_loop raws set).1 in
    ground (
      arith,
      h,
      symbols-add_symbols topic raws reg,
      streams-subscribe (filtered_entries topic added) topic (some j) b,
      names-filtered_entries topic j added,
      asked-add_loop j raws set,
      has-add_loop j raws set,
      asked-none_in j added,
    )

symbols-remove_symbols :
    (topic : Text) (raws : List Text) (reg : Registry)
    → let (set, removed) = remove_loop raws (symbols_of topic reg) in
      (symbols_of topic (remove_symbols topic raws reg).0 ≡ set)
      × ((remove_symbols topic raws reg).1 ≡ (not (none_in removed) && none_in set))
      × ((remove_symbols topic raws reg).2 ≡ removed)
unfolding remove_symbols
symbols-remove_symbols topic raws reg = elim (Option-cases (lookup topic reg)) [
  | inl e ↦ ground (arith, e, remove_loop_empty raws)
  | inr (st, e) ↦
      let made : TopicState = record st { symbols = (remove_loop raws st.symbols).0 } in
      ground (arith, e, symbols-put topic made reg)
]

-- On a connection that takes the write, unsubscribing from symbols of a filtered topic makes the
-- venue stream exactly the symbols that are still subscribed, if it streamed those subscribed before.
pub unsubscribe_filtered-streams :
    (topic j : Text) (raws : List Text) (reg : Registry) (b : Bool)
    → b ≡ has j (symbols_of topic reg)
    → let (reg', requests) = unsubscribe_filtered true topic raws reg in
      streams requests topic (some j) b ≡ has j (symbols_of topic reg')
unfolding unsubscribe_filtered
unsubscribe_filtered-streams topic j raws reg b h =
    let set = symbols_of topic reg in
    let removed = (remove_loop raws set).1 in
    ground (
      arith,
      h,
      symbols-remove_symbols topic raws reg,
      streams-unsubscribe (filtered_entries topic removed) topic (some j) b,
      names-filtered_entries topic j removed,
      asked-remove_loop j raws set,
      has-remove_loop j raws set,
      asked-none_in j removed,
    )

names-binance_entries : names crypto_price_topic none binance_entries ≡ true
unfolding binance_entries eqb
names-binance_entries = refl

-- On a connection that takes the write, subscribing keeps the broadcast topic streamed exactly while
-- some symbol is subscribed, if it was so before.
pub subscribe_crypto_prices-streams :
    (raws : List Text) (reg : Registry) (b : Bool)
    → b ≡ not (none_in (symbols_of crypto_price_topic reg))
    → let (reg', requests) = subscribe_crypto_prices true raws reg in
      streams requests crypto_price_topic none b
      ≡ not (none_in (symbols_of crypto_price_topic reg'))
unfolding subscribe_crypto_prices
subscribe_crypto_prices-streams raws reg b h =
    let set = symbols_of crypto_price_topic reg in
    ground (
      arith,
      h,
      symbols-add_symbols crypto_price_topic raws reg,
      streams-subscribe binance_entries crypto_price_topic none b,
      names-binance_entries,
      add_loop_none raws set,
      add_loop_nonempty raws set,
    )

remove_loop_stays_empty :
    (raws set : List Text) → none_in set ≡ true → none_in (remove_loop raws set).0 ≡ true
remove_loop_stays_empty raws [] h = ground (arith, remove_loop_empty raws)
remove_loop_stays_empty raws (s ∷ set) h = cc

-- On a connection that takes the write, unsubscribing keeps the broadcast topic streamed exactly
-- while some symbol is subscribed, if it was so before.
pub unsubscribe_crypto_prices-streams :
    (raws : List Text) (reg : Registry) (b : Bool)
    → b ≡ not (none_in (symbols_of crypto_price_topic reg))
    → let (reg', requests) = unsubscribe_crypto_prices true raws reg in
      streams requests crypto_price_topic none b
      ≡ not (none_in (symbols_of crypto_price_topic reg'))
unfolding unsubscribe_crypto_prices
unsubscribe_crypto_prices-streams raws reg b h =
    let set = symbols_of crypto_price_topic reg in
    ground (
      arith,
      h,
      symbols-remove_symbols crypto_price_topic raws reg,
      streams-unsubscribe binance_entries crypto_price_topic none b,
      names-binance_entries,
      remove_loop_none raws set,
      remove_loop_stays_empty raws set,
    )

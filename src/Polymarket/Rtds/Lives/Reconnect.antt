-- ===== src/Polymarket/Rtds/Lives/Reconnect.antt =====
-- A reconnect after any life of the registry of pkg/polymarket/rtds.go.
use go_exchange_connector.Prelude.{
  ℕ, Text, eqb, Bool, true, false, not, ◌&&◌, ◌||◌, List, [], ◌∷◌, some, ◌≡◌, refl, ◌∙◌, ap, arith,
  inl, inr, if◌then◌else◌, All,
}
use go_exchange_connector.Prelude.Sets.{has}
use go_exchange_connector.Prelude.Dict.{lookup}
use go_exchange_connector.Polymarket.Rtds.{
  Registry, add_symbols_windowed, add_symbols, remove_symbols, subscribe_crypto_prices,
  unsubscribe_crypto_prices, subscribe_filtered, unsubscribe_filtered, crypto_price_topic,
  chainlink_price_topic, equity_price_topic, chainlink_twap_topic,
}
use go_exchange_connector.Polymarket.Rtds.Symbols.{asked, has-add_loop, has-remove_loop}
use go_exchange_connector.Polymarket.Rtds.Served.{symbols_of, streams}
use go_exchange_connector.Polymarket.Rtds.Keys.{subs_key}
use go_exchange_connector.Polymarket.Rtds.Resend.{
  subscribe_chainlink_twap, unsubscribe_chainlink_twap, on_connect, clear_symbols,
}
use go_exchange_connector.Polymarket.Rtds.Resend.Names.{IsFiltered}
use go_exchange_connector.Polymarket.Rtds.Resend.Streams.{on_connect-streams}
use go_exchange_connector.Polymarket.Rtds.Lives.{
  Call, crypto_on, crypto_off, chainlink_on, chainlink_off, equity_on, equity_off, twap_on,
  twap_off, stops, step, run, intent, intents, IsCall, symbols-add, symbols-remove,
}
use go_exchange_connector.Polymarket.Rtds.Lives.Kept.{IsKept, add-IsKept, remove-IsKept}

-- Membership after an addition and after a removal.
has-add :
    (t j k : Text) (w : ℕ) (raws : List Text) (reg : Registry)
    → has j (symbols_of t (add_symbols_windowed k w raws reg).0)
      ≡ (if eqb t k then asked j raws || has j (symbols_of t reg) else has j (symbols_of t reg))
has-add t j k w raws reg =
    ground (arith, symbols-add t k w raws reg, has-add_loop j raws (symbols_of t reg))

has-remove :
    (t j k : Text) (raws : List Text) (reg : Registry)
    → has j (symbols_of t (remove_symbols k raws reg).0) ≡ (
        if eqb t k
        then not (asked j raws) && has j (symbols_of t reg)
        else has j (symbols_of t reg))
has-remove t j k raws reg =
    ground (arith, symbols-remove t k raws reg, has-remove_loop j raws (symbols_of t reg))

step-IsKept :
    (accepts : Bool) (c : Call) (reg : Registry)
    → IsCall (accepts, c)
    → IsKept reg
    → IsKept (step accepts c reg)
unfolding step subscribe_crypto_prices unsubscribe_crypto_prices subscribe_filtered
    unsubscribe_filtered add_symbols subscribe_chainlink_twap unsubscribe_chainlink_twap
    clear_symbols lookup
step-IsKept accepts (crypto_on raws) reg ok kept =
    add-IsKept crypto_price_topic 0 raws reg (inl refl) kept
step-IsKept accepts (crypto_off raws) reg ok kept =
    remove-IsKept crypto_price_topic raws reg (inl refl) kept
step-IsKept accepts (chainlink_on raws) reg ok kept =
    add-IsKept chainlink_price_topic 0 raws reg (inr (inl (inl refl))) kept
step-IsKept accepts (chainlink_off raws) reg ok kept =
    remove-IsKept chainlink_price_topic raws reg (inr (inl (inl refl))) kept
step-IsKept accepts (equity_on raws) reg ok kept =
    add-IsKept equity_price_topic 0 raws reg (inr (inl (inr refl))) kept
step-IsKept accepts (equity_off raws) reg ok kept =
    remove-IsKept equity_price_topic raws reg (inr (inl (inr refl))) kept
step-IsKept accepts (twap_on w raws) reg ok kept =
    add-IsKept (subs_key chainlink_twap_topic w) w raws reg (inr (inr (w, ok, refl))) kept
step-IsKept accepts (twap_off w raws) reg ok kept =
    remove-IsKept (subs_key chainlink_twap_topic w) raws reg (inr (inr (w, ok, refl))) kept
step-IsKept accepts stops reg ok kept = (tt, λ t. tt)

step-intent :
    (accepts : Bool) (c : Call) (reg : Registry) (t j : Text)
    → has j (symbols_of t (step accepts c reg)) ≡ intent c t j (has j (symbols_of t reg))
unfolding step subscribe_crypto_prices unsubscribe_crypto_prices subscribe_filtered
    unsubscribe_filtered add_symbols subscribe_chainlink_twap unsubscribe_chainlink_twap
    clear_symbols lookup has
step-intent accepts (crypto_on raws) reg t j = has-add t j crypto_price_topic 0 raws reg
step-intent accepts (crypto_off raws) reg t j = has-remove t j crypto_price_topic raws reg
step-intent accepts (chainlink_on raws) reg t j = has-add t j chainlink_price_topic 0 raws reg
step-intent accepts (chainlink_off raws) reg t j = has-remove t j chainlink_price_topic raws reg
step-intent accepts (equity_on raws) reg t j = has-add t j equity_price_topic 0 raws reg
step-intent accepts (equity_off raws) reg t j = has-remove t j equity_price_topic raws reg
step-intent accepts (twap_on w raws) reg t j =
    has-add t j (subs_key chainlink_twap_topic w) w raws reg
step-intent accepts (twap_off w raws) reg t j =
    has-remove t j (subs_key chainlink_twap_topic w) raws reg
step-intent accepts stops reg t j = refl

run-IsKept :
    (cs : List (Bool × Call)) (reg : Registry) → All IsCall cs → IsKept reg → IsKept (run cs reg)
unfolding run
run-IsKept [] reg ok kept = kept
run-IsKept ((accepts, c) ∷ cs) reg ok kept =
    run-IsKept cs (step accepts c reg) ok.1 (step-IsKept accepts c reg ok.0 kept)

run-intents :
    (cs : List (Bool × Call)) (reg : Registry) (t j : Text)
    → has j (symbols_of t (run cs reg)) ≡ intents cs t j (has j (symbols_of t reg))
unfolding run
run-intents [] reg t j = refl
run-intents ((accepts, c) ∷ cs) reg t j =
    run-intents cs (step accepts c reg) t j ∙ ap (intents cs t j) (step-intent accepts c reg t j)

empty-IsKept : IsKept []
unfolding lookup
empty-IsKept = (tt, λ t. tt)

-- Let the subscribe and unsubscribe methods be called in any order from a new manager on, with or
-- without a connection that takes the writes, and with windows that are int64. When a connection is
-- then made and takes the write, onConnect succeeds, and of the Chainlink and the equity topic the
-- venue streams exactly the symbols that the caller has subscribed to and not unsubscribed from
-- since, in whatever case and with whatever spaces around they were given.
pub on_connect-run :
    (cs : List (Bool × Call)) (t j : Text)
    → IsFiltered t
    → All IsCall cs
    → let (requests, done) = on_connect true (run cs []) in
      (done ≡ true) × (streams requests t (some j) false ≡ intents cs t j false)
unfolding lookup has
on_connect-run cs t j f ok =
    let kept = run-IsKept cs [] ok empty-IsKept in
    let (done, streamed) = on_connect-streams t j (run cs []) f kept.0 (kept.1 t) in
    (done, streamed ∙ run-intents cs [] t j)

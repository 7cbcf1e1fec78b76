-- ===== src/Binance/Messages/Admitted.antt =====
-- Which events of pkg/binance's processMessage reach the caller.
use go_exchange_connector.Prelude.{
  ℕ, Text, codes, eqb, is_empty, Bool, true, false, List, ◌≡◌, refl, ◌⊎◌, inl, inr, Option, none,
  some, is_some, if◌then◌else◌,
}
use go_exchange_connector.Prelude.Int.{ℤ}
use go_exchange_connector.Prelude.Sets.{has}
use go_exchange_connector.Prelude.Dict.{lookup}
use go_exchange_connector.Prelude.Trim.{trim_space}
use go_exchange_connector.Binance.Book.{Book, Reaction, ignores, fetches, dispatches}
use go_exchange_connector.Binance.Streams.{
  stream_book_ticker, stream_agg_trade, stream_depth, stream_for, kline_stream, normalize_symbol,
}
use go_exchange_connector.Binance.Messages.{
  Depth, Json, Event, book_ticker_event, agg_trade_event, kline_event, depth_event, Outcome,
  nothing, fetch_snapshot, dispatched, partial_subscribed, handle_book_ticker,
  handle_spot_book_ticker, handle_agg_trade, handle_kline, handle_partial_depth, react, on_depth,
  handle_depth_frame, json_string, route, with_frame, with_decoded, process_message,
}

-- The stream that an event stands for is registered.
abbrev pub IsOf : List Text → Event → Type 0
IsOf streams (book_ticker_event mkt seq at stamp ev) =
    has (stream_for (normalize_symbol ev.symbol) stream_book_ticker) streams ≡ true
IsOf streams (agg_trade_event mkt seq at stamp ev) =
    has (stream_for (normalize_symbol ev.symbol) stream_agg_trade) streams ≡ true
IsOf streams (kline_event mkt seq at stamp opened closed ev) =
    has (kline_stream (normalize_symbol ev.symbol) ev.interval) streams ≡ true
IsOf streams (depth_event mkt seq at stamp symbol last bids asks) =
    (partial_subscribed (normalize_symbol symbol) streams ≡ true)
    ⊎ (has (stream_for (normalize_symbol symbol) stream_depth) streams ≡ true)

-- What comes of a message concerns a stream that is registered.
pub IsAdmitted : List Text → Outcome → Type 0
IsAdmitted streams nothing = Unit
IsAdmitted streams (fetch_snapshot symbol) = has (stream_for symbol stream_depth) streams ≡ true
IsAdmitted streams (dispatched e) = IsOf streams e

nothing-IsAdmitted : (streams : List Text) → IsAdmitted streams nothing
unfolding IsAdmitted
nothing-IsAdmitted streams = tt

of_event : (streams : List Text) (e : Event) → IsOf streams e → IsAdmitted streams (dispatched e)
unfolding IsAdmitted
of_event streams e h = h

if_registered :
    (streams : List Text) (b : Bool) (o : Outcome)
    → (b ≡ true → IsAdmitted streams o)
    → IsAdmitted streams (if b then o else nothing)
if_registered streams true o admitted = admitted refl
if_registered streams false o admitted = nothing-IsAdmitted streams

with_frame-IsAdmitted :
    {A : Type 0} (streams : List Text) (frame : Option A) (handle : A → Outcome)
    → ((a : A) → IsAdmitted streams (handle a))
    → IsAdmitted streams (with_frame frame handle)
unfolding with_frame
with_frame-IsAdmitted streams none handle each = nothing-IsAdmitted streams
with_frame-IsAdmitted streams (some a) handle each = each a

with_decoded-IsAdmitted :
    {A : Type 0} (streams : List Text) (books : List (Text × Book)) (frame : Option A)
    (handle : A → List (Text × Book) × Outcome)
    → ((a : A) → IsAdmitted streams (handle a).1)
    → IsAdmitted streams (with_decoded books frame handle).1
unfolding with_decoded
with_decoded-IsAdmitted streams books none handle each = nothing-IsAdmitted streams
with_decoded-IsAdmitted streams books (some a) handle each = each a

if_pair :
    (streams : List Text) (b : Bool) (x y : List (Text × Book) × Outcome)
    → (b ≡ true → IsAdmitted streams x.1)
    → (b ≡ false → IsAdmitted streams y.1)
    → IsAdmitted streams (if b then x else y).1
if_pair streams true x y p q = p refl
if_pair streams false x y p q = q refl

module _ (json : Json) (mkt : Text) (streams : List Text) (seq : ℤ) (now : ℕ → ℤ) where
  handle_book_ticker-IsAdmitted :
      (body : Text) → IsAdmitted streams (handle_book_ticker json mkt streams seq now body)
  unfolding handle_book_ticker
  handle_book_ticker-IsAdmitted body =
      with_frame-IsAdmitted streams (json.book_ticker body) _ (λ ev.
        if_registered streams
          (has (stream_for (normalize_symbol ev.symbol) stream_book_ticker) streams) _
          (λ h. of_event streams _ h))

  handle_agg_trade-IsAdmitted :
      (body : Text) → IsAdmitted streams (handle_agg_trade json mkt streams seq now body)
  unfolding handle_agg_trade
  handle_agg_trade-IsAdmitted body = with_frame-IsAdmitted streams (json.agg_trade body) _ (λ ev.
      if_registered streams (has (stream_for (normalize_symbol ev.symbol) stream_agg_trade) streams)
        _ (λ h. of_event streams _ h))

  handle_kline-IsAdmitted :
      (body : Text) → IsAdmitted streams (handle_kline json mkt streams seq now body)
  unfolding handle_kline
  handle_kline-IsAdmitted body = with_frame-IsAdmitted streams (json.kline body) _ (λ ev.
      if_registered streams (has (kline_stream (normalize_symbol ev.symbol) ev.interval) streams) _
        (λ h. of_event streams _ h))

  handle_spot_book_ticker-IsAdmitted :
      (raw : List (Text × Text)) (body : Text)
      → IsAdmitted streams (handle_spot_book_ticker json mkt streams seq now raw body)
  unfolding handle_spot_book_ticker
  handle_spot_book_ticker-IsAdmitted raw body =
      if_registered streams (is_some (lookup (codes "u") raw)) _
        (λ h. handle_book_ticker-IsAdmitted body)

  react-IsAdmitted :
      (d : Depth) (r : Reaction)
      → has (stream_for (normalize_symbol d.symbol) stream_depth) streams ≡ true
      → IsAdmitted streams (react json mkt streams seq now d (normalize_symbol d.symbol) r)
  unfolding IsAdmitted
  react-IsAdmitted d ignores h = tt
  react-IsAdmitted d fetches h = h
  react-IsAdmitted d (dispatches last bids asks) h = inr h

  on_depth-IsAdmitted :
      (books : List (Text × Book)) (d : Depth)
      → IsAdmitted streams (on_depth json mkt streams seq now books d).1
  unfolding on_depth handle_partial_depth
  on_depth-IsAdmitted books d =
      let symbol = normalize_symbol d.symbol in
      if_pair streams (partial_subscribed symbol streams) _ _
        (λ partial. of_event streams _ (inl partial))
        (λ _.
          if_pair streams (has (stream_for symbol stream_depth) streams) _ _ (react-IsAdmitted d _)
            (λ _. nothing-IsAdmitted streams))

  handle_depth_frame-IsAdmitted :
      (books : List (Text × Book)) (body : Text)
      → IsAdmitted streams (handle_depth_frame json mkt streams seq now books body).1
  unfolding handle_depth_frame
  handle_depth_frame-IsAdmitted books body =
      with_decoded-IsAdmitted streams books (json.depth body) _ (on_depth-IsAdmitted books)

  route-IsAdmitted :
      (books : List (Text × Book)) (body : Text) (raw : List (Text × Text))
      → IsAdmitted streams (route json mkt streams seq now books body raw).1
  unfolding route
  route-IsAdmitted books body raw =
      let kind = json_string json mkt streams seq now (lookup (codes "e") raw) in
      if_pair streams (is_some (lookup (codes "id") raw)) _ _ (λ _. nothing-IsAdmitted streams)
        (λ _.
          if_pair streams (eqb kind (codes "bookTicker")) _ _
            (λ _. handle_book_ticker-IsAdmitted body)
            (λ _.
              if_pair streams (eqb kind (codes "aggTrade")) _ _
                (λ _. handle_agg_trade-IsAdmitted body)
                (λ _.
                  if_pair streams (eqb kind (codes "kline")) _ _ (λ _. handle_kline-IsAdmitted body)
                    (λ _.
                      if_pair streams (eqb kind (codes "depthUpdate")) _ _
                        (λ _. handle_depth_frame-IsAdmitted books body)
                        (λ _.
                          if_pair streams (is_empty kind) _ _
                            (λ _. handle_spot_book_ticker-IsAdmitted raw body)
                            (λ _. nothing-IsAdmitted streams))))))

  -- Whatever message comes in, and whatever JSON makes of it: the event that is dispatched for it, or
  -- the snapshot that is fetched, belongs to a stream that is registered on the connection, where a
  -- partial depth stream of the symbol counts for a depth event too.
  pub process_message-IsAdmitted :
      (books : List (Text × Book)) (body : Text)
      → IsAdmitted streams (process_message json mkt streams seq now books body).1
  unfolding process_message
  process_message-IsAdmitted books body =
      if_pair streams (is_empty (trim_space body)) _ _ (λ _. nothing-IsAdmitted streams)
        (λ _.
          with_decoded-IsAdmitted streams books (json.object body) _ (route-IsAdmitted books body))

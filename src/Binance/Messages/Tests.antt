-- ===== src/Binance/Messages/Tests.antt =====
-- Messages of pkg/binance at concrete inputs, and the witness of the theorem about them.
use go_exchange_connector.Prelude.{Text, codes, eqb, List, [], ◌∷◌, ◌≡◌, refl, none, some}
use go_exchange_connector.Prelude.Int.{pos}
use go_exchange_connector.Prelude.Trim.{
  is_space, trim_space, trim_left, trim_right, to_lower, lower_char,
}
use go_exchange_connector.Binance.Levels.{parse_levels, apply_levels}
use go_exchange_connector.Binance.Book.{Book}
use go_exchange_connector.Binance.Streams.{has_prefix, is_partial_depth_stream, normalize_symbol}
use go_exchange_connector.Binance.Messages.{
  Json, Depth, dispatched, depth_event, partial_subscribed, on_depth, handle_partial_depth,
  process_message, binance_event_time,
}
use go_exchange_connector.Binance.Messages.Admitted.{IsAdmitted, process_message-IsAdmitted}

-- One more bid at 100, in a diff of the book.
abbrev diff_frame : Depth
diff_frame = record {
  event_time = pos 0;
  symbol = codes "BTCUSDT";
  update = record {
    first_update_id = pos 8;
    final_update_id = pos 9;
    bids = (codes "100" ∷ codes "2" ∷ []) ∷ [];
    asks = [];
  };
}

abbrev message : Text
message = codes "{depthUpdate}"

-- A decoder that knows the one message.
abbrev json : Json
json = record {
  object = λ body. some ((codes "e", codes "'depthUpdate'") ∷ []);
  string_of = λ raw. some (codes "depthUpdate");
  book_ticker = λ body. none;
  agg_trade = λ body. none;
  kline = λ body. none;
  depth = λ body. some diff_frame;
}

abbrev both_depths : List Text
both_depths = codes "btcusdt@depth@100ms" ∷ codes "btcusdt@depth20@100ms" ∷ []

process_message-IsAdmitted_example :
    IsAdmitted both_depths
      (process_message json (codes "spot") both_depths (pos 1) (λ i. pos 0) [] message).1
process_message-IsAdmitted_example =
    process_message-IsAdmitted json (codes "spot") both_depths (pos 1) (λ i. pos 0) [] message

-- With both depth streams of a symbol subscribed, a diff is dispatched as if it were the whole book.
diff_taken_for_book :
    (books : List (Text × Book))
    → on_depth json (codes "spot") both_depths (pos 1) (λ i. pos 7) books diff_frame ≡ (
      books,
      dispatched (
          depth_event
            (codes "spot")
            (pos 1)
            (pos 7)
            (pos 7)
            (codes "BTCUSDT")
            (pos 9)
            (apply_levels (parse_levels diff_frame.update.bids) [])
            (apply_levels (parse_levels []) [])),
    )
unfolding on_depth handle_partial_depth partial_subscribed has_prefix is_partial_depth_stream
    normalize_symbol trim_space trim_left trim_right to_lower lower_char is_space binance_event_time
    eqb
diff_taken_for_book books = refl

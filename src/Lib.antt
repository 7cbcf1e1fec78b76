-- ===== src/Lib.antt =====
-- Verification of the Go module go-exchange-connector: a connector for trading venues. A base
-- connector routes orders (to a paper simulation or to a live executor) and hands market events to
-- one callback; one WebSocket base keeps a connection alive; and a manager for each venue keeps a
-- registry of what the caller has subscribed to, tells the venue over that connection, and tells it
-- again after every reconnect.
--
-- The parts, the files that model them, and the code that each stands for:
--
--   Connector            connector.go, types.go: Connector, PlaceLimitOrders, PlaceMarketOrder,
--                        CancelOrders, with a result for each order; Connector.Paper is about the
--                        paper mode and Connector.Mock is mock.go.
--   Connector.Dispatch   connector.go: DispatchEvent, EnableAsyncDispatch and its goroutine, Stop,
--                        NextSeqID; Fifo runs them in any interleaving. Numbered: what the handlers
--                        of several venues share when they number and dispatch their events.
--   Websocket.Options    pkg/websocket/types.go and the start of Connect in websocket.go.
--   Websocket.Backoff    pkg/websocket/websocket.go: nextBackoff, nextDelayAfterDrop.
--   Websocket.Base       pkg/websocket/websocket.go: Connect, Close, Disconnect, dialSync, the end of
--                        readLoop (its report and its cleanup apart), the rounds of reconnLoop, the
--                        ping loop and the watchdog, as steps on the fields of BaseWebSocket. Delay,
--                        Delay.Storm and Shutdown are about runs of these steps.
--   Binance.Levels       pkg/binance/types.go and binance.go: parseBinanceLevels, applyLevels,
--                        levelMap.
--   Binance.Book         pkg/binance/binance.go: handleDepth, snapshotDepthBook, resetDepthBooks;
--                        Meaning says what levels on the wire mean, and Tracks compares the book
--                        with the venue's.
--   Binance.Streams      pkg/binance/types.go and binance.go: streamClassOf, streamFor and the other names
--                        of streams, buildStreams, buildKlineStreams; Names is about them.
--   Binance.Streams.Conns, Binance.Streams.Calls
--                        pkg/binance/binance.go: groupStreams, addStreams, removeStreams, send,
--                        writeSubscribe; the Subscribe and Unsubscribe methods, onConnect. Registered,
--                        Loops, Depth, Wire, Machine and Served are about them.
--   Binance.Messages     pkg/binance/binance.go: processMessage and its handlers, with the structures of
--                        their events in events.go; Admitted is about them.
--   Hyperliquid.Channels, Hyperliquid.Subscription
--                        pkg/hyperliquid/channels.go: coins, parameters, Subscription.Key,
--                        BuildSubscriptions; Key and Subscription.Build are about them.
--   Hyperliquid.Registry pkg/hyperliquid/hyperliquid.go: addSubs, removeSubs, Subscribe, Unsubscribe,
--                        onConnect; Keyed and Venue are about them.
--   Hyperliquid.Payloads pkg/hyperliquid/types.go: payloads, Num, CoinContext, FundingRate, AssetID;
--                        Universe is about the lookups.
--   Hyperliquid.Frames   pkg/hyperliquid/hyperliquid.go: processFrame and its handlers, with the events
--                        of events.go; Admitted is about them. Frames.Queue: onMessage, drainEvents,
--                        eventDispatcher; Silent is about runs of them.
--   Polymarket.Market    pkg/polymarket/market.go: Subscribe, Unsubscribe, flushPending, writeOp,
--                        onConnect, onDisconnect, Stop; Wanted, Wire, Retry, Trace and Trace.Sync
--                        are about them.
--   Polymarket.Market.Payloads, Polymarket.Market.Latency, Polymarket.Market.Events
--                        pkg/polymarket/types.go: the messages; market.go: latencyTracker, of which
--                        Ring is about record and report; processMessage with its handlers and
--                        eventDispatcher, with the events of events.go, which Owned and Timed are
--                        about.
--   Polymarket.Series    pkg/polymarket/series.go: ListSeriesEvents and its pages; Series.Cache: the
--                        series cache and GetSeries.
--   Polymarket.Rtds      pkg/polymarket/rtds.go: topics, addSymbols, removeSymbols, the subscribe and
--                        unsubscribe methods; Rtds.Keys: subsKey, splitSubsKey; Rtds.Resend: the TWAP
--                        topic, allEntries, onConnect. Symbols, Served, Resend.Names, Resend.Streams
--                        and Lives are about them.
--   Polymarket.User      pkg/polymarket/user.go: SubscribeMarkets, UnsubscribeMarkets,
--                        flushMarketSubscriptions, onConnect; User.Events: onMessage, handleOrder and
--                        handleTrade. Filter and its children are about the first.
--   Polymarket.Clob      pkg/polymarket/connector.go: buildSendOrder, buildMarketSendOrder; Clob.Api:
--                        the requests of pkg/polymarket/clob.go. Amounts, Market and Salt are about
--                        them.
--   Polymarket.Executor  pkg/polymarket/connector.go: PlaceLimitOrders, PlaceMarketOrder and CancelOrders
--                        of the live executor; Placed and Accounted are about them.
--   Polymarket.Gamma     pkg/polymarket/gamma.go: fetching and normalising a market, and GetMarket and
--                        GetResolution of connector.go; Markets is about them.
--   Polymarket.CryptoPrice
--                        pkg/polymarket/crypto_price.go and GetCryptoPrice of connector.go; Window is
--                        about them.
--   Polymarket.Chain     pkg/polymarket/ctf.go: the client and its three transactions; Ops and Mined are
--                        about them.
--   Polymarket.Relayer   pkg/polymarket/relayer.go: the payload, the submission, the poll and the
--                        operations; Polls, Found and Sent are about them.
--   Polymarket.Positions pkg/polymarket/connector.go: SplitPosition, MergePositions, RedeemPositions;
--                        Reported is about them.
--   Prelude              numbers, texts, sets and maps that the parts share; Prelude.Clock: times, and
--                        internal/utils/parser.go.
--
-- How the code is rendered. A method is a function from the fields that it reads to the fields that
-- it leaves, with the frames that it writes and the hooks that it calls as lists. What the network
-- does (whether a dial, a write or a pong succeeds) is an argument, so a theorem about all arguments
-- is about every network. An interleaving of goroutines is a list of steps, each of which is atomic
-- in the model; where the code takes its lock several times in one step, as in dialSync, what others
-- could do in between is not modelled. A Go map is a list of its entries, of which only membership and lookup are used; where
-- the code iterates over a map in no order, the theorems are about membership. Texts are lists of
-- character codes. An int64 and a time.Duration are integers with their wrap-around written out: the
-- doubling of a delay is exact below 2^62 nanoseconds, which is the bound that the theorems on
-- delays name. A float64 is its bit pattern, since the code that is modelled only copies it. Every
-- loop is structural recursion over the list that it goes through, save the loop over the pages of
-- ListSeriesEvents, which runs on fuel, one unit for each page, of which its theorem names how much
-- is enough, and the printing of a number, whose fuel is one more than the number.
--
-- The services of the live Polymarket connector (HTTP, JSON, signing, the contracts, the clock) are
-- parameters, whose answers may depend on the number of the request and are otherwise arbitrary. The
-- cancellation of batches runs on fuel, one unit for each identifier, which is enough since a batch is
-- not empty; the poll of the relayer has 61 rounds, which are enough if each sleeps two seconds; both
-- are proved. A size in dollars or a price reaches the model as the number of millionths that the code
-- computes from the float64; the conversion itself is a parameter.
--
-- Not modelled: JSON and HTTP themselves, the wall clock and the logs; hashing, signing and the
-- authentication headers' HMAC (pkg/polymarket/signing.go, auth.go), which call libraries; the methods
-- of the Polymarket connector that start, stop and route to its channels; the queue between a Binance
-- connection and its handlers, and the order of the levels in a depth event; the REST calls of
-- Hyperliquid; the bounded queue of the Polymarket market channel, of whose dispatching workers the
-- model runs one; the handlers of the RTDS channel; the commands under cmd, which probe live services.
pub mod Prelude
pub mod Connector
pub mod Websocket
pub mod Binance
pub mod Hyperliquid
pub mod Polymarket

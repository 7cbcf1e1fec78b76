-- ===== src/Binance/Streams/Calls/Wire.antt =====
-- What the frames of pkg/binance's Subscribe and Unsubscribe make a connection stream.
use go_exchange_connector.Prelude.{
  Text, Bool, true, List, [], ◌∷◌, ◌++◌, ◌≡◌, refl, ◌∙◌, ap, sym, subst, arith, if◌then◌else◌,
  Bool-cases, inl, inr,
}
use go_exchange_connector.Prelude.Sets.{has}
use go_exchange_connector.Binance.Streams.{MarketType, StreamClass}
use go_exchange_connector.Binance.Streams.Conns.{
  Conn, Conns, Method, method_subscribe, method_unsubscribe, SubRequest, Link, conn_at, request_of,
  same_class, conn_for, group_streams, add_loop, remove_loop, add_streams, remove_streams,
  write_subscribe, send, add_and_send, remove_and_send,
}
use go_exchange_connector.Binance.Streams.Calls.{
  Sent, Links, tagged, change, change_group, change_groups, subscribe, unsubscribe,
}
use go_exchange_connector.Binance.Streams.Calls.Loops.{added-add_loop, removed-remove_loop}
use go_exchange_connector.Binance.Streams.Calls.Registered.{
  after, has-send, after_none, conn_at-put_conn, eq_of_same_class,
}

-- Does the venue send a stream on a connection after the frames?
abbrev pub serves : List SubRequest → Text → Bool → Bool
serves [] j b = b
serves (f ∷ fs) j b = serves fs j (after f.method (has j f.params) b)

-- A connection that takes its frames.
abbrev pub IsLive : Link → Type 0
IsLive link = (link.connected ≡ true) × ((f : SubRequest) → link.accepts f ≡ true)

serves-send :
    (link : Link) (method : Method) (ss : List Text) (c : Conn) (j : Text) (b : Bool)
    → IsLive link
    → serves (send link method ss c).1 j b ≡ after method (has j ss) b
unfolding send write_subscribe has
serves-send link method [] c j b live = sym (after_none method b)
serves-send link method (s ∷ ss) c j b live =
    rw (live.0, live.1 (request_of method (s ∷ ss) c)) refl

serves-change :
    (method : Method) (link : Link) (group : List Text) (c : Conn) (j : Text)
    → IsLive link
    → serves (change method link group c).1 j (has j c.streams)
      ≡ has j (change method link group c).0.streams
unfolding add_and_send remove_and_send add_streams remove_streams
serves-change method_subscribe link group c j live =
    let (set, added) = add_loop group c.streams in
    let c' : Conn = record c { streams = set } in
    serves-send link method_subscribe added c' j (has j c.streams) live
    ∙ added-add_loop j group c.streams
    ∙ ap (has j) (sym (has-send link method_subscribe added c'))
serves-change method_unsubscribe link group c j live =
    let (set, removed) = remove_loop group c.streams in
    let c' : Conn = record c { streams = set } in
    serves-send link method_unsubscribe removed c' j (has j c.streams) live
    ∙ removed-remove_loop j group c.streams
    ∙ ap (has j) (sym (has-send link method_unsubscribe removed c'))

-- The frames of one connection.
abbrev pub frames_on : StreamClass → Sent → List SubRequest
frames_on c [] = []
frames_on c ((class, f) ∷ sent) =
    let rest = frames_on c sent in if same_class c class then f ∷ rest else rest

serves-append :
    (c : StreamClass) (sent later : Sent) (j : Text) (b : Bool)
    → serves (frames_on c (sent ++ later)) j b
      ≡ serves (frames_on c later) j (serves (frames_on c sent) j b)
serves-append c [] later j b = refl
serves-append c ((class, f) ∷ sent) later j b = elim (Bool-cases (same_class c class)) [
  | inl same ↦ rw same (serves-append c sent later j (after f.method (has j f.params) b))
  | inr other ↦ rw other (serves-append c sent later j b)
]

frames_on-tagged :
    (c class : StreamClass) (fs : List SubRequest)
    → frames_on c (tagged class fs) ≡ (if same_class c class then fs else [])
frames_on-tagged c class [] = ground arith
frames_on-tagged c class (f ∷ fs) = ground (arith, frames_on-tagged c class fs)

pub serves-change_group :
    (method : Method) (links : Links) (mkt : MarketType) (class c : StreamClass) (group : List Text)
    (b : Conns) (j : Text)
    → IsLive (links c)
    → serves
        (frames_on c (change_group method links mkt class group b).1)
        j
        (has j (conn_at c b).streams)
      ≡ has j (conn_at c (change_group method links mkt class group b).0).streams
unfolding change_group
serves-change_group method links mkt class c group b j live =
    let made = change method (links class) group (conn_at class b) in
    elim (Bool-cases (conn_for mkt class)) [
      | inr missing ↦ rw missing refl
      | inl kept ↦ elim (Bool-cases (same_class c class)) [
        | inr other ↦
            rw (kept, conn_at-put_conn c class made.0 b, frames_on-tagged c class made.1, other)
              refl
        | inl same ↦
            let one = eq_of_same_class c class same in
            rw (kept, conn_at-put_conn c class made.0 b, frames_on-tagged c class made.1, same, one)
              (serves-change method (links class) group (conn_at class b) j
                (subst (λ (x : StreamClass). IsLive (links x)) one live))
      ]
    ]

serves-change_groups :
    (method : Method) (links : Links) (mkt : MarketType) (groups : List (StreamClass × List Text))
    (c : StreamClass) (b : Conns) (j : Text)
    → IsLive (links c)
    → serves
        (frames_on c (change_groups method links mkt groups b).1)
        j
        (has j (conn_at c b).streams)
      ≡ has j (conn_at c (change_groups method links mkt groups b).0).streams
unfolding change_groups
serves-change_groups method links mkt [] c b j live = refl
serves-change_groups method links mkt ((class, group) ∷ groups) c b j live =
    let (b', sent) = change_group method links mkt class group b in
    let later = (change_groups method links mkt groups b').1 in
    serves-append c sent later j (has j (conn_at c b).streams)
    ∙ ap (serves (frames_on c later) j)
        (serves-change_group method links mkt class c group b j live)
    ∙ serves-change_groups method links mkt groups c b' j live

-- On a connection that takes its frames, a call makes the venue stream what is registered.
pub serves-subscribe :
    (links : Links) (mkt : MarketType) (streams : List Text) (c : StreamClass) (b : Conns)
    (j : Text)
    → IsLive (links c)
    → serves (frames_on c (subscribe links mkt streams b).1) j (has j (conn_at c b).streams)
      ≡ has j (conn_at c (subscribe links mkt streams b).0).streams
unfolding subscribe
serves-subscribe links mkt streams =
    serves-change_groups method_subscribe links mkt (group_streams mkt streams)

pub serves-unsubscribe :
    (links : Links) (mkt : MarketType) (streams : List Text) (c : StreamClass) (b : Conns)
    (j : Text)
    → IsLive (links c)
    → serves (frames_on c (unsubscribe links mkt streams b).1) j (has j (conn_at c b).streams)
      ≡ has j (conn_at c (unsubscribe links mkt streams b).0).streams
unfolding unsubscribe
serves-unsubscribe links mkt streams =
    serves-change_groups method_unsubscribe links mkt (group_streams mkt streams)

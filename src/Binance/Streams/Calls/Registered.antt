-- ===== src/Binance/Streams/Calls/Registered.antt =====
-- What the registries of pkg/binance hold after Subscribe and Unsubscribe.
use go_exchange_connector.Prelude.{
  Text, eqb, eqb_iff, is_empty, Bool, true, false, not, ◌&&◌, ◌||◌, List, [], ◌∷◌, ◌≡◌, refl, ◌∙◌,
  ap, sym, arith, if◌then◌else◌, Bool-cases, inl, inr,
}
use go_exchange_connector.Prelude.Sets.{has, has-append}
use go_exchange_connector.Binance.Streams.{
  MarketType, StreamClass, class_spot, class_market, class_public, stream_class_of,
}
use go_exchange_connector.Binance.Streams.Conns.{
  Conn, Conns, Method, method_subscribe, method_unsubscribe, Link, conn_at, put_conn, same_class,
  conn_for, group_append, group_loop, group_streams, add_loop, remove_loop, add_streams,
  remove_streams, write_subscribe, send, add_and_send, remove_and_send,
}
use go_exchange_connector.Binance.Streams.Calls.{
  Links, change, change_group, change_groups, subscribe, unsubscribe,
}
use go_exchange_connector.Binance.Streams.Calls.Loops.{has-add_loop, has-remove_loop}

-- Is a stream wanted after a call that names it or not, if `b` says whether it was before?
abbrev pub after : Method → Bool → Bool → Bool
after method_subscribe named b = named || b
after method_unsubscribe named b = not named && b

-- The class of a connection in one.
pub conn_at-put_conn :
    (c class : StreamClass) (x : Conn) (b : Conns)
    → conn_at c (put_conn class x b) ≡ (if same_class c class then x else conn_at c b)
conn_at-put_conn class_spot class_spot x b = refl
conn_at-put_conn class_spot class_market x b = refl
conn_at-put_conn class_spot class_public x b = refl
conn_at-put_conn class_market class_spot x b = refl
conn_at-put_conn class_market class_market x b = refl
conn_at-put_conn class_market class_public x b = refl
conn_at-put_conn class_public class_spot x b = refl
conn_at-put_conn class_public class_market x b = refl
conn_at-put_conn class_public class_public x b = refl

-- A name counts if it is not empty.
abbrev pub names : Text → List Text → Bool
names j ss = not (is_empty j) && has j ss

pub has-send :
    (link : Link) (method : Method) (ss : List Text) (c : Conn)
    → (send link method ss c).0.streams ≡ c.streams
unfolding send write_subscribe
has-send link method [] c = refl
has-send link method (s ∷ ss) c = elim (Bool-cases link.connected) [
  | inl up ↦ rw up refl
  | inr down ↦ rw down refl
]

-- What a call on one connection does to its registry.
has-change :
    (method : Method) (link : Link) (j : Text) (group : List Text) (c : Conn)
    → is_empty j ≡ false
    → has j (change method link group c).0.streams ≡ after method (has j group) (has j c.streams)
unfolding add_and_send remove_and_send add_streams remove_streams
has-change method_subscribe link j group c solid =
    let (set, added) = add_loop group c.streams in
    ground (
      arith,
      has-send link method_subscribe added (record c { streams = set }),
      has-add_loop j group c.streams,
      solid,
    )
has-change method_unsubscribe link j group c solid =
    let (set, removed) = remove_loop group c.streams in
    ground (
      arith,
      has-send link method_unsubscribe removed (record c { streams = set }),
      has-remove_loop j group c.streams,
      solid,
    )

pub eq_of_same_class : (c class : StreamClass) → same_class c class ≡ true → c ≡ class
eq_of_same_class class_spot class_spot h = refl
eq_of_same_class class_market class_market h = refl
eq_of_same_class class_public class_public h = refl
eq_of_same_class class_spot class_market h = cc
eq_of_same_class class_spot class_public h = cc
eq_of_same_class class_market class_spot h = cc
eq_of_same_class class_market class_public h = cc
eq_of_same_class class_public class_spot h = cc
eq_of_same_class class_public class_market h = cc

-- Does a group of a class hold a stream?
abbrev asked : StreamClass → Text → List (StreamClass × List Text) → Bool
asked c j [] = false
asked c j ((class, group) ∷ groups) = (same_class c class && has j group) || asked c j groups

asked-group_append :
    (c class : StreamClass) (j s : Text) (groups : List (StreamClass × List Text))
    → asked c j (group_append class s groups) ≡ (same_class c class && eqb j s || asked c j groups)
unfolding group_append has
asked-group_append c class j s [] = ground arith
asked-group_append c class j s ((other, group) ∷ groups) = ground (
  arith,
  asked-group_append c class j s groups,
  has-append j group (s ∷ []),
  eq_of_same_class class other,
)

asked-group_loop :
    (c : StreamClass) (mkt : MarketType) (j : Text) (ss : List Text)
    (groups : List (StreamClass × List Text))
    → asked c j (group_loop mkt ss groups)
      ≡ (same_class c (stream_class_of mkt j) && has j ss || asked c j groups)
unfolding group_loop has
asked-group_loop c mkt j [] groups = ground arith
asked-group_loop c mkt j (s ∷ ss) groups =
    let class = stream_class_of mkt s in
    elim (Bool-cases (eqb j s)) [
      | inl same ↦
          let one : stream_class_of mkt j ≡ class =
            ap (stream_class_of mkt) ((eqb_iff j s).0 same) in
          ground (
            arith,
            one,
            asked-group_loop c mkt j ss (group_append class s groups),
            asked-group_append c class j s groups,
          )
      | inr other ↦ ground (
        arith,
        asked-group_loop c mkt j ss (group_append class s groups),
        asked-group_append c class j s groups,
      )
    ]

pub after_none : (method : Method) (b : Bool) → after method false b ≡ b
after_none method_subscribe b = refl
after_none method_unsubscribe b = refl

pub after_unnamed : (method : Method) (x b : Bool) → after method (x && false) b ≡ b
after_unnamed method_subscribe x b = ground arith
after_unnamed method_unsubscribe x b = ground arith

pub has-change_group :
    (method : Method) (links : Links) (mkt : MarketType) (class c : StreamClass) (group : List Text)
    (b : Conns) (j : Text)
    → is_empty j ≡ false
    → has j (conn_at c (change_group method links mkt class group b).0).streams
      ≡ after method
          (conn_for mkt c && (same_class c class && has j group))
          (has j (conn_at c b).streams)
unfolding change_group
has-change_group method links mkt class c group b j solid =
    let made = change method (links class) group (conn_at class b) in
    let put = conn_at-put_conn c class made.0 b in
    let old = has j (conn_at c b).streams in
    elim (Bool-cases (same_class c class)) [
      | inl same ↦
          let one : c ≡ class = eq_of_same_class c class same in
          elim (Bool-cases (conn_for mkt class)) [
            | inl kept ↦
                rw (kept, put, same, one, kept)
                  (has-change method (links class) j group (conn_at class b) solid)
            | inr missing ↦
                rw (missing, one, missing)
                  (sym (after_none method (has j (conn_at class b).streams)))
          ]
      | inr other ↦ elim (Bool-cases (conn_for mkt class)) [
        | inl kept ↦
            rw (kept, put, other)
              (sym (after_unnamed method (conn_for mkt c) (has j (conn_at c b).streams)))
        | inr missing ↦
            rw (missing, other)
              (sym (after_unnamed method (conn_for mkt c) (has j (conn_at c b).streams)))
      ]
    ]

after_again :
    (method : Method) (x y b : Bool) → after method y (after method x b) ≡ after method (x || y) b
after_again method_subscribe x y b = ground arith
after_again method_unsubscribe x y b = ground arith

has-change_groups :
    (method : Method) (links : Links) (mkt : MarketType) (groups : List (StreamClass × List Text))
    (c : StreamClass) (b : Conns) (j : Text)
    → is_empty j ≡ false
    → has j (conn_at c (change_groups method links mkt groups b).0).streams
      ≡ after method (conn_for mkt c && asked c j groups) (has j (conn_at c b).streams)
unfolding change_groups
has-change_groups method_subscribe links mkt [] c b j solid = ground arith
has-change_groups method_unsubscribe links mkt [] c b j solid = ground arith
has-change_groups method links mkt ((class, group) ∷ groups) c b j solid =
    let b' = (change_group method links mkt class group b).0 in
    has-change_groups method links mkt groups c b' j solid
    ∙ ap (after method (conn_for mkt c && asked c j groups))
        (has-change_group method links mkt class c group b j solid)
    ∙ after_again method (conn_for mkt c && (same_class c class && has j group))
        (conn_for mkt c && asked c j groups) (has j (conn_at c b).streams)
    ∙ ap (λ (named : Bool). after method named (has j (conn_at c b).streams)) (ground arith)

-- The registry of a connection after Subscribe: a stream is added exactly if the call names it and
-- the connection is the one of the market that carries it.
pub has-subscribe :
    (links : Links) (mkt : MarketType) (streams : List Text) (c : StreamClass) (b : Conns)
    (j : Text)
    → is_empty j ≡ false
    → has j (conn_at c (subscribe links mkt streams b).0).streams
      ≡ after method_subscribe
          (conn_for mkt c && (same_class c (stream_class_of mkt j) && has j streams))
          (has j (conn_at c b).streams)
unfolding subscribe group_streams
has-subscribe links mkt streams c b j solid = ground (
  arith,
  has-change_groups method_subscribe links mkt (group_streams mkt streams) c b j solid,
  asked-group_loop c mkt j streams [],
)

pub has-unsubscribe :
    (links : Links) (mkt : MarketType) (streams : List Text) (c : StreamClass) (b : Conns)
    (j : Text)
    → is_empty j ≡ false
    → has j (conn_at c (unsubscribe links mkt streams b).0).streams
      ≡ after method_unsubscribe
          (conn_for mkt c && (same_class c (stream_class_of mkt j) && has j streams))
          (has j (conn_at c b).streams)
unfolding unsubscribe group_streams
has-unsubscribe links mkt streams c b j solid = ground (
  arith,
  has-change_groups method_unsubscribe links mkt (group_streams mkt streams) c b j solid,
  asked-group_loop c mkt j streams [],
)

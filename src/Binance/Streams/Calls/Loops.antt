-- ===== src/Binance/Streams/Calls/Loops.antt =====
-- What the loops of pkg/binance's addStreams and removeStreams keep and report.
use go_exchange_connector.Prelude.{
  Text, eqb_iff, is_empty, not, ◌&&◌, ◌||◌, List, [], ◌∷◌, ◌≡◌, refl, arith,
}
use go_exchange_connector.Prelude.Sets.{has, insert, delete, has-insert, has-delete, has_congr}
use go_exchange_connector.Binance.Streams.Conns.{add_loop, remove_loop}

pub has-add_loop :
    (j : Text) (ss set : List Text)
    → has j (add_loop ss set).0 ≡ (not (is_empty j) && has j ss || has j set)
unfolding add_loop has
has-add_loop j [] set = ground arith
has-add_loop j (s ∷ ss) set = ground (
  arith,
  has-add_loop j ss set,
  has-add_loop j ss (insert s set),
  has-insert j s set,
  has_congr j s set,
  eqb_iff j s,
)

pub added-add_loop :
    (j : Text) (ss set : List Text)
    → (has j (add_loop ss set).1 || has j set) ≡ has j (add_loop ss set).0
unfolding add_loop has
added-add_loop j [] set = refl
added-add_loop j (s ∷ ss) set =
    ground (arith, added-add_loop j ss set, added-add_loop j ss (insert s set), has-insert j s set)

pub has-remove_loop :
    (j : Text) (ss set : List Text) → has j (remove_loop ss set).0 ≡ (not (has j ss) && has j set)
unfolding remove_loop has
has-remove_loop j [] set = refl
has-remove_loop j (s ∷ ss) set = ground (
  arith,
  has-remove_loop j ss set,
  has-remove_loop j ss (delete s set),
  has-delete j s set,
  has_congr j s set,
)

pub removed-remove_loop :
    (j : Text) (ss set : List Text)
    → (not (has j (remove_loop ss set).1) && has j set) ≡ has j (remove_loop ss set).0
unfolding remove_loop has
removed-remove_loop j [] set = refl
removed-remove_loop j (s ∷ ss) set = ground (
  arith,
  removed-remove_loop j ss set,
  removed-remove_loop j ss (delete s set),
  has-delete j s set,
)

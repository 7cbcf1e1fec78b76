-- ===== src/Polymarket/Executor/Accounted.antt =====
-- CancelOrders of the live executor in pkg/polymarket/connector.go: what becomes of each identifier.
use go_exchange_connector.Prelude.{
  ℕ, zero, suc, ◌+◌, ◌≤◌, sym, ap, ◌∙◌, ◌⊎◌, inl, inr, Bool-cases, Text, eqb_iff, Bool, true, false,
  ◌||◌, List, [], ◌∷◌, none, some, ◌≡◌, refl, arith, length, take, drop, is_some,
}
use go_exchange_connector.Prelude.Sets.{has, has-append}
use go_exchange_connector.Prelude.Dict.{lookup, put, lookup-put}
use go_exchange_connector.Connector.{CancelOrdersResult}
use go_exchange_connector.Polymarket.Clob.{ClobClient}
use go_exchange_connector.Polymarket.Clob.Api.{Outcome, ok, err, CancelOrdersResponse, cancel_batch}
use go_exchange_connector.Polymarket.Executor.{
  Executor, World, mark_all, copy_all, add_batch, batch_size, nothing_canceled, cancel_loop,
  cancel_orders,
}

-- An identifier that is reported in one way or the other.
unfoldable pub accounted : Text → List Text → List (Text × Text) → Bool
accounted id canceled not_canceled = has id canceled || is_some (lookup id not_canceled)

has-take-drop :
    (id : Text) (k : ℕ) (l : List Text) → has id l ≡ (has id (take k l) || has id (drop k l))
unfolding has
has-take-drop id zero l = refl
has-take-drop id (suc k) [] = refl
has-take-drop id (suc k) (x ∷ l) = ground (arith, has-take-drop id k l)

length-drop-le : (k : ℕ) (l : List Text) → length (drop k l) ≤ length l
length-drop-le zero l = omega arith
length-drop-le (suc k) [] = omega arith
length-drop-le (suc k) (x ∷ l) = omega (arith, length-drop-le k l)

lookup-mark_all :
    (id : Text) (ids : List Text) (reason : Text) (m : List (Text × Text))
    → is_some (lookup id (mark_all ids reason m)) ≡ (has id ids || is_some (lookup id m))
unfolding mark_all has
lookup-mark_all id [] reason m = refl
lookup-mark_all id (i ∷ ids) reason m = ground (
  arith,
  lookup-mark_all id ids reason (put i reason m),
  lookup-put id i reason m,
  eqb_iff id i,
  eqb_iff i id,
)

lookup-copy_all :
    (id : Text) (new m : List (Text × Text))
    → is_some (lookup id (copy_all new m)) ≡ (is_some (lookup id new) || is_some (lookup id m))
unfolding copy_all lookup
lookup-copy_all id [] m = refl
lookup-copy_all id ((i, reason) ∷ new) m =
    ground (arith, lookup-copy_all id new (put i reason m), lookup-put id i reason m, eqb_iff id i)

in_result : Text → CancelOrdersResult → Bool
in_result id r = accounted id r.canceled r.not_canceled

-- A batch takes no report back.
in_result-add_batch :
    (id : Text) (batch : List Text) (reply : Outcome CancelOrdersResponse) (r : CancelOrdersResult)
    → in_result id r ≡ true
    → in_result id (add_batch batch reply r) ≡ true
unfolding in_result accounted add_batch
in_result-add_batch id batch (err m) r h =
    ground (arith, h, lookup-mark_all id batch m r.not_canceled)
in_result-add_batch id batch (ok a) r h = ground (
  arith,
  h,
  lookup-copy_all id a.not_canceled r.not_canceled,
  has-append id r.canceled a.canceled,
)

-- A batch reports each of its identifiers, unless it was answered and the answer leaves one out.
in_result_of_batch :
    (id : Text) (batch : List Text) (r : CancelOrdersResult) (reply : Outcome CancelOrdersResponse)
    → has id batch ≡ true
    → (in_result id (add_batch batch reply r) ≡ true)
      ⊎ ((a : CancelOrdersResponse) × (reply ≡ ok a)
          × (accounted id a.canceled a.not_canceled ≡ false))
unfolding in_result accounted add_batch
in_result_of_batch id batch r (err m) h =
    inl (ground (arith, h, lookup-mark_all id batch m r.not_canceled))
in_result_of_batch id batch r (ok a) h =
    elim (Bool-cases (has id a.canceled || is_some (lookup id a.not_canceled))) [
      | inr left_out ↦ inr (a, refl, left_out)
      | inl reported ↦ inl (
          ground (
            arith,
            reported,
            lookup-copy_all id a.not_canceled r.not_canceled,
            has-append id r.canceled a.canceled,
          ))
    ]

-- What is asked for, or reported, before a batch is asked for after it, or reported, or left out.
in_result_step :
    (id : Text) (ids batch rest : List Text) (r : CancelOrdersResult)
    (reply : Outcome CancelOrdersResponse)
    → has id ids ≡ (has id batch || has id rest)
    → (has id ids || in_result id r) ≡ true
    → ((has id rest || in_result id (add_batch batch reply r)) ≡ true)
      ⊎ ((a : CancelOrdersResponse) × (reply ≡ ok a)
          × (has id batch ≡ true)
          × (accounted id a.canceled a.not_canceled ≡ false))
in_result_step id ids batch rest r reply split h = elim (Bool-cases (has id batch)) [
  | inr other ↦ inl (ground (arith, other, split, h, in_result-add_batch id batch reply r))
  | inl own ↦ elim (in_result_of_batch id batch r reply own) [
    | inl reported ↦ inl (ground (arith, reported))
    | inr (a, answered, left_out) ↦ inr (a, answered, own, left_out)
  ]
]

drop_nil : (n : ℕ) → drop {A = Text} n [] ≡ []
drop_nil zero = refl
drop_nil (suc n) = refl

drop-drop : (k j : ℕ) (l : List Text) → drop k (drop j l) ≡ drop (j + k) l
drop-drop k zero l = let same : k ≡ 0 + k = omega arith in ap (λ (n : ℕ). drop n l) same
drop-drop k (suc j) [] = drop_nil k ∙ sym (drop_nil (suc j + k))
drop-drop k (suc j) (x ∷ l) =
    drop-drop k j l
    ∙ (let more : suc (j + k) ≡ suc j + k = omega arith in ap (λ (n : ℕ). drop n (x ∷ l)) more)

module _ (w : World) (clob : ClobClient) (all : List Text) where
  -- The answer to a batch, the thousand identifiers at most from some index on, leaves one out.
  abbrev pub LeftOut : Text → Type 0
  LeftOut id =
      (k j : ℕ) × (a : CancelOrdersResponse) × ((cancel_batch w.services clob k
          (take batch_size (drop j all))).1
        ≡ ok a)
      × (has id (take batch_size (drop j all)) ≡ true)
      × (accounted id a.canceled a.not_canceled ≡ false)

  cancel_loop-accounted :
      (fuel n j : ℕ) (ids : List Text) (r : CancelOrdersResult) (id : Text)
      → length ids ≤ fuel
      → drop j all ≡ ids
      → (has id ids || in_result id r) ≡ true
      → (in_result id (cancel_loop w clob fuel n ids r).1 ≡ true) ⊎ LeftOut id
  unfolding cancel_loop has
  cancel_loop-accounted fuel n j [] r id enough at h = inl h
  cancel_loop-accounted zero n j (i ∷ is) r id enough at h = absurd (omega arith)
  cancel_loop-accounted (suc fuel) n j (i ∷ is) r id enough at h =
      let batch = take batch_size (i ∷ is) in
      let rest = drop batch_size (i ∷ is) in
      let (n', reply) = cancel_batch w.services clob n batch in
      elim (in_result_step id (i ∷ is) batch rest r reply (has-take-drop id batch_size (i ∷ is))
        h) [
          | inl later ↦
              cancel_loop-accounted fuel n' (j + batch_size) rest (add_batch batch reply r) id
                (omega (arith, length-drop-le 999 is, enough))
                (sym (drop-drop batch_size j all) ∙ ap (drop batch_size) at) later
          | inr (a, answered, own, left_out) ↦
              let same = ap (take batch_size) at in
              inr (
                n,
                j,
                a,
                ap (λ (b : List Text). (cancel_batch w.services clob n b).1) same ∙ answered,
                ap (has id) same ∙ own,
                left_out,
              )
        ]

  -- With a client, CancelOrders returns no error, and it reports each identifier that it was given
  -- as cancelled or as not cancelled, however many batches these fill and whichever of the requests
  -- fail, with one exception: an identifier that was in a batch whose answer leaves it out.
  pub cancel_orders-accounted :
      (e : Executor) (n : ℕ) (id : Text)
      → e.clob ≡ some clob
      → has id all ≡ true
      → let (result, error) = (cancel_orders w e n all).1 in
        (error ≡ none)
        × ((r : CancelOrdersResult) × (result ≡ some r)
            × ((accounted id r.canceled r.not_canceled ≡ true) ⊎ LeftOut id))
  unfolding cancel_orders in_result
  cancel_orders-accounted e n id has_client h =
      let r = (cancel_loop w clob (length all) n all nothing_canceled).1 in
      (
        ground (arith, has_client),
        (
          r,
          ground (arith, has_client),
          cancel_loop-accounted (length all) n 0 all nothing_canceled id (omega arith) refl
              (ground (arith, h)),
        ),
      )

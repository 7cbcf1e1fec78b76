-- ===== src/Connector/Dispatch/Numbered.antt =====
-- What the handlers of pkg/hyperliquid and pkg/polymarket share: they hand DispatchEvent events that
-- NextSeqID has numbered.
use go_exchange_connector.Prelude.{
  Bool, true, false, List, [], ◌∷◌, ◌++◌, Option, none, some, ◌≡◌, refl, if◌then◌else◌,
}
use go_exchange_connector.Prelude.Int.{ℤ}
use go_exchange_connector.Connector.Dispatch.{next_seq_id}

-- What every event carries: SeqID, ReceivedAt and Timestamp.
pub record Stamp : Type 0 where
  pub seq_id : ℤ
  pub received_at : ℤ
  pub timestamp : ℤ

-- The stamp of the next event.
abbrev pub stamp : ℤ → ℤ → ℤ → Stamp
stamp seq rx timestamp = record {
  seq_id = next_seq_id seq;
  received_at = rx;
  timestamp = timestamp;
}

-- Events, and the counter that NextSeqID leaves.
abbrev pub Dispatched : Type 0 → Type 0
Dispatched Event = List Event × ℤ

-- One event, which takes the next number, if the test holds.
unfoldable pub dispatch_if : {Event : Type 0} → Bool → ℤ → Event → Dispatched Event
unfolding next_seq_id
dispatch_if shown seq ev = if shown then (ev ∷ [], next_seq_id seq) else ([], seq)

-- A handler returns where its payload cannot be decoded.
unfoldable pub with_payload {ℓ} :
    {Event : Type 0} {A : Type ℓ} → Option A → ℤ → (A → Dispatched Event) → Dispatched Event
with_payload none seq handle = ([], seq)
with_payload (some a) seq handle = handle a

-- The number of an event, and what is to hold of each.
module _ {Event : Type 0} (number : Event → ℤ) (IsFit : Event → Type 0) where
  -- The events are fit, and are numbered one by one from a counter to the counter that is left.
  unfoldable pub Numbered : ℤ → Dispatched Event → Type 0
  Numbered seq ([], last) = seq ≡ last
  Numbered seq (e ∷ es, last) =
      IsFit e × (number e ≡ next_seq_id seq) × Numbered (next_seq_id seq) (es, last)

  pub dispatch_if-Numbered :
      (seq : ℤ) (b : Bool) (e : Event)
      → (b ≡ true → IsFit e)
      → number e ≡ next_seq_id seq
      → Numbered seq (dispatch_if b seq e)
  unfolding dispatch_if Numbered
  dispatch_if-Numbered seq true e fit numbered = (fit refl, numbered, refl)
  dispatch_if-Numbered seq false e fit numbered = refl

  pub with_payload-Numbered {ℓ} :
      {A : Type ℓ} (seq : ℤ) (payload : Option A) (handle : A → Dispatched Event)
      → ((a : A) → Numbered seq (handle a))
      → Numbered seq (with_payload payload seq handle)
  unfolding with_payload Numbered
  with_payload-Numbered seq none handle each = refl
  with_payload-Numbered seq (some a) handle each = each a

  pub if_Numbered :
      (seq : ℤ) (b : Bool) (x y : Dispatched Event)
      → Numbered seq x
      → Numbered seq y
      → Numbered seq (if b then x else y)
  if_Numbered seq true x y p q = p
  if_Numbered seq false x y p q = q

  pub append-Numbered :
      (seq mid last : ℤ) (es later : List Event)
      → Numbered seq (es, mid)
      → Numbered mid (later, last)
      → Numbered seq (es ++ later, last)
  unfolding Numbered
  append-Numbered seq mid last [] later h after = rw h after
  append-Numbered seq mid last (e ∷ es) later (fit, numbered, rest) after =
      (fit, numbered, append-Numbered (next_seq_id seq) mid last es later rest after)

-- ===== src/Connector/Dispatch.antt =====
-- The event dispatch of connector.go: DispatchEvent with and without the buffered channel, the
-- goroutine that drains it, Stop, and the sequence counter. An event is a value of any type; what
-- the callback has received is kept as a list, oldest first.
pub mod Fifo
pub mod Numbered
use go_exchange_connector.Prelude.{
  ℕ, Bool, true, false, List, [], ◌∷◌, ◌++◌, Option, none, some, length, ltb, if◌then◌else◌,
}
use go_exchange_connector.Prelude.Int.{ℤ, pos, ◌+ℤ◌, wrap64, leb_ℤ, pos_part}

-- `dispatchCh`: its capacity and what is buffered.
pub record Channel (Event : Type 0) : Type 0 where
  pub capacity : ℕ
  pub buffered : List Event

-- `onDispatch != nil`, `dispatchCh`, and what `onDispatch` was called with.
pub record Dispatcher (Event : Type 0) : Type 0 where
  pub mounted : Bool
  pub channel : Option (Channel Event)
  pub received : List Event

-- `NextSeqID`: the counter is an int64.
unfoldable pub next_seq_id : ℤ → ℤ
next_seq_id s = wrap64 (s +ℤ pos 1)

module _ {Event : Type 0} where
  abbrev call : Event → Dispatcher Event → Dispatcher Event
  call ev d = record d { received = if d.mounted then d.received ++ ev ∷ [] else d.received }

  -- A send that does not block: a full channel drops the event.
  abbrev send : Event → Channel Event → Channel Event
  send ev c = record c {
    buffered = if ltb (length c.buffered) c.capacity then c.buffered ++ ev ∷ [] else c.buffered;
  }

  -- `DispatchEvent`
  pub dispatch_event : Event → Dispatcher Event → Dispatcher Event
  dispatch_event ev d = elim d.channel [
    | some c ↦ record d { channel = some (send ev c) }
    | none ↦ call ev d
  ]

  -- `EnableAsyncDispatch`
  enable_async : ℤ → Dispatcher Event → Dispatcher Event
  enable_async size d = record d {
    channel =
        some
          (record { capacity = if leb_ℤ size (pos 0) then 4096 else pos_part size; buffered = [] });
  }

  -- One round of the goroutine's loop, if there is something to receive.
  pub work : Dispatcher Event → Dispatcher Event
  work d = elim d.channel [
    | none ↦ d
    | some c ↦ elim c.buffered [
      | [] ↦ d
      | ev ∷ rest ↦ call ev (record d { channel = some (record c { buffered = rest }) })
    ]
  ]

  -- The rounds that are left when the channel has been closed.
  pub drain : List Event → Dispatcher Event → Dispatcher Event
  drain [] d = d
  drain (ev ∷ evs) d = drain evs (call ev d)

  -- `Stop`: close the channel, wait for the goroutine to finish what is buffered, forget it.
  pub stop : Dispatcher Event → Dispatcher Event
  unfolding drain
  stop d = elim d.channel [ none ↦ d | some c ↦ record (drain c.buffered d) { channel = none } ]

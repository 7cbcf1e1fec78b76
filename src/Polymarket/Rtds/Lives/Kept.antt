-- ===== src/Polymarket/Rtds/Lives/Kept.antt =====
-- The keys and the symbols of the registry of pkg/polymarket/rtds.go under additions and removals.
use go_exchange_connector.Prelude.{
  ℕ, Text, eqb, is_empty, List, [], ◌∷◌, inl, inr, All, Option-cases, Bool-cases,
}
use go_exchange_connector.Prelude.Sets.{has, insert, delete}
use go_exchange_connector.Prelude.Dict.{lookup, put}
use go_exchange_connector.Polymarket.Rtds.{
  TopicState, Registry, normalize_symbol, add_loop, remove_loop, add_symbols_windowed,
  remove_symbols,
}
use go_exchange_connector.Polymarket.Rtds.Symbols.{normalize_symbol_idem}
use go_exchange_connector.Polymarket.Rtds.Served.{symbols_of}
use go_exchange_connector.Polymarket.Rtds.Resend.{keys_of}
use go_exchange_connector.Polymarket.Rtds.Resend.Names.{IsKey, IsNormal}
use go_exchange_connector.Polymarket.Rtds.Lives.{symbols-add, symbols-remove}

delete-IsNormal : (s : Text) (ss : List Text) → All IsNormal ss → All IsNormal (delete s ss)
unfolding delete
delete-IsNormal s [] h = tt
delete-IsNormal s (t ∷ ss) h = elim (Bool-cases (eqb s t)) [
  | inl same ↦ rw same (delete-IsNormal s ss h.1)
  | inr differs ↦ rw differs (h.0, delete-IsNormal s ss h.1)
]

add_loop-IsNormal : (raws ss : List Text) → All IsNormal ss → All IsNormal (add_loop raws ss).0
unfolding add_loop insert
add_loop-IsNormal [] ss h = h
add_loop-IsNormal (raw ∷ raws) ss h =
    let s = normalize_symbol raw in
    elim (Bool-cases (is_empty s)) [
      | inl void ↦ simp void (add_loop-IsNormal raws ss h)
      | inr named ↦ elim (Bool-cases (has s ss)) [
        | inl old ↦ simp (named, old) (add_loop-IsNormal raws ss h)
        | inr new ↦
            simp (named, new)
              (add_loop-IsNormal raws (s ∷ ss) ((normalize_symbol_idem raw, named), h))
      ]
    ]

remove_loop-IsNormal :
    (raws ss : List Text) → All IsNormal ss → All IsNormal (remove_loop raws ss).0
unfolding remove_loop
remove_loop-IsNormal [] ss h = h
remove_loop-IsNormal (raw ∷ raws) ss h =
    let s = normalize_symbol raw in
    elim (Bool-cases (is_empty s)) [
      | inl void ↦ simp void (remove_loop-IsNormal raws ss h)
      | inr named ↦ elim (Bool-cases (has s ss)) [
        | inl old ↦
            simp (named, old) (remove_loop-IsNormal raws (delete s ss) (delete-IsNormal s ss h))
        | inr new ↦ simp (named, new) (remove_loop-IsNormal raws ss h)
      ]
    ]

put-IsKey :
    (k : Text) (st : TopicState) (reg : Registry)
    → IsKey k
    → All IsKey (keys_of reg)
    → All IsKey (keys_of (put k st reg))
unfolding put
put-IsKey k st [] h hs = (h, tt)
put-IsKey k st ((l, old) ∷ reg) h hs = elim (Bool-cases (eqb k l)) [
  | inl same ↦ simp same (h, hs.1)
  | inr differs ↦ simp differs (hs.0, put-IsKey k st reg h hs.1)
]

-- Every key is one that the methods make, and every symbol is normalised.
abbrev pub IsKept : Registry → Type 0
IsKept reg = All IsKey (keys_of reg) × ((t : Text) → All IsNormal (symbols_of t reg))

pub add-IsKept :
    (k : Text) (w : ℕ) (raws : List Text) (reg : Registry)
    → IsKey k
    → IsKept reg
    → IsKept (add_symbols_windowed k w raws reg).0
add-IsKept k w raws reg key (keys, normal) = (
  unfold add_symbols_windowed in put-IsKey k _ reg key keys,
  λ t. elim (Bool-cases (eqb t k)) [
    | inl same ↦ rw (symbols-add t k w raws reg, same) (add_loop-IsNormal raws _ (normal t))
    | inr differs ↦ rw (symbols-add t k w raws reg, differs) (normal t)
  ],
)

remove_symbols-IsKey :
    (k : Text) (raws : List Text) (reg : Registry)
    → IsKey k
    → All IsKey (keys_of reg)
    → All IsKey (keys_of (remove_symbols k raws reg).0)
unfolding remove_symbols
remove_symbols-IsKey k raws reg key keys = elim (Option-cases (lookup k reg)) [
  | inl e ↦ rw (e, remove_symbols) keys
  | inr (st, e) ↦ rw (e, remove_symbols) (put-IsKey k _ reg key keys)
]

pub remove-IsKept :
    (k : Text) (raws : List Text) (reg : Registry)
    → IsKey k
    → IsKept reg
    → IsKept (remove_symbols k raws reg).0
remove-IsKept k raws reg key (keys, normal) = (
  remove_symbols-IsKey k raws reg key keys,
  λ t. elim (Bool-cases (eqb t k)) [
    | inl same ↦ rw (symbols-remove t k raws reg, same) (remove_loop-IsNormal raws _ (normal t))
    | inr differs ↦ rw (symbols-remove t k raws reg, differs) (normal t)
  ],
)

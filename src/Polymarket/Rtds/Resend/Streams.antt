-- ===== src/Polymarket/Rtds/Resend/Streams.antt =====
-- What the venue streams after onConnect of pkg/polymarket/rtds.go.
use go_exchange_connector.Prelude.{
  Text, eqb, eqb_refl, eqb_iff, true, false, ◌&&◌, List, [], ◌∷◌, some, ◌≡◌, refl, ◌∙◌, sym, ap,
  subst, arith, inl, inr, All, Option-cases, Bool-cases,
}
use go_exchange_connector.Prelude.Sets.{has}
use go_exchange_connector.Prelude.Sort.{text_lt, insert_text, sort_texts, has-sort_texts}
use go_exchange_connector.Prelude.Dict.{lookup}
use go_exchange_connector.Polymarket.Rtds.{TopicState, Registry, none_in}
use go_exchange_connector.Polymarket.Rtds.Served.{symbols_of, names, streams, streams-subscribe}
use go_exchange_connector.Polymarket.Rtds.Resend.{
  key_entries, entries_of_keys, keys_of, all_entries, on_connect,
}
use go_exchange_connector.Polymarket.Rtds.Resend.Names.{
  IsFiltered, IsKey, IsNormal, asked-normal, names-append, names-key,
}

has-none_in : (j : Text) (ss : List Text) → none_in ss ≡ true → has j ss ≡ false
unfolding has
has-none_in j [] h = refl
has-none_in j (s ∷ ss) h = cc

symbols_at :
    (t : Text) (st : TopicState) (reg : Registry)
    → lookup t reg ≡ some st
    → symbols_of t reg ≡ st.symbols
symbols_at t st reg e = ground (arith, e)

-- A filtered topic's own entries name exactly its symbols.
names-own :
    (t j : Text) (reg : Registry)
    → IsFiltered t
    → All IsNormal (symbols_of t reg)
    → names t (some j) (key_entries t reg) ≡ has j (symbols_of t reg)
unfolding key_entries
names-own t j reg f normal = elim (Option-cases (lookup t reg)) [
  | inl e ↦ ground (arith, e, has-none_in j [] refl)
  | inr (st, e) ↦
      let same = symbols_at t st reg e in
      ground (
        arith,
        e,
        same,
        has-none_in j st.symbols,
        names-key t t j st.symbols f (inr (inl f)),
        asked-normal j st.symbols (subst (All IsNormal) same normal),
        eqb_refl t,
      )
]

names-key_entries :
    (t k j : Text) (reg : Registry)
    → IsFiltered t
    → IsKey k
    → All IsNormal (symbols_of t reg)
    → names t (some j) (key_entries k reg) ≡ (eqb t k && has j (symbols_of t reg))
names-key_entries t k j reg f key normal = elim (Bool-cases (eqb t k)) [
  | inr differs ↦
      unfold key_entries in
      elim (Option-cases (lookup k reg)) [
        | inl e ↦ ground (arith, e, differs)
        | inr (st, e) ↦ ground (arith, e, differs, names-key t k j st.symbols f key)
      ]
  | inl same ↦ rw same (
      ap (λ (l : Text). names t (some j) (key_entries l reg)) (sym ((eqb_iff t k).0 same))
      ∙ names-own t j reg f normal)
]

names-entries_of_keys :
    (t j : Text) (keys : List Text) (reg : Registry)
    → IsFiltered t
    → All IsKey keys
    → All IsNormal (symbols_of t reg)
    → names t (some j) (entries_of_keys keys reg) ≡ (has t keys && has j (symbols_of t reg))
unfolding entries_of_keys has
names-entries_of_keys t j [] reg f keyed normal = refl
names-entries_of_keys t j (k ∷ keys) reg f (key, keyed) normal = ground (
  arith,
  names-append t (some j) (key_entries k reg) (entries_of_keys keys reg),
  names-key_entries t k j reg f key normal,
  names-entries_of_keys t j keys reg f keyed normal,
)

absent_key : (t : Text) (reg : Registry) → has t (keys_of reg) ≡ false → symbols_of t reg ≡ []
unfolding lookup has
absent_key t [] h = refl
absent_key t ((k, st) ∷ reg) h = ground (arith, h, absent_key t reg)

All-insert_text :
    (s : Text) (ts : List Text) → IsKey s → All IsKey ts → All IsKey (insert_text s ts)
unfolding insert_text
All-insert_text s [] h hs = (h, tt)
All-insert_text s (t ∷ ts) h hs = elim (Bool-cases (text_lt s t)) [
  | inl lt ↦ rw lt (h, hs)
  | inr ge ↦ rw ge (hs.0, All-insert_text s ts h hs.1)
]

All-sort_texts : (ts : List Text) → All IsKey ts → All IsKey (sort_texts ts)
unfolding sort_texts
All-sort_texts [] hs = tt
All-sort_texts (t ∷ ts) hs = All-insert_text t (sort_texts ts) hs.0 (All-sort_texts ts hs.1)

-- On a fresh connection that takes the write, onConnect succeeds and makes the venue stream, of the Chainlink and the equity topic,
-- exactly the symbols that the registry holds, if its keys are those that the subscribe methods make
-- and its symbols are normalised.
pub on_connect-streams :
    (t j : Text) (reg : Registry)
    → IsFiltered t
    → All IsKey (keys_of reg)
    → All IsNormal (symbols_of t reg)
    → let (requests, done) = on_connect true reg in
      (done ≡ true) × (streams requests t (some j) false ≡ has j (symbols_of t reg))
unfolding on_connect all_entries
on_connect-streams t j reg f keyed normal = ground (
  arith,
  streams-subscribe (all_entries reg) t (some j) false,
  names-entries_of_keys t j (sort_texts (keys_of reg)) reg f (All-sort_texts (keys_of reg) keyed)
      normal,
  has-sort_texts t (keys_of reg),
  absent_key t reg,
  has-none_in j [] refl,
)

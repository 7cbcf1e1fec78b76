-- ===== src/Polymarket/Rtds/Resend/Names.antt =====
-- The streams that the entries of allEntries (pkg/polymarket/rtds.go) name, key by key.
use go_exchange_connector.Prelude.{
  ℕ, ◌<◌, Text, eqb, eqb_iff, is_empty, Bool, false, ◌&&◌, ◌||◌, List, [], ◌∷◌, ◌++◌, Option, some,
  ◌≡◌, refl, ◌∙◌, sym, ap, arith, ◌⊎◌, inl, inr, All, Bool-cases,
}
use go_exchange_connector.Prelude.Sets.{has}
use go_exchange_connector.Prelude.Sort.{insert_text, sort_texts}
use go_exchange_connector.Polymarket.Rtds.{
  Entry, normalize_symbol, binance_entries, filtered_entries, chainlink_twap_entries,
  crypto_price_topic, chainlink_price_topic, equity_price_topic, chainlink_twap_topic,
}
use go_exchange_connector.Polymarket.Rtds.Symbols.{asked}
use go_exchange_connector.Polymarket.Rtds.Served.{names}
use go_exchange_connector.Polymarket.Rtds.Keys.{
  subs_key, split_subs_key, split_plain, split_subs_key-subs_key,
}
use go_exchange_connector.Polymarket.Rtds.Resend.{topic_entries}

-- The topics whose entries carry a filter for each symbol.
abbrev pub IsFiltered : Text → Type 0
IsFiltered t = (t ≡ chainlink_price_topic) ⊎ (t ≡ equity_price_topic)

-- The keys that the subscribe methods make.
abbrev pub IsKey : Text → Type 0
IsKey k =
    (k ≡ crypto_price_topic)
    ⊎ IsFiltered k
    ⊎ ((w : ℕ) × (w < 9223372036854775808) × (k ≡ subs_key chainlink_twap_topic w))

-- A symbol as addSymbols stores it.
abbrev pub IsNormal : Text → Type 0
IsNormal s = (normalize_symbol s ≡ s) × (is_empty s ≡ false)

pub asked-normal : (j : Text) (ss : List Text) → All IsNormal ss → asked j ss ≡ has j ss
unfolding has
asked-normal j [] h = refl
asked-normal j (s ∷ ss) h = ground (arith, h.0, asked-normal j ss h.1)

pub names-append :
    (t : Text) (f : Option Text) (es fs : List Entry)
    → names t f (es ++ fs) ≡ (names t f es || names t f fs)
names-append t f [] fs = refl
names-append t f (e ∷ es) fs = ground (arith, names-append t f es fs)

names-filtered :
    (t k j : Text) (raws : List Text)
    → names t (some j) (filtered_entries k raws) ≡ (eqb t k && asked j raws)
unfolding filtered_entries
names-filtered t k j [] = ground arith
names-filtered t k j (raw ∷ raws) = ground (arith, names-filtered t k j raws)

asked-insert_text : (j s : Text) (ts : List Text) → asked j (insert_text s ts) ≡ asked j (s ∷ ts)
unfolding insert_text
asked-insert_text j s [] = refl
asked-insert_text j s (t ∷ ts) = ground (arith, asked-insert_text j s ts)

asked-sort_texts : (j : Text) (ts : List Text) → asked j (sort_texts ts) ≡ asked j ts
unfolding sort_texts
asked-sort_texts j [] = refl
asked-sort_texts j (t ∷ ts) =
    ground (arith, asked-insert_text j t (sort_texts ts), asked-sort_texts j ts)

-- The broadcast topics name no filtered stream.
names-crypto :
    (t j : Text) (w : ℕ) (ss : List Text)
    → names t (some j) (topic_entries crypto_price_topic w ss) ≡ false
unfolding topic_entries eqb binance_entries
names-crypto t j w ss = ground arith

names-twap :
    (t j : Text) (w : ℕ) (ss : List Text)
    → names t (some j) (topic_entries chainlink_twap_topic w ss) ≡ false
unfolding topic_entries eqb chainlink_twap_entries
names-twap t j w ss = ground arith

names-topic :
    (t k j : Text) (w : ℕ) (ss : List Text)
    → IsFiltered k
    → names t (some j) (topic_entries k w ss) ≡ (eqb t k && asked j ss)
unfolding topic_entries eqb
names-topic t k j w ss (inl e) = rw e (
    names-filtered t chainlink_price_topic j (sort_texts ss)
    ∙ ap (λ (b : Bool). eqb t chainlink_price_topic && b) (asked-sort_texts j ss))
names-topic t k j w ss (inr e) = rw e (
    names-filtered t equity_price_topic j (sort_texts ss)
    ∙ ap (λ (b : Bool). eqb t equity_price_topic && b) (asked-sort_texts j ss))

-- A filtered topic is read back from its key, with no window.
split-filtered : (t : Text) → IsFiltered t → split_subs_key t ≡ (t, 0)
split-filtered t (inl e) = rw e (split_plain chainlink_price_topic refl)
split-filtered t (inr e) = rw e (split_plain equity_price_topic refl)

split-crypto : split_subs_key crypto_price_topic ≡ (crypto_price_topic, 0)
split-crypto = split_plain crypto_price_topic refl

split-twap :
    (w : ℕ)
    → w < 9223372036854775808
    → split_subs_key (subs_key chainlink_twap_topic w) ≡ (chainlink_twap_topic, w)
split-twap w h = split_subs_key-subs_key chainlink_twap_topic w h (inr refl)

filtered_not_twap : (t : Text) → IsFiltered t → eqb t chainlink_twap_topic ≡ false
unfolding eqb
filtered_not_twap t (inl e) = rw e refl
filtered_not_twap t (inr e) = rw e refl

filtered_not_crypto : (t : Text) → IsFiltered t → eqb t crypto_price_topic ≡ false
unfolding eqb
filtered_not_crypto t (inl e) = rw e refl
filtered_not_crypto t (inr e) = rw e refl

-- A key of the TWAP topic is no filtered topic.
twap_key_apart :
    (t : Text) (w : ℕ)
    → w < 9223372036854775808
    → IsFiltered t
    → eqb t (subs_key chainlink_twap_topic w) ≡ false
twap_key_apart t w h f = elim (Bool-cases (eqb t (subs_key chainlink_twap_topic w))) [
  | inr differs ↦ differs
  | inl same ↦
      let key : t ≡ subs_key chainlink_twap_topic w = (eqb_iff t _).0 same in
      let topics : t ≡ chainlink_twap_topic =
        ap (λ (p : Text × ℕ). p.0)
          (sym (split-filtered t f) ∙ ap split_subs_key key ∙ split-twap w h) in
      absurd (ground (arith, filtered_not_twap t f, (eqb_iff t chainlink_twap_topic).1 topics))
]

-- What the entries of one key name of a filtered topic.
pub names-key :
    (t k j : Text) (ss : List Text)
    → IsFiltered t
    → IsKey k
    → names t (some j) (topic_entries (split_subs_key k).0 (split_subs_key k).1 ss)
      ≡ (eqb t k && asked j ss)
names-key t k j ss f (inl e) =
    rw (e, split-crypto) (names-crypto t j 0 ss ∙ ground (arith, filtered_not_crypto t f))
names-key t k j ss f (inr (inl g)) = rw (split-filtered k g) (names-topic t k j 0 ss g)
names-key t k j ss f (inr (inr (w, h, e))) =
    rw (e, split-twap w h) (names-twap t j w ss ∙ ground (arith, twap_key_apart t w h f))

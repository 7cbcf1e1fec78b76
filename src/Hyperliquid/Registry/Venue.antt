-- ===== src/Hyperliquid/Registry/Venue.antt =====
-- What the venue streams after the frames of pkg/hyperliquid/hyperliquid.go, as a reading of the
-- frames alone, against the registry.
pub mod Sorted
use go_exchange_connector.Prelude.{
  ℕ, Text, eqb, eqb_iff, eqb_refl, Bool, true, false, ◌&&◌, List, [], ◌∷◌, ◌++◌, Option, none, some,
  ◌≡◌, ◌≢◌, refl, ◌∙◌, sym, ap, arith, Option-cases, Bool-cases, inl, inr, if◌then◌else◌,
}
use go_exchange_connector.Prelude.Int.{ℤ, pos, negsuc, eqb_ℤ}
use go_exchange_connector.Prelude.Dict.{lookup, put, remove, lookup-put, lookup-remove}
use go_exchange_connector.Hyperliquid.Channels.{Error}
use go_exchange_connector.Hyperliquid.Subscription.{Subscription, key, check_all}
use go_exchange_connector.Hyperliquid.Registry.{
  Registry, Frame, Link, subscribe_frame, unsubscribe_frame, add_subs, remove_subs, write_sub,
  write_subs, subscribe, unsubscribe,
}
use go_exchange_connector.Hyperliquid.Registry.Keyed.{
  IsKeyed, lookup_keyed, put-IsKeyed, remove-IsKeyed, add_subs-IsKeyed, remove_subs-IsKeyed,
}

abbrev eqb_Bool : Bool → Bool → Bool
eqb_Bool true b = b
eqb_Bool false true = false
eqb_Bool false false = true

eqb_Bool_refl : (b : Bool) → eqb_Bool b b ≡ true
eqb_Bool_refl true = refl
eqb_Bool_refl false = refl

eqb_ℤ_refl : (n : ℤ) → eqb_ℤ n n ≡ true
eqb_ℤ_refl (pos n) = ground arith
eqb_ℤ_refl (negsuc n) = ground arith

-- The same subscription object.
abbrev pub same : Subscription → Subscription → Bool
same s t =
    eqb s.channel t.channel
    && (eqb s.coin t.coin
        && (eqb s.interval t.interval
            && (eqb_ℤ s.n_sig_figs t.n_sig_figs
                && (eqb_ℤ s.mantissa t.mantissa && eqb_Bool s.fast t.fast))))

-- What the venue streams under a key after a frame. It matches an unsubscribe against the object
-- that was subscribed with: a different object changes nothing.
abbrev pub venue_after : Frame → Text → Option Subscription → Option Subscription
venue_after (subscribe_frame s) k v = if eqb k (key s) then some s else v
venue_after (unsubscribe_frame s) k v =
    if eqb k (key s) then elim v [ none ↦ none | some t ↦ if same s t then none else some t ] else v

abbrev pub venue : List Frame → Text → Option Subscription → Option Subscription
venue [] k v = v
venue (f ∷ fs) k v = venue fs k (venue_after f k v)

abbrev pub Reliable : Link → Type 0
Reliable link = (link.connected ≡ true) × ((f : Frame) → link.accepts f ≡ true)

same_refl : (s : Subscription) → same s s ≡ true
same_refl s = ground (
  arith,
  eqb_refl s.channel,
  eqb_refl s.coin,
  eqb_refl s.interval,
  eqb_ℤ_refl s.n_sig_figs,
  eqb_ℤ_refl s.mantissa,
  eqb_Bool_refl s.fast,
)

venue-write_subs :
    (link : Link) (b : Bool) (s : Subscription) (ss : List Subscription) (k : Text)
    (v : Option Subscription)
    → Reliable link
    → venue (write_subs link b (s ∷ ss)) k v
      ≡ venue
          (write_subs link b ss)
          k
          (venue_after (if b then unsubscribe_frame s else subscribe_frame s) k v)
unfolding write_subs
venue-write_subs link true s ss k v live = simp (live.0, live.1 (unsubscribe_frame s)) refl
venue-write_subs link false s ss k v live = simp (live.0, live.1 (subscribe_frame s)) refl

venue-add_subs :
    (link : Link) (subs : List Subscription) (reg : Registry) (k : Text)
    → Reliable link
    → venue (write_subs link false (add_subs subs reg).1) k (lookup k reg)
      ≡ lookup k (add_subs subs reg).0
unfolding add_subs
venue-add_subs link [] reg k live = unfold write_subs in refl
venue-add_subs link (s ∷ subs) reg k live = elim (Option-cases (lookup (key s) reg)) [
  | inr (t, e) ↦ rw (e, add_subs) (venue-add_subs link subs reg k live)
  | inl e ↦
      rw (e, add_subs)
        (venue-write_subs link false s (add_subs subs (put (key s) s reg)).1 k (lookup k reg) live
          ∙ ap
              (λ (v : Option Subscription).
                venue (write_subs link false (add_subs subs (put (key s) s reg)).1) k v)
              (sym (lookup-put k (key s) s reg))
          ∙ venue-add_subs link subs (put (key s) s reg) k live)
]

-- The unsubscribe frame of a stored subscription clears its key and no other.
stored_frame :
    (s t : Subscription) (reg : Registry) (k : Text)
    → IsKeyed reg
    → lookup (key s) reg ≡ some t
    → venue_after (unsubscribe_frame t) k (lookup k reg) ≡ lookup k (remove (key s) reg)
stored_frame s t reg k w h = ground (
  arith,
  lookup_keyed (key s) t reg w h,
  lookup-remove k (key s) reg,
  eqb_iff k (key s),
  same_refl t,
)

venue-remove_subs :
    (link : Link) (subs : List Subscription) (reg : Registry) (k : Text)
    → Reliable link
    → IsKeyed reg
    → venue (write_subs link true (remove_subs subs reg).1) k (lookup k reg)
      ≡ lookup k (remove_subs subs reg).0
unfolding remove_subs
venue-remove_subs link [] reg k live w = unfold write_subs in refl
venue-remove_subs link (s ∷ subs) reg k live w = elim (Option-cases (lookup (key s) reg)) [
  | inl e ↦ rw (e, remove_subs) (venue-remove_subs link subs reg k live w)
  | inr (t, e) ↦
      rw (e, remove_subs)
        (venue-write_subs link true t (remove_subs subs (remove (key s) reg)).1 k (lookup k reg)
            live
          ∙ ap
              (λ (v : Option Subscription).
                venue (write_subs link true (remove_subs subs (remove (key s) reg)).1) k v)
              (stored_frame s t reg k w e)
          ∙ venue-remove_subs link subs (remove (key s) reg) k live (remove-IsKeyed (key s) reg w))
]

-- On a live connection that accepts its writes, Subscribe keeps the venue and the registry the same
-- under every key, whether it fails or not, and every subscription stays under its own key, once;
-- it fails exactly if a check fails, and then it changes and writes nothing.
pub subscribe-venue :
    (link : Link) (subs : List Subscription) (reg : Registry) (k : Text)
    → Reliable link
    → IsKeyed reg
    → let (reg', frames, failure) = subscribe link subs reg in
      (venue frames k (lookup k reg) ≡ lookup k reg')
      × IsKeyed reg'
      × (failure ≡ check_all subs)
      × (failure ≢ none → (reg' ≡ reg) × (frames ≡ []))
unfolding subscribe
subscribe-venue link subs reg k live w = elim (Option-cases (check_all subs)) [
  | inl e ↦
      rw (e, subscribe)
        (
          venue-add_subs link subs reg k live,
          add_subs-IsKeyed subs reg w,
          refl,
          λ n. absurd (n refl),
        )
  | inr (x, e) ↦ rw (e, subscribe) (refl, w, refl, λ n. (refl, refl))
]

-- On a live connection that accepts its writes, Unsubscribe clears the same keys at the venue as in
-- the registry, also where the caller's object differs from the one subscribed with, and every
-- subscription that is left stays under its own key, once.
pub unsubscribe-venue :
    (link : Link) (subs : List Subscription) (reg : Registry) (k : Text)
    → Reliable link
    → IsKeyed reg
    → let (reg', frames) = unsubscribe link subs reg in
      (venue frames k (lookup k reg) ≡ lookup k reg') × IsKeyed reg'
unfolding unsubscribe
unsubscribe-venue link subs reg k live w =
    (venue-remove_subs link subs reg k live w, remove_subs-IsKeyed subs reg w)

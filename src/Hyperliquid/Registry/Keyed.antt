-- ===== src/Hyperliquid/Registry/Keyed.antt =====
-- The keys of the registry of pkg/hyperliquid/hyperliquid.go under addSubs and removeSubs.
use go_exchange_connector.Prelude.{
  Text, eqb_iff, List, [], ◌∷◌, none, some, ◌≡◌, refl, arith, Option-cases, inl, inr,
}
use go_exchange_connector.Prelude.Dict.{lookup, put, remove, lookup-put, lookup-remove}
use go_exchange_connector.Hyperliquid.Subscription.{Subscription, key}
use go_exchange_connector.Hyperliquid.Registry.{Registry, add_subs, remove_subs}

abbrev pub IsKeyed : Registry → Type 0
IsKeyed [] = Unit
IsKeyed ((k, s) ∷ reg) = (key s ≡ k) × (lookup k reg ≡ none) × IsKeyed reg

pub lookup_keyed :
    (k : Text) (s : Subscription) (reg : Registry) → IsKeyed reg → lookup k reg ≡ some s → key s ≡ k
unfolding lookup
lookup_keyed k s [] w h = cc
lookup_keyed k s ((j, t) ∷ reg) w h = ground (arith, w.0, eqb_iff k j, lookup_keyed k s reg w.2)

pub put-IsKeyed : (s : Subscription) (reg : Registry) → IsKeyed reg → IsKeyed (put (key s) s reg)
unfolding put
put-IsKeyed s [] w = (refl, unfold lookup in refl, tt)
put-IsKeyed s ((j, t) ∷ reg) w =
    ground (
      arith,
      put-IsKeyed s reg w.2,
      eqb_iff (key s) j,
      eqb_iff j (key s),
      lookup-put j (key s) s reg,
    )

pub remove-IsKeyed : (k : Text) (reg : Registry) → IsKeyed reg → IsKeyed (remove k reg)
unfolding remove
remove-IsKeyed k [] w = tt
remove-IsKeyed k ((j, t) ∷ reg) w = ground (arith, remove-IsKeyed k reg w.2, lookup-remove j k reg)

pub add_subs-IsKeyed :
    (subs : List Subscription) (reg : Registry) → IsKeyed reg → IsKeyed (add_subs subs reg).0
unfolding add_subs
add_subs-IsKeyed [] reg w = w
add_subs-IsKeyed (s ∷ subs) reg w = elim (Option-cases (lookup (key s) reg)) [
  | inl e ↦ rw (e, add_subs) (add_subs-IsKeyed subs (put (key s) s reg) (put-IsKeyed s reg w))
  | inr (t, e) ↦ rw (e, add_subs) (add_subs-IsKeyed subs reg w)
]

-- Removing keeps every subscription under its own key, each once.
pub remove_subs-IsKeyed :
    (subs : List Subscription) (reg : Registry) → IsKeyed reg → IsKeyed (remove_subs subs reg).0
unfolding remove_subs
remove_subs-IsKeyed [] reg w = w
remove_subs-IsKeyed (s ∷ subs) reg w = elim (Option-cases (lookup (key s) reg)) [
  | inl e ↦ rw (e, remove_subs) (remove_subs-IsKeyed subs reg w)
  | inr (t, e) ↦
      rw (e, remove_subs)
        (remove_subs-IsKeyed subs (remove (key s) reg) (remove-IsKeyed (key s) reg w))
]

-- ===== src/Controller/Dedupe/Order.antt =====
-- `older` of internal/controller/peers.go is a strict order.
use wireguard_operator.Prelude.{
  compare, Ordering, Str, str_compare, Bool, true, false, ◌≡◌, ap, arith,
}
use wireguard_operator.Prelude.TextOrder.{
  str_compare_self, str_compare→≡, str_compare_trans, str_compare-flip,
}
use wireguard_operator.Api.Types.{WireguardPeer}

-- cmp.Or of two comparisons: the first that is not 0
abbrev pub cmp_or : Ordering → Ordering → Ordering
cmp_or Ordering.eq o = o
cmp_or Ordering.lt o = Ordering.lt
cmp_or Ordering.gt o = Ordering.gt

abbrev pub is_lt : Ordering → Bool
is_lt Ordering.lt = true
is_lt Ordering.eq = false
is_lt Ordering.gt = false

unfoldable pub rank : WireguardPeer → WireguardPeer → Ordering
rank a b =
    cmp_or (compare a.creation_timestamp b.creation_timestamp)
      (cmp_or (str_compare a.name b.name) (str_compare a.namespace b.namespace))

-- older
unfoldable pub older : WireguardPeer → WireguardPeer → Bool
unfolding rank
older a b = is_lt (rank a b)

-- No peer is older than itself.
pub older_irrefl : (a : WireguardPeer) → older a a ≡ false
unfolding older
older_irrefl a = ground (arith, str_compare_self a.name, str_compare_self a.namespace)

str_lt_trans :
    (s t u : Str) (o p q : Ordering)
    → (o ≡ Ordering.lt → p ≡ Ordering.lt → q ≡ Ordering.lt)
    → cmp_or (str_compare s t) o ≡ Ordering.lt
    → cmp_or (str_compare t u) p ≡ Ordering.lt
    → cmp_or (str_compare s u) q ≡ Ordering.lt
str_lt_trans s t u o p q rest h k =
    ground
      (arith, str_compare→≡ s t, str_compare→≡ t u, str_compare_trans s t u, str_compare_self s)

rank_trans :
    (a b c : WireguardPeer)
    → rank a b ≡ Ordering.lt
    → rank b c ≡ Ordering.lt
    → rank a c ≡ Ordering.lt
unfolding rank
rank_trans a b c h k = ground (
  arith,
  str_lt_trans a.name b.name c.name (str_compare a.namespace b.namespace)
      (str_compare b.namespace c.namespace) (str_compare a.namespace c.namespace)
      (str_compare_trans a.namespace b.namespace c.namespace),
)

is_lt→≡ : (o : Ordering) → is_lt o ≡ true → o ≡ Ordering.lt
is_lt→≡ o h = ground arith

-- Age is transitive.
pub older_trans : (a b c : WireguardPeer) → older a b ≡ true → older b c ≡ true → older a c ≡ true
unfolding older
older_trans a b c h k = ap is_lt (rank_trans a b c (is_lt→≡ _ h) (is_lt→≡ _ k))

-- Of two peers with different names or namespaces, one is older.
pub older_total :
    (a b : WireguardPeer)
    → older a b ≡ false
    → older b a ≡ false
    → (a.name ≡ b.name) × (a.namespace ≡ b.namespace)
unfolding older
older_total a b h k = ground (
  arith,
  str_compare-flip a.name b.name,
  str_compare-flip a.namespace b.namespace,
  str_compare→≡ a.name b.name,
  str_compare→≡ a.namespace b.namespace,
)

-- ===== src/Netip/Laws.antt =====
-- Networks: equality, masking, containment and overlap.
use wireguard_operator.Prelude.{
  ℕ, zero, suc, ◌+◌, ◌-◌, ◌*◌, ◌/◌, ◌^◌, ◌≤◌, ◌<◌, str_eq_refl, str_eq_iff, true, false, inl, inr,
  ◌≡◌, refl, sym, ◌∙◌, arith, ltb, if◌then◌else◌, Bool-cases, ==→≡, ==_refl,
}
use native.Mathlib.Nat.{
  div-div-eq-div-mul, mul-div_cancel, pow-suc, mul_assoc, one-le-pow, add-zero, mul-one, add-suc,
}
use wireguard_operator.Netip.Addr.{
  Addr, invalid, v4, v6, addr_eq, is4, Prefix, keep_bits, masked, same_network, contains_ip,
  overlaps, overlaps_at, min_bits,
}

pub addr_eq→≡ : (a b : Addr) → addr_eq a b ≡ true → a ≡ b
unfolding addr_eq
addr_eq→≡ invalid invalid h = refl
addr_eq→≡ (v4 m) (v4 n) h = ground arith
addr_eq→≡ (v6 m y) (v6 n z) h = ground (arith, str_eq_iff y z)
addr_eq→≡ _ _ h = cc

pub addr_eq_refl : (a : Addr) → addr_eq a a ≡ true
unfolding addr_eq
addr_eq_refl invalid = refl
addr_eq_refl (v4 n) = ground arith
addr_eq_refl (v6 n z) = ground (arith, str_eq_refl z)

-- An IPv4 prefix of b bits.
abbrev pub prefix4 : ℕ → ℕ → Prefix
prefix4 n b = record { addr = v4 n; bits_plus_one = b + 1 }

pub two_pow_pos : (k : ℕ) → 0 < 2 ^ k
two_pow_pos k = one-le-pow k 2 (omega arith)

pub pow_add : (m n : ℕ) → 2 ^ (m + n) ≡ 2 ^ m * 2 ^ n
pow_add m zero = simp (add-zero, mul-one)
pow_add m (suc n) = simp (add-suc, pow-suc, pow_add m n, mul_assoc)

-- a coarser network is a division of a finer one
coarser : (w b c n : ℕ) → b ≤ c → c ≤ w → n / 2 ^ (w - b) ≡ n / 2 ^ (w - c) / 2 ^ (c - b)
coarser w b c n bc cw =
    let split : w - b ≡ (w - c) + (c - b) = omega arith in rw (split, pow_add, div-div-eq-div-mul)

-- Networks that agree on c bits agree on fewer.
same_network-coarser :
    (w b c m n : ℕ) → b ≤ c → c ≤ w → same_network w c m n ≡ true → same_network w b m n ≡ true
unfolding same_network
same_network-coarser w b c m n bc cw h =
    let fine : m / 2 ^ (w - c) ≡ n / 2 ^ (w - c) = ==→≡ _ _ h in
    rw (coarser w b c m bc cw, coarser w b c n bc cw, fine) (==_refl _)

-- masking keeps the network
div-keep_bits : (w b n : ℕ) → keep_bits w b n / 2 ^ (w - b) ≡ n / 2 ^ (w - b)
unfolding keep_bits
div-keep_bits w b n = mul-div_cancel (n / 2 ^ (w - b)) (two_pow_pos (w - b))

masked_v4 : (n b : ℕ) → b ≤ 32 → masked (prefix4 n b) ≡ prefix4 (keep_bits 32 b n) b
unfolding masked
masked_v4 n b h = ground arith

pub contains_v4 : (m b n : ℕ) → contains_ip (prefix4 m b) (v4 n) ≡ same_network 32 b m n
unfolding contains_ip
contains_v4 m b n = ground arith

contains_only_v4 : (m b : ℕ) (a : Addr) → is4 a ≡ false → contains_ip (prefix4 m b) a ≡ false
unfolding contains_ip is4
contains_only_v4 m b invalid h = ground arith
contains_only_v4 m b (v6 n z) h = ground arith
contains_only_v4 m b (v4 n) h = ground arith

-- The network of a prefix holds the same addresses.
pub contains_ip-masked :
    (n b : ℕ) (a : Addr)
    → b ≤ 32
    → contains_ip (masked (prefix4 n b)) a ≡ contains_ip (prefix4 n b) a
unfolding is4 same_network
contains_ip-masked n b (v4 m) h = rw (masked_v4 n b h, contains_v4, contains_v4, div-keep_bits)
contains_ip-masked n b invalid h =
    rw (masked_v4 n b h, contains_only_v4 _ _ invalid refl, contains_only_v4 _ _ invalid refl)
contains_ip-masked n b (v6 m z) h =
    rw (masked_v4 n b h, contains_only_v4 _ _ (v6 m z) refl, contains_only_v4 _ _ (v6 m z) refl)

overlaps_at_v4 :
    (m n k : ℕ) → k ≤ 32 → same_network 32 k m n ≡ true → overlaps_at (v4 m) (v4 n) k ≡ true
unfolding overlaps_at same_network keep_bits
overlaps_at_v4 m n k fits h =
    let same : m / 2 ^ (32 - k) ≡ n / 2 ^ (32 - k) = ==→≡ _ _ h in
    ground (arith, same, ==_refl (n / 2 ^ (32 - k) * 2 ^ (32 - k)))

same_network_join :
    (w k m n a : ℕ)
    → same_network w k m a ≡ true
    → same_network w k n a ≡ true
    → same_network w k m n ≡ true
unfolding same_network
same_network_join w k m n a h j = rw (==→≡ _ _ h ∙ sym (==→≡ _ _ j)) (==_refl _)

-- IPv4 prefixes that do not overlap differ within the shorter of their lengths.
overlaps_v4 :
    (m b n c k : ℕ)
    → b ≤ 32
    → c ≤ 32
    → k ≡ (if ltb b c then b else c)
    → overlaps (prefix4 m b) (prefix4 n c) ≡ false
    → same_network 32 k m n ≡ false
unfolding overlaps
overlaps_v4 m b n c k hb hc e h = elim (Bool-cases (same_network 32 k m n)) [
  | inr differ ↦ differ
  | inl agree ↦
      let fits : k ≤ 32 = ground arith in
      let least : min_bits (prefix4 m b) (prefix4 n c) ≡ k = ground arith in
      ground (arith, overlaps_at_v4 m n k fits agree, least)
]

-- An address of one of two IPv4 prefixes that do not overlap is not in the other.
pub overlaps-contains_ip :
    (m b n c a : ℕ)
    → b ≤ 32
    → c ≤ 32
    → overlaps (prefix4 m b) (prefix4 n c) ≡ false
    → contains_ip (prefix4 m b) (v4 a) ≡ true
    → contains_ip (prefix4 n c) (v4 a) ≡ false
overlaps-contains_ip m b n c a hb hc apart inside =
    elim (Bool-cases (contains_ip (prefix4 n c) (v4 a))) [
      | inr out ↦ out
      | inl both ↦
          let k : ℕ = if ltb b c then b else c in
          let left : same_network 32 k m a ≡ true =
            same_network-coarser 32 k b m a (ground arith) hb (sym (contains_v4 m b a) ∙ inside) in
          let right : same_network 32 k n a ≡ true =
            same_network-coarser 32 k c n a (ground arith) hc (sym (contains_v4 n c a) ∙ both) in
          cc (overlaps_v4 m b n c k hb hc refl apart, same_network_join 32 k m n a left right)
    ]

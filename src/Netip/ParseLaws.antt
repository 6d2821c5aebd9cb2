-- ===== src/Netip/ParseLaws.antt =====
-- What the parsers return lies within its family's range.
use wireguard_operator.Prelude.{
  ℕ, ◌+◌, ◌-◌, ◌*◌, ◌^◌, ◌≤◌, ◌<◌, Str, is_empty, cut, true, [], ◌∷◌, inl, inr, Option, none, some,
  ◌≡◌, refl, subst, arith, ◌==◌, if◌then◌else◌, Bool-cases,
}
use wireguard_operator.Netip.Addr.{Addr, invalid, v4, v6, is4, Prefix, prefix_from, zero_prefix}
use wireguard_operator.Netip.Parse.{
  v4_fields, parse_v4, parse_v6, split_zone, v6_start, prefix_at, as_v4, with_zone, family,
  parse_addr, parse_bits, prefix_of, cut_last, parse_prefix,
}
use wireguard_operator.Netip.Laws.{prefix4}

-- the numbers that `pos` octets write
abbrev room : ℕ → ℕ
room pos = if pos == 0 then 1 else if pos == 1 then 256 else if pos == 2 then 65536 else 16777216

v4_fields-lt :
    (s : Str) (acc pos val digits n : ℕ)
    → pos ≤ 3
    → acc < room pos
    → val ≤ 255
    → v4_fields s acc pos val digits ≡ some n
    → n < 4294967296
unfolding v4_fields
v4_fields-lt [] acc pos val digits n hp ha hv e = ground arith
v4_fields-lt (c ∷ s) acc pos val digits n hp ha hv e = ground (
  arith,
  v4_fields-lt s acc pos (val * 10 + (c - b'0')) (digits + 1) n,
  v4_fields-lt s (acc * 256 + val) (pos + 1) 0 0 n,
)

parse_v4-lt : (s : Str) (n : ℕ) → parse_v4 s ≡ some n → n < 2 ^ 32
unfolding parse_v4
parse_v4-lt s n e = v4_fields-lt s 0 0 0 0 n (omega arith) (omega arith) (omega arith) e

-- An address of the range of its family.
abbrev pub InRange4 : Addr → Type 0
InRange4 (v4 n) = n < 2 ^ 32
InRange4 _ = Unit

as_v4-InRange4 :
    (s : Str) (o : Option ℕ) (a : Addr) → parse_v4 s ≡ o → as_v4 o ≡ some a → InRange4 a
as_v4-InRange4 s none a e h = absurd (cc)
as_v4-InRange4 s (some n) a e h = subst InRange4 {x = v4 n} (ground arith) (parse_v4-lt s n e)

with_zone-InRange4 : (z : Str) (o : Option ℕ) (a : Addr) → with_zone z o ≡ some a → InRange4 a
with_zone-InRange4 z none a h = absurd (cc)
with_zone-InRange4 z (some n) invalid h = tt
with_zone-InRange4 z (some n) (v4 m) h = absurd (cc)
with_zone-InRange4 z (some n) (v6 m y) h = tt

split_zone-InRange4 :
    (o : Option (Str × Str)) (s : Str) (a : Addr) → split_zone o s ≡ some a → InRange4 a
unfolding split_zone
split_zone-InRange4 none s a h = with_zone-InRange4 [] (v6_start s) a h
split_zone-InRange4 (some (front, zone)) s a h = elim (Bool-cases (is_empty zone)) [
  | inl bare ↦ absurd (cc (rw bare at h))
  | inr full ↦ with_zone-InRange4 zone (v6_start front) a (rw full at h)
]

parse_v6-InRange4 : (s : Str) (a : Addr) → parse_v6 s ≡ some a → InRange4 a
unfolding parse_v6
parse_v6-InRange4 s a h = split_zone-InRange4 (cut b'%' s) s a h

family-InRange4 : (r s : Str) (a : Addr) → family r s ≡ some a → InRange4 a
unfolding family
family-InRange4 [] s a h = absurd (cc)
family-InRange4 (c ∷ r) s a h = elim (Bool-cases (c == b'.')) [
  | inl dot ↦ as_v4-InRange4 s (parse_v4 s) a refl (rw dot at h)
  | inr no_dot ↦ elim (Bool-cases (c == b':')) [
    | inl colon ↦ parse_v6-InRange4 s a (rw (no_dot, colon) at h)
    | inr no_colon ↦ elim (Bool-cases (c == b'%')) [
      | inl percent ↦ absurd (cc (rw (no_dot, no_colon, percent) at h))
      | inr other ↦ family-InRange4 r s a (rw (no_dot, no_colon, other) at h)
    ]
  ]
]

-- A parsed IPv4 address is a number of 32 bits.
pub parse_addr-InRange4 : (s : Str) (a : Addr) → parse_addr s ≡ some a → InRange4 a
unfolding parse_addr
parse_addr-InRange4 s a h = family-InRange4 s s a h

-- An IPv4 prefix: an address of 32 bits and a length up to 32.
abbrev pub IsPrefix4 : Prefix → Type 0
IsPrefix4 p = (n : ℕ) × (b : ℕ) × (p ≡ prefix4 n b) × (n < 2 ^ 32) × (b ≤ 32)

prefix_of-IsPrefix4 :
    (a : Addr) (o : Option ℕ) (p : Prefix)
    → InRange4 a
    → prefix_of a o ≡ some p
    → is4 p.addr ≡ true
    → IsPrefix4 p
unfolding prefix_of prefix_from is4 zero_prefix
prefix_of-IsPrefix4 a none p r h f = absurd (cc)
prefix_of-IsPrefix4 invalid (some b) p r h f = absurd (ground arith)
prefix_of-IsPrefix4 (v6 n z) (some b) p r h f = absurd (ground arith)
prefix_of-IsPrefix4 (v4 n) (some b) p r h f = (n, b, ground arith, r, ground arith)

prefix_at-IsPrefix4 :
    (o : Option Addr) (b : Option ℕ) (p : Prefix)
    → ((a : Addr) → o ≡ some a → InRange4 a)
    → prefix_at o b ≡ some p
    → is4 p.addr ≡ true
    → IsPrefix4 p
unfolding prefix_at
prefix_at-IsPrefix4 none b p r h f = absurd (cc)
prefix_at-IsPrefix4 (some a) b p r h f = prefix_of-IsPrefix4 a b p (r a refl) h f

parse_split :
    (o : Option (Str × Str)) (p : Prefix)
    → elim o [ none ↦ none | some (front, back) ↦ prefix_at (parse_addr front) (parse_bits back) ]
      ≡ some p
    → is4 p.addr ≡ true
    → IsPrefix4 p
parse_split none p h f = absurd (cc)
parse_split (some (front, back)) p h f =
    prefix_at-IsPrefix4 (parse_addr front) (parse_bits back) p (parse_addr-InRange4 front) h f

-- ParsePrefix returns IPv4 prefixes of at most 32 bits, of addresses of 32 bits.
pub parse_prefix-IsPrefix4 :
    (s : Str) (p : Prefix) → parse_prefix s ≡ some p → is4 p.addr ≡ true → IsPrefix4 p
unfolding parse_prefix
parse_prefix-IsPrefix4 s p h f = parse_split (cut_last s) p h f

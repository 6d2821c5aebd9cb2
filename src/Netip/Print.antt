-- ===== src/Netip/Print.antt =====
-- Addr.String and Prefix.String of net/netip, and strconv.Itoa for the lengths.
use wireguard_operator.Prelude.{
  ℕ, zero, suc, ◌+◌, ◌-◌, ◌/◌, ◌%◌, ◌^◌, Str, text, List, [], ◌∷◌, ◌++◌, ltb, ◌==◌, if◌then◌else◌,
}
use wireguard_operator.Netip.Addr.{Addr, invalid, v4, v6, Prefix}

-- a number below 1000 in decimal
unfoldable pub print_small : ℕ → Str
print_small n =
    if ltb n 10
    then (b'0' + n) ∷ []
    else if ltb n 100
    then (b'0' + n / 10) ∷ (b'0' + n % 10) ∷ []
    else (b'0' + n / 100) ∷ (b'0' + n / 10 % 10) ∷ (b'0' + n % 10) ∷ []

unfoldable pub print_v4 : ℕ → Str
print_v4 n =
    print_small (n / 2 ^ 24)
    ++ (b'.'
        ∷ (print_small (n / 2 ^ 16 % 256)
            ++ (b'.' ∷ (print_small (n / 2 ^ 8 % 256) ++ (b'.' ∷ print_small (n % 256))))))

hex_digit : ℕ → ℕ
hex_digit d = if ltb d 10 then b'0' + d else b'a' + (d - 10)

-- a group of 16 bits in hex, without leading zeros
print_group : ℕ → Str
unfolding hex_digit
print_group g =
    if ltb g 0x10
    then hex_digit g ∷ []
    else if ltb g 0x100
    then hex_digit (g / 16) ∷ hex_digit (g % 16) ∷ []
    else if ltb g 0x1000
    then hex_digit (g / 256) ∷ hex_digit (g / 16 % 16) ∷ hex_digit (g % 16) ∷ []
    else hex_digit (g / 4096)
      ∷ hex_digit (g / 256 % 16)
      ∷ hex_digit (g / 16 % 16)
      ∷ hex_digit (g % 16)
      ∷ []

-- the eight groups, most significant first
groups : ℕ → ℕ → List ℕ → List ℕ
groups zero n out = out
groups (suc k) n out = groups k (n / 65536) ((n % 65536) ∷ out)

zeros_at : List ℕ → ℕ
zeros_at [] = 0
zeros_at (g ∷ gs) = let more = suc (zeros_at gs) in if g == 0 then more else 0

-- the first longest run of at least two zero groups, as its start and its length
longest : List ℕ → ℕ → ℕ → ℕ → ℕ × ℕ
unfolding zeros_at
longest [] at start run = (start, run)
longest (g ∷ gs) at start run =
    let here = zeros_at (g ∷ gs) in
    longest gs (at + 1) (if ltb run here then at else start) (if ltb run here then here else run)

joined : List ℕ → Str
unfolding print_group
joined [] = []
joined (g ∷ []) = print_group g
joined (g ∷ h ∷ gs) = print_group g ++ (b':' ∷ joined (h ∷ gs))

take : ℕ → List ℕ → List ℕ
take zero xs = []
take (suc n) [] = []
take (suc n) (x ∷ xs) = x ∷ take n xs

drop : ℕ → List ℕ → List ℕ
drop zero xs = xs
drop (suc n) [] = []
drop (suc n) (x ∷ xs) = drop n xs

squeezed : List ℕ → ℕ × ℕ → Str
unfolding joined take drop
squeezed gs (start, run) =
    if ltb run 2
    then joined gs
    else joined (take start gs) ++ (b':' ∷ b':' ∷ joined (drop (start + run) gs))

-- an IPv4-mapped address keeps its dotted part
unfoldable pub print_v6 : ℕ → Str
unfolding groups longest squeezed print_v4 text
print_v6 n =
    if n / 2 ^ 32 == 0xffff
    then text "::ffff:" ++ print_v4 (n % 2 ^ 32)
    else squeezed (groups 8 n []) (longest (groups 8 n []) 0 0 1)

-- Addr.String
unfoldable pub print_addr : Addr → Str
unfolding print_v4 print_v6 text
print_addr invalid = text "invalid IP"
print_addr (v4 n) = print_v4 n
print_addr (v6 n []) = print_v6 n
print_addr (v6 n (c ∷ z)) = print_v6 n ++ (b'%' ∷ c ∷ z)

-- Prefix.String
unfoldable pub print_prefix : Prefix → Str
unfolding print_addr print_small
print_prefix p =
    if p.bits_plus_one == 0
    then text "invalid Prefix"
    else print_addr p.addr ++ (b'/' ∷ print_small (p.bits_plus_one - 1))

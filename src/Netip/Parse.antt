-- ===== src/Netip/Parse.antt =====
-- ParseAddr and ParsePrefix of net/netip, byte by byte. Every error is `none`: the operator shows
-- the text of a parse error to a reader and never branches on it.
use wireguard_operator.Prelude.{
  ℕ, zero, suc, ◌+◌, ◌-◌, ◌*◌, ◌/◌, ◌%◌, length, Str, is_empty, cut, Bool, true, false, not, ◌&&◌,
  ◌||◌, List, [], ◌∷◌, Option, none, some, ltb, leb, ◌==◌, if◌then◌else◌,
}
use wireguard_operator.Netip.Addr.{Addr, v4, v6, Prefix, prefix_from}

is_digit : ℕ → Bool
is_digit c = leb b'0' c && leb c b'9'

-- parseIPv4Fields: the octets so far as one number, the dots seen, the value and the number of
-- digits of the current octet
unfoldable pub v4_fields : Str → ℕ → ℕ → ℕ → ℕ → Option ℕ
unfolding is_digit
v4_fields [] acc pos val digits =
    if digits == 0 then none else if ltb pos 3 then none else some (acc * 256 + val)
v4_fields (c ∷ s) acc pos val digits =
    let digit = v4_fields s acc pos (val * 10 + (c - b'0')) (digits + 1) in
    let dot = v4_fields s (acc * 256 + val) (pos + 1) 0 0 in
    if is_digit c
    then if digits == 1 && val == 0
      then none
      else if ltb 255 (val * 10 + (c - b'0'))
      then none
      else digit
    else if c == b'.'
    then if digits == 0 then none else if pos == 3 then none else dot
    else none

unfoldable pub parse_v4 : Str → Option ℕ
unfolding v4_fields
parse_v4 s = v4_fields s 0 0 0 0

hex_value : ℕ → Option ℕ
hex_value c =
    if leb b'0' c && leb c b'9'
    then some (c - b'0')
    else if leb b'a' c && leb c b'f'
    then some (c - b'a' + 10)
    else if leb b'A' c && leb c b'F'
    then some (c - b'A' + 10)
    else none

-- the hex digits at the front: how many, their value and the rest; more than four is an error
hex_group : Str → ℕ → ℕ → Option (ℕ × ℕ × Str)
hex_group [] off acc = some (off, acc, [])
hex_group (c ∷ s) off acc = elim (hex_value c) [
  | none ↦ some (off, acc, c ∷ s)
  | some d ↦ if ltb 3 off then none else hex_group s (off + 1) (acc * 16 + d)
]

-- the groups read so far, in reverse, where the ellipsis stood, and the unread text
pub record Groups : Type 0 where
  pub read : List ℕ
  pub ellipsis : Option ℕ
  pub rest : Str

abbrev starts_colon : Str → Bool
starts_colon [] = false
starts_colon (c ∷ s) = c == b':'

abbrev starts_dot : Str → Bool
starts_dot [] = false
starts_dot (c ∷ s) = c == b'.'

abbrev tail : Str → Str
tail [] = []
tail (c ∷ s) = s

abbrev is_some : Option ℕ → Bool
is_some none = false
is_some (some n) = true

-- the rounds of the loop of parseIPv6; at most eight groups of 16 bits
v6_loop : ℕ → Groups → Option Groups
unfolding hex_group hex_value parse_v4 is_empty
v6_loop zero g = some g
v6_loop (suc n) g = elim (hex_group g.rest 0 0) [
  | none ↦ none
  | some (off, acc, s) ↦
      let groups = suc (length g.read) in
      let after = tail s in
      let stop : Option Groups =
        some (record { read = acc ∷ g.read; ellipsis = g.ellipsis; rest = s }) in
      let dotted : Option Groups = elim (parse_v4 g.rest) [
        | none ↦ none
        | some q ↦
            some (record {
              read = (q % 65536) ∷ (q / 65536) ∷ g.read;
              ellipsis = g.ellipsis;
              rest = [];
            })
      ] in
      let more = v6_loop n (record { read = acc ∷ g.read; ellipsis = g.ellipsis; rest = after }) in
      let gap : Groups = record {
        read = acc ∷ g.read;
        ellipsis = some groups;
        rest = tail after;
      } in
      let on = v6_loop n gap in
      if off == 0
      then none
      else if starts_dot s
      then if not (is_some g.ellipsis) && not (length g.read == 6)
        then none
        else if ltb 6 (length g.read)
        then none
        else dotted
      else if is_empty s
      then stop
      else if not (starts_colon s)
      then none
      else if is_empty after
      then none
      else if starts_colon after
      then if is_some g.ellipsis then none else if is_empty (tail after) then some gap else on
      else more
]

append_groups : List ℕ → ℕ → ℕ
append_groups [] acc = acc
append_groups (g ∷ gs) acc = append_groups gs (acc * 65536 + g)

reverse_onto : List ℕ → List ℕ → List ℕ
reverse_onto [] ys = ys
reverse_onto (x ∷ xs) ys = reverse_onto xs (x ∷ ys)

zeros : ℕ → List ℕ → List ℕ
zeros zero ys = ys
zeros (suc n) ys = 0 ∷ zeros n ys

-- the groups before the ellipsis, as many zeros as are missing, and those behind it
expand : List ℕ → ℕ → ℕ → List ℕ
unfolding zeros
expand gs zero missing = zeros missing gs
expand [] (suc at) missing = []
expand (g ∷ gs) (suc at) missing = g ∷ expand gs at missing

v6_value : Groups → Option ℕ
unfolding append_groups reverse_onto expand is_empty
v6_value g =
    let gs = reverse_onto g.read [] in
    if not (is_empty g.rest)
    then none
    else if ltb (length gs) 8
    then elim g.ellipsis [
      | none ↦ none
      | some at ↦ some (append_groups (expand gs at (8 - length gs)) 0)
    ]
    else if is_some g.ellipsis
    then none
    else some (append_groups gs 0)

unfoldable pub v6_start : Str → Option ℕ
unfolding v6_loop v6_value
v6_start s =
    let plain : Groups = record { read = []; ellipsis = none; rest = s } in
    let gap : Groups = record { read = []; ellipsis = some 0; rest = tail (tail s) } in
    if starts_colon s && starts_colon (tail s)
    then if is_empty (tail (tail s))
      then some 0
      else elim (v6_loop 8 gap) [ none ↦ none | some g ↦ v6_value g ]
    else elim (v6_loop 8 plain) [ none ↦ none | some g ↦ v6_value g ]

abbrev pub with_zone : Str → Option ℕ → Option Addr
with_zone z none = none
with_zone z (some n) = some (v6 n z)

unfoldable pub split_zone : Option (Str × Str) → Str → Option Addr
unfolding v6_start is_empty
split_zone none s = with_zone [] (v6_start s)
split_zone (some (front, zone)) s = if is_empty zone then none else with_zone zone (v6_start front)

-- parseIPv6, with the zone behind the first '%'
unfoldable pub parse_v6 : Str → Option Addr
unfolding split_zone cut
parse_v6 s = split_zone (cut b'%' s) s

abbrev pub as_v4 : Option ℕ → Option Addr
as_v4 none = none
as_v4 (some n) = some (v4 n)

-- the first '.', ':' or '%' says which family the text is of
unfoldable pub family : Str → Str → Option Addr
family [] s = none
family (c ∷ r) s =
    let rest = family r s in
    if c == b'.'
    then as_v4 (parse_v4 s)
    else if c == b':'
    then parse_v6 s
    else if c == b'%'
    then none
    else rest

-- netip.ParseAddr
unfoldable pub parse_addr : Str → Option Addr
unfolding family parse_v4 parse_v6
parse_addr s = family s s

-- strconv.Atoi over text that starts with a digit: no sign is possible
digits_value : Str → ℕ → Option ℕ
unfolding is_digit
digits_value [] acc = some acc
digits_value (c ∷ s) acc =
    let rest = digits_value s (acc * 10 + (c - b'0')) in if is_digit c then rest else none

-- the length behind the slash: no leading zero, no sign
unfoldable pub parse_bits : Str → Option ℕ
unfolding digits_value
parse_bits [] = none
parse_bits (c ∷ []) = digits_value (c ∷ []) 0
parse_bits (c ∷ d ∷ s) = if ltb c b'1' || ltb b'9' c then none else digits_value (c ∷ d ∷ s) 0

-- strings.LastIndexByte '/': the parts before and after the last slash
unfoldable pub cut_last : Str → Option (Str × Str)
cut_last [] = none
cut_last (c ∷ s) = elim (cut_last s) [
  | some (a, b) ↦ some (c ∷ a, b)
  | none ↦ if c == b'/' then some ([], s) else none
]

abbrev pub max_bits : Addr → ℕ
max_bits (v4 n) = 32
max_bits _ = 128

abbrev pub zoned : Addr → Bool
zoned (v6 n (c ∷ z)) = true
zoned _ = false

unfoldable pub prefix_of : Addr → Option ℕ → Option Prefix
unfolding prefix_from
prefix_of a none = none
prefix_of a (some b) =
    if zoned a then none else if ltb (max_bits a) b then none else some (prefix_from a b)

unfoldable pub prefix_at : Option Addr → Option ℕ → Option Prefix
unfolding prefix_of
prefix_at none o = none
prefix_at (some a) o = prefix_of a o

-- netip.ParsePrefix
unfoldable pub parse_prefix : Str → Option Prefix
unfolding parse_addr parse_bits cut_last prefix_at
parse_prefix s = elim (cut_last s) [
  | none ↦ none
  | some (front, back) ↦ prefix_at (parse_addr front) (parse_bits back)
]

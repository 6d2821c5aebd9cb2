-- ===== src/Netip/AddrPort.antt =====
-- netip.AddrPort and ParseAddrPort.
use wireguard_operator.Prelude.{
  ℕ, ◌+◌, ◌-◌, ◌*◌, Str, ◌&&◌, [], ◌∷◌, Option, none, some, leb, ◌==◌, if◌then◌else◌,
}
use wireguard_operator.Netip.Addr.{Addr, invalid, v4, v6, is4}
use wireguard_operator.Netip.Parse.{parse_addr}

pub record AddrPort : Type 0 where
  pub addr : Addr
  pub port : ℕ

-- the text split at its last colon
unfoldable pub cut_last_colon : Str → Option (Str × Str)
cut_last_colon [] = none
cut_last_colon (c ∷ s) = elim (cut_last_colon s) [
  | some (a, b) ↦ some (c ∷ a, b)
  | none ↦ if c == b':' then some ([], s) else none
]

port_digits : Str → ℕ → Option ℕ
port_digits [] acc = some acc
port_digits (c ∷ s) acc =
    let rest = port_digits s (acc * 10 + (c - b'0')) in
    if leb b'0' c && leb c b'9' then rest else none

abbrev within_port : Option ℕ → Option ℕ
within_port none = none
within_port (some n) = if leb n 65535 then some n else none

-- strconv.ParseUint of base 10 and 16 bits
unfoldable pub parse_port : Str → Option ℕ
unfolding port_digits
parse_port [] = none
parse_port (c ∷ s) = within_port (port_digits (c ∷ s) 0)

-- the text without its last byte, a closing bracket
unfoldable pub drop_bracket : Str → Option Str
drop_bracket [] = none
drop_bracket (c ∷ []) = if c == b']' then some [] else none
drop_bracket (c ∷ d ∷ s) = elim (drop_bracket (d ∷ s)) [ none ↦ none | some r ↦ some (c ∷ r) ]

abbrev bracketed : Option Addr → Option Addr
bracketed none = none
bracketed (some a) = if is4 a then none else some a

abbrev unbracketed : Option Addr → Option Addr
unbracketed none = none
unbracketed (some invalid) = some invalid
unbracketed (some (v4 n)) = some (v4 n)
unbracketed (some (v6 n z)) = none

abbrev in_brackets : Option Str → Option Addr
in_brackets none = none
in_brackets (some s) = bracketed (parse_addr s)

-- an IPv6 address stands in brackets, an IPv4 address does not
unfoldable pub parse_host : Str → Option Addr
unfolding drop_bracket
parse_host [] = none
parse_host (c ∷ s) =
    if c == b'[' then in_brackets (drop_bracket s) else unbracketed (parse_addr (c ∷ s))

abbrev both : Option Addr → Option ℕ → Option AddrPort
both none o = none
both (some a) none = none
both (some a) (some p) = some (record { addr = a; port = p })

-- ParseAddrPort
unfoldable pub parse_addr_port : Str → Option AddrPort
unfolding cut_last_colon parse_port parse_host
parse_addr_port s = elim (cut_last_colon s) [
  | none ↦ none
  | some (host, port) ↦ both (parse_host host) (parse_port port)
]

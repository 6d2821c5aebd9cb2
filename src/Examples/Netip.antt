-- ===== src/Examples/Netip.antt =====
-- Runs of the address functions, and the witness of their round trip.
use wireguard_operator.Prelude.{text, [], none, some, ◌≡◌, refl}
use wireguard_operator.Netip.Addr.{v4, v6}
use wireguard_operator.Netip.Parse.{parse_addr, parse_prefix}
use wireguard_operator.Netip.Print.{print_addr, print_small}

parse_v4_run : parse_addr (text "10.8.0.1") ≡ some (v4 0x0a080001)
unfolding parse_addr text
parse_v4_run = refl

parse_v4_refused :
    (parse_addr (text "10.8.0.01") ≡ none)
    × (parse_addr (text "10.8.0") ≡ none)
    × (parse_addr (text "10.8..1") ≡ none)
    × (parse_addr (text "10.8.0.256") ≡ none)
unfolding parse_addr text
parse_v4_refused = (refl, refl, refl, refl)

parse_v6_run :
    (parse_addr (text "fe80::1%eth0") ≡ some (v6 0xfe800000000000000000000000000001 (text "eth0")))
    × (parse_addr (text "::ffff:192.0.2.1") ≡ some (v6 0xffffc0000201 []))
    × (parse_addr (text "::") ≡ some (v6 0 []))
    × (parse_addr (text "1:2:3:4:5:6:7:8") ≡ some (v6 0x00010002000300040005000600070008 []))
    × (parse_addr (text "1::2::3") ≡ none)
    × (parse_addr (text "1:2:3:4:5:6:7") ≡ none)
unfolding parse_addr text
parse_v6_run = (refl, refl, refl, refl, refl, refl)

print_v6_run :
    (print_addr (v6 0xfe800000000000000000000000000001 (text "eth0")) ≡ text "fe80::1%eth0")
    × (print_addr (v6 0x00010000000000020000000000000003 []) ≡ text "1:0:0:2::3")
    × (print_addr (v6 0xffffc0000201 []) ≡ text "::ffff:192.0.2.1")
    × (print_addr (v6 0 []) ≡ text "::")
unfolding print_addr print_small text
print_v6_run = (refl, refl, refl, refl)

parse_prefix_run :
    (parse_prefix (text "10.8.0.0/24") ≡ some (record { addr = v4 0x0a080000; bits_plus_one = 25 }))
    × (parse_prefix (text "10.8.0.0/024") ≡ none)
    × (parse_prefix (text "10.8.0.0/33") ≡ none)
    × (parse_prefix (text "10.8.0.0") ≡ none)
unfolding parse_prefix text
parse_prefix_run = (refl, refl, refl, refl)

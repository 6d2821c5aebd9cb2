-- ===== src/Netip/RoundTrip.antt =====
-- An IPv4 address is read back from its print.
use wireguard_operator.Prelude.{
  ℕ, ◌+◌, ◌*◌, ◌/◌, ◌%◌, ◌^◌, ◌≤◌, ◌<◌, Str, [], ◌∷◌, ◌++◌, ◌≢◌, inl, inr, some, ◌≡◌, sym, ap, ◌∙◌,
  arith, ltb, if◌then◌else◌, Bool-cases, ltb→lt, ltb→le,
}
use mathlib.Core.List.{append-nil}
use wireguard_operator.Netip.Addr.{v4}
use wireguard_operator.Netip.Parse.{v4_fields, parse_v4, family, as_v4, parse_addr}
use wireguard_operator.Netip.Print.{print_small, print_v4, print_addr}

-- one digit of an octet
digit_step :
    (s : Str) (acc pos val digits d : ℕ)
    → d < 10
    → (digits ≡ 1 → val ≢ 0)
    → val * 10 + d ≤ 255
    → v4_fields ((b'0' + d) ∷ s) acc pos val digits
      ≡ v4_fields s acc pos (val * 10 + d) (digits + 1)
unfolding v4_fields
digit_step s acc pos val digits d h lead fits = ground arith

-- the dot behind one of the first three octets
dot_step :
    (s : Str) (acc pos val digits : ℕ)
    → digits ≢ 0
    → pos ≢ 3
    → v4_fields (b'.' ∷ s) acc pos val digits ≡ v4_fields s (acc * 256 + val) (pos + 1) 0 0
unfolding v4_fields
dot_step s acc pos val digits some_digit room = ground arith

-- how many digits an octet prints
abbrev width : ℕ → ℕ
width n = if ltb n 10 then 1 else if ltb n 100 then 2 else 3

two_digits :
    (n : ℕ) (s : Str) (acc pos : ℕ)
    → 10 ≤ n
    → n < 100
    → v4_fields ((b'0' + n / 10) ∷ (b'0' + n % 10) ∷ s) acc pos 0 0 ≡ v4_fields s acc pos n 2
two_digits n s acc pos lo hi =
    rw (digit_step _ acc pos 0 0 (n / 10) (omega arith) (λ e. cc) (omega arith)) (
      rw
        (digit_step s acc pos (0 * 10 + n / 10) (0 + 1) (n % 10) (omega arith) (λ _. omega arith)
          (omega arith))
        (ground arith))

three_digits :
    (n : ℕ) (s : Str) (acc pos : ℕ)
    → 100 ≤ n
    → n < 256
    → v4_fields ((b'0' + n / 100) ∷ (b'0' + n / 10 % 10) ∷ (b'0' + n % 10) ∷ s) acc pos 0 0
      ≡ v4_fields s acc pos n 3
three_digits n s acc pos lo hi =
    digit_step _ acc pos 0 0 (n / 100) (omega arith) (λ e. cc) (omega arith)
    ∙ digit_step _ acc pos (0 * 10 + n / 100) (0 + 1) (n / 10 % 10) (omega arith) (λ _. omega arith)
        (omega arith)
    ∙ digit_step s acc pos ((0 * 10 + n / 100) * 10 + n / 10 % 10) 2 (n % 10) (omega arith)
        (λ e. absurd (omega arith)) (omega arith)
    ∙ ground arith

octet_step :
    (n : ℕ) (s : Str) (acc pos : ℕ)
    → n < 256
    → v4_fields (print_small n ++ s) acc pos 0 0 ≡ v4_fields s acc pos n (width n)
unfolding print_small
octet_step n s acc pos h = elim (Bool-cases (ltb n 10)) [
  | inl small ↦
      rw small
        (digit_step s acc pos 0 0 n (ltb→lt _ _ small) (λ e. cc) (ground arith) ∙ ground arith)
  | inr large ↦ elim (Bool-cases (ltb n 100)) [
    | inl middle ↦
        rw (large, middle) (two_digits n s acc pos (ltb→le _ _ large) (ltb→lt _ _ middle))
    | inr big ↦ rw (large, big) (three_digits n s acc pos (ltb→le _ _ big) h)
  ]
]

width-ne-zero : (n : ℕ) → width n ≢ 0
width-ne-zero n = ground arith

-- an octet and its dot
octet_dot :
    (n : ℕ) (s : Str) (acc pos : ℕ)
    → n < 256
    → pos ≢ 3
    → v4_fields (print_small n ++ (b'.' ∷ s)) acc pos 0 0
      ≡ v4_fields s (acc * 256 + n) (pos + 1) 0 0
octet_dot n s acc pos h room =
    octet_step n (b'.' ∷ s) acc pos h ∙ dot_step s acc pos n (width n) (width-ne-zero n) room

-- the last octet ends the text
last_octet : (n acc : ℕ) → n < 256 → v4_fields (print_small n) acc 3 0 0 ≡ some (acc * 256 + n)
unfolding v4_fields
last_octet n acc h =
    ap (λ s. v4_fields s acc 3 0 0) (sym (append-nil (print_small n)))
    ∙ octet_step n [] acc 3 h
    ∙ ground (arith, width-ne-zero n)

parse_v4-print_v4 : (n : ℕ) → n < 2 ^ 32 → parse_v4 (print_v4 n) ≡ some n
unfolding parse_v4 print_v4
parse_v4-print_v4 n h =
    octet_dot (n / 2 ^ 24) _ 0 0 (omega arith) (omega arith)
    ∙ octet_dot (n / 2 ^ 16 % 256) _ _ 1 (omega arith) (omega arith)
    ∙ octet_dot (n / 2 ^ 8 % 256) _ _ 2 (omega arith) (omega arith)
    ∙ last_octet (n % 256) _ (omega arith)
    ∙ ap some (omega arith)

-- the bytes of an octet say nothing of the family
family_octet : (n : ℕ) (r s : Str) → n < 256 → family (print_small n ++ r) s ≡ family r s
unfolding family print_small
family_octet n r s h = ground arith

-- text that starts with an octet and a dot is read as IPv4
family_dotted :
    (n : ℕ) (r s : Str) → n < 256 → family (print_small n ++ (b'.' ∷ r)) s ≡ as_v4 (parse_v4 s)
unfolding family
family_dotted n r s h = family_octet n (b'.' ∷ r) s h

family-print_v4 : (n : ℕ) (s : Str) → n < 2 ^ 32 → family (print_v4 n) s ≡ as_v4 (parse_v4 s)
unfolding print_v4
family-print_v4 n s h = family_dotted (n / 2 ^ 24) _ s (omega arith)

-- Every IPv4 address is read back by ParseAddr from what Addr.String prints.
pub parse_addr-print_addr : (n : ℕ) → n < 2 ^ 32 → parse_addr (print_addr (v4 n)) ≡ some (v4 n)
unfolding parse_addr print_addr
parse_addr-print_addr n h = family-print_v4 n (print_v4 n) h ∙ ap as_v4 (parse_v4-print_v4 n h)

-- ===== src/Sidecar/KeyFile.antt =====
-- LoadOrCreateKey of internal/sidecar/key.go: the pod's private key in a file.
pub mod Kept
use wireguard_operator.Prelude.{
  ℕ, zero, suc, ◌+◌, ◌-◌, ◌*◌, ◌/◌, ◌%◌, ◌^◌, ◌≤◌, ◌<◌, compare, Ordering, String, length,
  get_elem?, filter, any, find?, In, In-append_left, In-append_right, All, All-In, All-of_In,
  All-append, All-map, Str, str_eq→≡, str_eq_refl, str_eq_iff, is_empty→≡, is_empty_nil, text,
  str_eq, is_empty, str_compare, cut, has_byte, join, contains, contains→In, In→contains,
  contains-false, Bool, true, false, not, ◌&&◌, ◌||◌, List, [], ◌∷◌, ◌++◌, map, ◌≢◌, ◌↔◌, ◌⊎◌, inl,
  inr, Option, none, some, ◌≡◌, refl, sym, ap, ◌∙◌, subst, arith, ltb, leb, ◌==◌, if◌then◌else◌,
  Bool-cases, ==→≡, ==_refl, ltb→lt, ltb→le,
}
use mathlib.Core.List.{reverse}
use wireguard_operator.Api.Exec.{
  ApiError, not_found, conflict, already_exists, invalid_object, other_error, Result, ok, err, Exec,
  pure, fail, attempt, ◌>>=◌, ◌>>◌,
}
use wireguard_operator.Api.External.{WgTypes, Key}

-- The calls of the operating system and of wgtypes: `not_found` is fs.ErrNotExist. A file that is
-- created with O_EXCL is one that was not there.
pub record KeyDisk (W : Type 0) : Type 0 where
  pub read_file : Str → Exec W Str
  pub create_exclusive : Str → Exec W Unit
  pub write_string : Str → Str → Exec W Unit
  pub close_file : Str → Exec W Unit
  pub generate_private_key : Exec W Key

-- White space as strings.TrimSpace knows it: ASCII's, and in UTF-8 U+0085, U+00A0, U+1680, U+2000 to
-- U+200A, U+2028, U+2029, U+202F, U+205F and U+3000.
unfoldable pub ascii_space : ℕ → Bool
ascii_space b = (leb 9 b && leb b 13) || b == 32

unfoldable pub wide2 : ℕ → ℕ → Bool
wide2 b c = b == 0xc2 && (c == 0x85 || c == 0xa0)

unfoldable pub wide3 : ℕ → ℕ → ℕ → Bool
wide3 b c d =
    (b == 0xe1 && c == 0x9a && d == 0x80)
    || (b == 0xe2
        && c == 0x80
        && ((leb 0x80 d && leb d 0x8a) || d == 0xa8 || d == 0xa9 || d == 0xaf))
    || (b == 0xe2 && c == 0x81 && d == 0x9f)
    || (b == 0xe3 && c == 0x80 && d == 0x80)

module _ (two : ℕ → ℕ → Bool) (three : ℕ → ℕ → ℕ → Bool) where
  abbrev wide : Str → Option Str
  wide (b ∷ c ∷ d ∷ s) = if two b c then some (d ∷ s) else if three b c d then some s else none
  wide (b ∷ c ∷ []) = if two b c then some [] else none
  wide _ = none

  -- the text after one leading space
  unfoldable pub skip_space : Str → Option Str
  unfolding ascii_space
  skip_space [] = none
  skip_space (b ∷ s) = if ascii_space b then some s else wide (b ∷ s)

  -- without its leading spaces: each round takes at least one byte
  unfoldable pub drop_spaces : ℕ → Str → Str
  unfolding skip_space
  drop_spaces zero s = s
  drop_spaces (suc fuel) s = elim (skip_space s) [ none ↦ s | some r ↦ drop_spaces fuel r ]

backward2 : ℕ → ℕ → Bool
unfolding wide2
backward2 b c = wide2 c b

backward3 : ℕ → ℕ → ℕ → Bool
unfolding wide3
backward3 b c d = wide3 d c b

-- strings.TrimSpace
unfoldable pub trim_space : Str → Str
unfolding drop_spaces wide2 wide3 backward2 backward3
trim_space s =
    let front = drop_spaces wide2 wide3 (length s) s in
    reverse (drop_spaces backward2 backward3 (length front) (reverse front))

module _ {W : Type 0} (disk : KeyDisk W) (wgtypes : WgTypes) where
  abbrev pub parsed : Option Key → Exec W Key
  parsed (some key) = pure key
  parsed none = fail (other_error [])

  -- the file is closed on every path; an error of that is returned as well
  abbrev pub closed : Str → Key → Result Unit → Exec W Key
  unfolding ◌>>=◌
  closed path key (ok u) = do disk.close_file path; pure key
  closed path key (err e) = do attempt (disk.close_file path); fail e

  unfoldable pub create_key : Str → Exec W Key
  unfolding ◌>>=◌ closed
  create_key path = do
    key ← disk.generate_private_key
    disk.create_exclusive path
    r ← attempt (disk.write_string path (wgtypes.key_text key))
    closed path key r

  abbrev pub key_read : Str → Result Str → Exec W Key
  unfolding create_key
  key_read path (ok content) = parsed (wgtypes.parse_key (trim_space content))
  key_read path (err not_found) = create_key path
  key_read path (err conflict) = fail conflict
  key_read path (err already_exists) = fail already_exists
  key_read path (err invalid_object) = fail invalid_object
  key_read path (err (other_error s)) = fail (other_error s)

  -- LoadOrCreateKey
  unfoldable pub load_or_create_key : Str → Exec W Key
  unfolding ◌>>=◌ key_read
  load_or_create_key path = do r ← attempt (disk.read_file path); key_read path r

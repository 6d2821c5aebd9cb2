-- ===== src/Sidecar/KeyFile/Kept.antt =====
-- The key that a sidecar has loaded once is the key that it loads from then on.
use wireguard_operator.Prelude.{
  ℕ, zero, suc, ◌<◌, length, All, All-append, Str, Bool, true, false, [], ◌∷◌, Option, none, some,
  ◌≡◌, refl, sym, ap, ◌∙◌, subst, arith, ltb, ltb→lt,
}
use mathlib.Core.List.{reverse, reverse-cons, reverse-reverse}
use wireguard_operator.Api.Exec.{
  Result, ok, err, not_found, conflict, already_exists, invalid_object, other_error, pure, fail,
  ◌>>=◌, Leaves, Leaves-pure, Leaves-fail, Leaves-then, Leaves-attempt,
}
use wireguard_operator.Api.External.{WgTypes, Key}
use wireguard_operator.Sidecar.KeyFile.{
  KeyDisk, ascii_space, wide2, wide3, backward2, backward3, skip_space, drop_spaces, trim_space,
  closed, parsed, create_key, key_read, load_or_create_key,
}

-- What the files hold, when nothing but this process writes them.
pub record Files (W : Type 0) (disk : KeyDisk W) : Type 0 where
  pub content : W → Str → Option Str
  pub read-content :
      (path : Str) (w : W) (s : Str)
      → (disk.read_file path w).0 ≡ ok s
      → (content w path ≡ some s) × (content (disk.read_file path w).1 path ≡ some s)
  pub create-content :
      (path : Str) (w : W)
      → (disk.create_exclusive path w).0 ≡ ok tt
      → content (disk.create_exclusive path w).1 path ≡ some []
  pub write-content :
      (path s : Str) (w : W)
      → content w path ≡ some []
      → (disk.write_string path s w).0 ≡ ok tt
      → content (disk.write_string path s w).1 path ≡ some s
  pub close-content :
      (path : Str) (w : W) → content (disk.close_file path w).1 path ≡ content w path

-- A byte of a key's text: base64, which is ASCII without white space.
abbrev pub IsPlain : ℕ → Type 0
IsPlain b = (ltb b 128 ≡ true) × (ascii_space b ≡ false)

skip_space-IsPlain :
    (two : ℕ → ℕ → Bool) (three : ℕ → ℕ → ℕ → Bool)
    → ((b c : ℕ) → b < 128 → c < 128 → two b c ≡ false)
    → ((b c d : ℕ) → b < 128 → c < 128 → d < 128 → three b c d ≡ false)
    → (s : Str) → All IsPlain s
    → skip_space two three s ≡ none
unfolding skip_space
skip_space-IsPlain two three h k [] p = refl
skip_space-IsPlain two three h k (b ∷ []) ((l, a), p) = rw a refl
skip_space-IsPlain two three h k (b ∷ c ∷ []) ((l, a), ((m, _), p)) =
    rw (a, h b c (ltb→lt b 128 l) (ltb→lt c 128 m)) refl
skip_space-IsPlain two three h k (b ∷ c ∷ d ∷ s) ((l, a), ((m, _), ((n, _), p))) =
    rw
      (
        a,
        h b c (ltb→lt b 128 l) (ltb→lt c 128 m),
        k b c d (ltb→lt b 128 l) (ltb→lt c 128 m) (ltb→lt d 128 n),
      )
      refl

drop_spaces_unchanged :
    (two : ℕ → ℕ → Bool) (three : ℕ → ℕ → ℕ → Bool) (fuel : ℕ) (s : Str)
    → skip_space two three s ≡ none
    → drop_spaces two three fuel s ≡ s
unfolding drop_spaces
drop_spaces_unchanged two three zero s h = refl
drop_spaces_unchanged two three (suc fuel) s h = rw (h, drop_spaces) refl

All-reverse : (s : Str) → All IsPlain s → All IsPlain (reverse s)
All-reverse [] h = tt
All-reverse (b ∷ s) (p, h) =
    subst (All IsPlain) (sym (reverse-cons b s))
      (All-append IsPlain (reverse s) (b ∷ []) (All-reverse s h) (p, tt))

narrow2 : (b c : ℕ) → b < 128 → c < 128 → wide2 b c ≡ false
unfolding wide2
narrow2 b c l m = ground arith

narrow3 : (b c d : ℕ) → b < 128 → c < 128 → d < 128 → wide3 b c d ≡ false
unfolding wide3
narrow3 b c d l m n = ground arith

trim_space-IsPlain : (s : Str) → All IsPlain s → trim_space s ≡ s
unfolding trim_space backward2 backward3
trim_space-IsPlain s p =
    let front : drop_spaces wide2 wide3 (length s) s ≡ s =
      drop_spaces_unchanged wide2 wide3 (length s) s
        (skip_space-IsPlain wide2 wide3 narrow2 narrow3 s p) in
    let back : drop_spaces backward2 backward3 (length s) (reverse s) ≡ reverse s =
      drop_spaces_unchanged backward2 backward3 (length s) (reverse s) (
        skip_space-IsPlain backward2 backward3 (λ b c l m. narrow2 c b m l)
          (λ b c d l m n. narrow3 d c b n m l) (reverse s) (All-reverse s p)) in
    rw (front, back) (reverse-reverse s)

module _ {W : Type 0} (disk : KeyDisk W) (files : Files W disk) (wgtypes : WgTypes)
    (plain : (key : Key) → All IsPlain (wgtypes.key_text key)) (path : Str) where
  -- The file holds a text that is read as the key.
  abbrev Holds : Key → W → Type 0
  Holds key w =
      (s : Str) × (files.content w path ≡ some s) × (wgtypes.parse_key (trim_space s) ≡ some key)

  closed-Holds :
      (key : Key) (r : Result Unit) (w : W)
      → (r ≡ ok tt → files.content w path ≡ some (wgtypes.key_text key))
      → Leaves Holds (closed disk wgtypes path key r) w
  unfolding closed
  closed-Holds key (ok v) w written =
      Leaves-then Holds (disk.close_file path) (λ u. pure key) w
        (λ u _. Leaves-pure Holds key _ (
          wgtypes.key_text key,
          files.close-content path w ∙ written refl,
          ap wgtypes.parse_key (trim_space-IsPlain (wgtypes.key_text key) (plain key))
              ∙ wgtypes.parse-text key,
        ))
  closed-Holds key (err e) w written =
      Leaves-attempt Holds (disk.close_file path) (λ r. fail e) w
        (λ r _. Leaves-fail Holds e (disk.close_file path w).1)

  create_key-Holds : (w : W) → Leaves Holds (create_key disk wgtypes path) w
  unfolding create_key
  create_key-Holds w = Leaves-then Holds disk.generate_private_key _ w (λ key _.
      let w1 : W = (disk.generate_private_key w).1 in
      Leaves-then Holds (disk.create_exclusive path) _ w1 (λ u made.
        let w2 : W = (disk.create_exclusive path w1).1 in
        Leaves-attempt Holds (disk.write_string path (wgtypes.key_text key))
          (closed disk wgtypes path key) w2
          (λ r wrote. closed-Holds key r (disk.write_string path (wgtypes.key_text key) w2).1 (λ e.
            files.write-content path (wgtypes.key_text key) w2 (files.create-content path w1 made)
              (wrote ∙ e)))))

  parsed-Holds :
      (s : Str) (w : W) (o : Option Key)
      → files.content w path ≡ some s
      → wgtypes.parse_key (trim_space s) ≡ o
      → Leaves Holds (parsed disk wgtypes o) w
  parsed-Holds s w none held e = Leaves-fail Holds (other_error []) w
  parsed-Holds s w (some key) held e = Leaves-pure Holds key w (s, held, e)

  key_read-Holds :
      (r : Result Str) (w : W)
      → (disk.read_file path w).0 ≡ r
      → Leaves Holds (key_read disk wgtypes path r) (disk.read_file path w).1
  unfolding key_read
  key_read-Holds (ok s) w h =
      parsed-Holds s _ (wgtypes.parse_key (trim_space s)) (files.read-content path w s h).1 refl
  key_read-Holds (err not_found) w h = create_key-Holds (disk.read_file path w).1
  key_read-Holds (err conflict) w h = Leaves-fail Holds conflict _
  key_read-Holds (err already_exists) w h = Leaves-fail Holds already_exists _
  key_read-Holds (err invalid_object) w h = Leaves-fail Holds invalid_object _
  key_read-Holds (err (other_error s)) w h = Leaves-fail Holds (other_error s) _

  load_or_create_key-Holds : (w : W) → Leaves Holds (load_or_create_key disk wgtypes path) w
  unfolding load_or_create_key
  load_or_create_key-Holds w =
      Leaves-attempt Holds (disk.read_file path) (key_read disk wgtypes path) w
        (λ r h. key_read-Holds r w h)

  -- The key that LoadOrCreateKey has returned, created or not, it returns from then on: from a later
  -- state in which the file holds the same and is read without error, it returns that key and does
  -- nothing but that read. Nothing else writes the file, and a key's text is base64.
  pub load_or_create_key-Kept :
      (w later : W) (key : Key) (s : Str)
      → (load_or_create_key disk wgtypes path w).0 ≡ ok key
      → files.content later path ≡ files.content (load_or_create_key disk wgtypes path w).1 path
      → (disk.read_file path later).0 ≡ ok s
      → load_or_create_key disk wgtypes path later ≡ (ok key, (disk.read_file path later).1)
  unfolding load_or_create_key key_read ◌>>=◌
  load_or_create_key-Kept w later key s h same read =
      let (t, held, valid) = load_or_create_key-Holds w key h in
      let both : some s ≡ some t = sym (files.read-content path later s read).0 ∙ same ∙ held in
      let now : wgtypes.parse_key (trim_space s) ≡ some key =
        subst (λ x. wgtypes.parse_key (trim_space x) ≡ some key) {x = t} {y = s} (cc) valid in
      rw (read, now) refl

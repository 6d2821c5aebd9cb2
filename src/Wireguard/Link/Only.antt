-- ===== src/Wireguard/Link/Only.antt =====
-- A synced link holds its one address.
use wireguard_operator.Prelude.{
  ℕ, ◌≢◌, In, Str, Bool, true, false, List, [], ◌∷◌, ◌↔◌, ◌⊎◌, inl, inr, ◌≡◌, refl, sym, ap, ◌∙◌,
  subst, if◌then◌else◌,
}
use wireguard_operator.Netip.Addr.{Prefix}
use wireguard_operator.Api.Exec.{ok, pure, ◌>>=◌, >>=-eq-run, Leaves, Leaves-then}
use wireguard_operator.Wireguard.{address_changes}
use wireguard_operator.Wireguard.Address.{address_changes-only}
use wireguard_operator.Wireguard.Netlink.{Link, Node, Addresses}
use wireguard_operator.Wireguard.Link.{remove_all, sync_address}

-- Which addresses a list holds, when it holds those of another list that the test lets through.
abbrev pub Same : List Prefix → (Prefix → Type 0) → Type 0
Same ps P = (q : Prefix) → In q ps ↔ P q

module _ {W : Type 0} (node : Node W) (kernel : Addresses W node) (link : Link) where
  -- the other links hold what they held
  abbrev Beside : W → W → Type 0
  Beside w w' = (i : ℕ) → i ≢ link.index → kernel.held w' i ≡ kernel.held w i

  remove_all-held :
      (ps : List Prefix) (w : W)
      → (remove_all node link ps w).0 ≡ ok tt
      → Same
          (kernel.held (remove_all node link ps w).1 link.index)
          (λ q. In q (kernel.held w link.index) × ¬ In q ps)
        × Beside w (remove_all node link ps w).1
  unfolding remove_all
  remove_all-held [] w h = (λ q. (λ m. (m, λ e. elim e [ ]), λ (m, k). m), λ i k. refl)
  remove_all-held (p ∷ ps) w h =
      let (_, gone, run) =
        >>=-eq-run (node.addr_del link p) (λ u. remove_all node link ps) w tt h in
      let (left, beside) =
        remove_all-held ps (node.addr_del link p w).1 (ap (λ r. r.0) (sym run) ∙ h) in
      (
        λ q.
            let one = kernel.del-held link p q w gone in
            rw run (
              λ m.
                  let (kept, fresh) = (left q).0 m in
                  let (there, other) = one.0 kept in
                  (there, λ k. elim k [ inl e ↦ other e | inr later ↦ fresh later ]),
              λ (m, k). (left q).1 (one.1 (m, λ e. k (inl e)), λ later. k (inr later)),
            ),
        λ i k. ap (λ r. kernel.held r.1 i) run ∙ beside i k ∙ kernel.del-other link p w i k,
      )

  add_if-held :
      (add : Bool) (want : Prefix) (w : W)
      → ((if add then node.addr_add link want else pure tt) w).0 ≡ ok tt
      → (add ≡ false → In want (kernel.held w link.index))
      → Same
          (kernel.held ((if add then node.addr_add link want else pure tt) w).1 link.index)
          (λ q. In q (kernel.held w link.index) ⊎ (q ≡ want))
        × Beside w ((if add then node.addr_add link want else pure tt) w).1
  add_if-held true want w h held =
      (λ q. kernel.add-held link want q w h, λ i k. kernel.add-other link want w i k)
  add_if-held false want w h held = (
    λ q. (
      λ m. inl m,
      λ m. elim m [
        | inl e ↦ e
        | inr e ↦ subst (λ x. In x (kernel.held w link.index)) (sym e) (held refl)
      ],
    ),
    λ i k. refl,
  )

  module _ (want : Prefix) where
    -- the link holds the wanted address alone, and the other links what they held in `w`
    abbrev pub OnlyWanted : W → Unit {0} → W → Type 0
    OnlyWanted w u w' = Same (kernel.held w' link.index) (λ q. q ≡ want) × Beside w w'

    after_removal :
        (have : List Prefix) (w w' : W)
        → have ≡ kernel.held w link.index
        → Same
            (kernel.held w' link.index)
            (λ q. In q (kernel.held w link.index) × ¬ In q (address_changes have want).0)
        → ((q : Prefix) → In q (kernel.held w' link.index) → q ≡ want)
          × ((address_changes have want).1 ≡ false → In want (kernel.held w' link.index))
    after_removal have w w' held left =
        let (others, never, listed) = address_changes-only have want in
        (
          λ q m.
              let (there, kept) = (left q).0 m in
              elim (others q (subst (In q) (sym held) there)) [
                | inl e ↦ e
                | inr gone ↦ absurd (kept gone)
              ],
          λ fresh. (left want).1 (subst (In want) held (listed fresh), never),
        )

    add_if-OnlyWanted :
        (add : Bool) (w w' : W)
        → ((q : Prefix) → In q (kernel.held w' link.index) → q ≡ want)
        → (add ≡ false → In want (kernel.held w' link.index))
        → Beside w w'
        → Leaves (OnlyWanted w) (if add then node.addr_add link want else pure tt) w'
    add_if-OnlyWanted add w w' only held beside u h =
        let (split, next) = add_if-held add want w' h held in
        (
          λ q. (
            λ m. elim ((split q).0 m) [ inl old ↦ only q old | inr e ↦ e ],
            λ e. (split q).1 (inr e),
          ),
          λ i k. next i k ∙ beside i k,
        )

    up-OnlyWanted :
        (w w' : W) → OnlyWanted w tt w' → Leaves (OnlyWanted w) (node.link_set_up link) w'
    up-OnlyWanted w w' (only, beside) u h =
        (rw (kernel.up-held link w' link.index) only, λ i k. kernel.up-held link w' i ∙ beside i k)

    -- the part of SyncAddress after the link is found
    changed-OnlyWanted :
        (have : List Prefix) (w w' : W)
        → have ≡ kernel.held w' link.index
        → Beside w w'
        → Leaves
            (OnlyWanted w)
            (remove_all node link (address_changes have want).0 >>= λ u.
              (if (address_changes have want).1 then node.addr_add link want else pure tt) >>= λ v.
              node.link_set_up link)
            w'
    changed-OnlyWanted have w w' listed beside =
        Leaves-then (OnlyWanted w) (remove_all node link (address_changes have want).0) _ w'
          (λ u e3.
            let w3 : W = (remove_all node link (address_changes have want).0 w').1 in
            let (left, next) = remove_all-held (address_changes have want).0 w' e3 in
            let (only, held) = after_removal have w' w3 listed left in
            Leaves-then (OnlyWanted w)
              (if (address_changes have want).1 then node.addr_add link want else pure tt) _ w3
              (λ v e4. up-OnlyWanted w _ (
                add_if-OnlyWanted (address_changes have want).1 w w3 only held
                  (λ i k. next i k ∙ beside i k) v e4)))

module _ {W : Type 0} (node : Node W) (kernel : Addresses W node) (want : Prefix) where
  abbrev pub Synced : Str → W → Unit {0} → W → Type 0
  Synced iface w u w' =
      (link : Link) × ((node.link_by_name iface w).0 ≡ ok link)
      × OnlyWanted node kernel link want w u w'

  -- When SyncAddress returns no error, then the wanted address is the only IPv4 address of the link
  -- that its interface names, and every other link holds the addresses that it held before, for a
  -- kernel whose addresses nothing else writes meanwhile.
  pub sync_address-Only :
      (iface : Str) (w : W)
      → (sync_address node iface want w).0 ≡ ok tt
      → Synced iface w tt (sync_address node iface want w).1
  unfolding sync_address
  sync_address-Only iface w h =
      Leaves-then (Synced iface w) (node.link_by_name iface) _ w
        (λ link e1.
          let w1 : W = (node.link_by_name iface w).1 in
          Leaves-then (Synced iface w) (node.addr_list link) _ w1 (λ have e2.
            let w2 : W = (node.addr_list link w1).1 in
            λ u e3. (
              link,
              e1,
              changed-OnlyWanted node kernel link want have w w2
                  (kernel.list-held link w1 have e2 ∙ sym (kernel.list-same link w1 link.index))
                  (λ i k. kernel.list-same link w1 i ∙ kernel.link-held iface w i) u e3,
            )))
        tt h

-- ===== src/Sidecar/Registration.antt =====
-- What the client does with the WireguardPeer named after its pod.
use wireguard_operator.Prelude.{
  ap, Str, str_eq_iff, text, Option, none, some, ◌≡◌, refl, sym, subst, arith,
}
use wireguard_operator.Api.Types.{WireguardPeer, OwnerReference, NamespacedName}
use wireguard_operator.Api.External.{Owners}
use wireguard_operator.Api.Exec.{Result, ok, err, ApiError, ◌>>=◌}
use wireguard_operator.Sidecar.{
  owner_uid, Config, PeerAction, create, keep, replace, refuse, desired_peer, judge, decide_peer,
  PodClient, ensure_peer, create_want, created, deleted, act, found,
}

abbrev pub v1 : Str
unfolding text
v1 = text "v1"

abbrev pub pod : Str
unfolding text
pod = text "Pod"

-- A peer that some Pod controls.
pub record PodControls (owners : Owners) (p : WireguardPeer) : Type 0 where
  pub owner : OwnerReference
  pub controls : owners.controller_of p.owner_references ≡ some owner
  pub version : owner.api_version ≡ v1
  pub kind : owner.kind ≡ pod

-- A peer that is this pod's: its Pod controls it, with the key and the Wireguard asked for.
pub record Own (owners : Owners) (cfg : Config) (public_key : Str) (p : WireguardPeer)
    : Type 0 where
  pub controlled : PodControls owners p
  pub uid : controlled.owner.uid ≡ cfg.pod_uid
  pub same_key : p.spec.public_key ≡ public_key
  pub same_wireguard : p.spec.wireguard_ref ≡ cfg.wireguard
  pub same_namespace : p.spec.wireguard_namespace ≡ cfg.wireguard_namespace

module _ (owners : Owners) (cfg : Config) (public_key : Str) where
  abbrev want : WireguardPeer
  want = desired_peer cfg public_key

  want_uid :
      owner_uid (owners.controller_of (desired_peer cfg public_key).owner_references) ≡ cfg.pod_uid
  unfolding desired_peer
  want_uid = ap owner_uid (owners.controller_of-only _ refl)

  judge-keep :
      (p : WireguardPeer) (o : Option OwnerReference)
      → owners.controller_of p.owner_references ≡ o
      → judge owners p (desired_peer cfg public_key) o ≡ keep
      → Own owners cfg public_key p
  unfolding judge desired_peer text v1 pod
  judge-keep p none e h = absurd (cc)
  judge-keep p (some o) e h = record {
    controlled = record {
      owner = o;
      controls = e;
      version = ground (arith, str_eq_iff o.api_version v1);
      kind = ground (arith, str_eq_iff o.kind pod);
    };
    uid = ground (
      arith,
      str_eq_iff o.uid
          (owner_uid (owners.controller_of (desired_peer cfg public_key).owner_references)),
      want_uid,
    );
    same_key = ground (arith, str_eq_iff p.spec.public_key public_key);
    same_wireguard = ground (arith, str_eq_iff p.spec.wireguard_ref cfg.wireguard);
    same_namespace = ground (arith, str_eq_iff p.spec.wireguard_namespace cfg.wireguard_namespace);
  }

  judge-replace :
      (p : WireguardPeer) (o : Option OwnerReference)
      → owners.controller_of p.owner_references ≡ o
      → judge owners p (desired_peer cfg public_key) o ≡ replace
      → PodControls owners p
  unfolding judge text v1 pod
  judge-replace p none e h = absurd (cc)
  judge-replace p (some o) e h = record {
    owner = o;
    controls = e;
    version = ground (arith, str_eq_iff o.api_version v1);
    kind = ground (arith, str_eq_iff o.kind pod);
  }

  -- decidePeer keeps a peer only when it is this pod's with this pod's key and Wireguard, and
  -- replaces a peer only when some Pod controls it.
  pub decide_peer-Own :
      (p : WireguardPeer)
      → (decide_peer owners (some p) (desired_peer cfg public_key) ≡ keep
          → Own owners cfg public_key p)
        × (decide_peer owners (some p) (desired_peer cfg public_key) ≡ replace
            → PodControls owners p)
  unfolding decide_peer
  decide_peer-Own p = (
    judge-keep p (owners.controller_of p.owner_references) refl,
    judge-replace p (owners.controller_of p.owner_references) refl,
  )

module _ {W : Type 0} (c : PodClient W) (owners : Owners) (cfg : Config) (public_key : Str) where
  created-none : (r : Result Unit) (w : W) (p : WireguardPeer) → ¬ ((created c r w).0 ≡ ok (some p))
  created-none (ok u) w p h = cc
  created-none (err ApiError.already_exists) w p h = cc
  created-none (err ApiError.not_found) w p h = cc
  created-none (err ApiError.conflict) w p h = cc
  created-none (err ApiError.invalid_object) w p h = cc
  created-none (err (ApiError.other_error s)) w p h = cc

  create_want-none :
      (q : WireguardPeer) (w : W) (p : WireguardPeer) → ¬ ((create_want c q w).0 ≡ ok (some p))
  unfolding create_want ◌>>=◌
  create_want-none q w p h = created-none (c.create_peer q w).0 (c.create_peer q w).1 p h

  deleted-none :
      (q : WireguardPeer) (r : Result Unit) (w : W) (p : WireguardPeer)
      → ¬ ((deleted c q r w).0 ≡ ok (some p))
  deleted-none q (ok u) w p h = create_want-none q w p h
  deleted-none q (err ApiError.not_found) w p h = create_want-none q w p h
  deleted-none q (err ApiError.conflict) w p h = create_want-none q w p h
  deleted-none q (err ApiError.already_exists) w p h = cc
  deleted-none q (err ApiError.invalid_object) w p h = cc
  deleted-none q (err (ApiError.other_error s)) w p h = cc

  act-some :
      (e p q : WireguardPeer) (key : NamespacedName) (a : PeerAction) (w : W)
      → (act c (some e) q key a w).0 ≡ ok (some p)
      → (a ≡ keep) × (p ≡ e)
  unfolding act ◌>>=◌
  act-some e p q key keep w h = (refl, cc)
  act-some e p q key refuse w h = absurd (cc)
  act-some e p q key create w h = absurd (create_want-none q w p h)
  act-some e p q key replace w h =
      absurd (deleted-none q (c.delete key e.uid w).0 (c.delete key e.uid w).1 p h)

  found-Own :
      (r : Result WireguardPeer) (key : NamespacedName) (w : W) (p : WireguardPeer)
      → (found c owners r (desired_peer cfg public_key) key w).0 ≡ ok (some p)
      → Own owners cfg public_key p
  unfolding found act decide_peer
  found-Own (ok e) key w p h =
      let (kept, same) =
        act-some e p (desired_peer cfg public_key) key
          (decide_peer owners (some e) (desired_peer cfg public_key)) w h in
      subst (Own owners cfg public_key) (sym same)
        ((decide_peer-Own owners cfg public_key e).0 kept)
  found-Own (err ApiError.not_found) key w p h =
      absurd (create_want-none (desired_peer cfg public_key) w p h)
  found-Own (err ApiError.conflict) key w p h = absurd (cc)
  found-Own (err ApiError.already_exists) key w p h = absurd (cc)
  found-Own (err ApiError.invalid_object) key w p h = absurd (cc)
  found-Own (err (ApiError.other_error s)) key w p h = absurd (cc)

  -- A peer that ensurePeer returns is this pod's: a Pod with this pod's UID controls it, and it has
  -- this pod's public key and the Wireguard and namespace of the configuration.
  pub ensure_peer-Own :
      (w : W) (p : WireguardPeer)
      → (ensure_peer c owners cfg public_key w).0 ≡ ok (some p)
      → Own owners cfg public_key p
  unfolding ensure_peer ◌>>=◌
  ensure_peer-Own w p h =
      let key : NamespacedName = record { namespace = cfg.pod_namespace; name = cfg.pod_name } in
      found-Own (c.get key w).0 key (c.get key w).1 p h

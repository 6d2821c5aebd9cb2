-- ===== src/Controller/Status/Told.antt =====
-- What syncPeerIdentity has done for each peer when it returns no error.
use wireguard_operator.Prelude.{
  All, Str, str_eq→≡, true, List, [], ◌∷◌, ◌⊎◌, inl, inr, ◌≡◌, refl, ap, ◌∙◌, arith,
}
use wireguard_operator.Api.Types.{Wireguard, WireguardPeer}
use wireguard_operator.Api.External.{Meta}
use wireguard_operator.Api.Client.{Client}
use wireguard_operator.Api.Exec.{
  ApiError, not_found, conflict, already_exists, invalid_object, other_error, Result, ok, err,
  ◌>>=◌,
}
use wireguard_operator.Api.Returns.{
  Answered, Refused, Returns, Returns-pure, Returns-if, Returns-then, Returns-attempt,
}
use wireguard_operator.Controller.Reconcile.{skip_peer_write}
use wireguard_operator.Controller.Status.{
  ServerIdentity, same_texts, carries, with_identity, skipping, sync_peer_identity,
}

module _ {W : Type 0} (c : Client W) where
  -- The status write of a peer was answered, or failed in a way that another event makes up for.
  abbrev pub Sent : WireguardPeer → Type 0
  Sent p =
      ((q : WireguardPeer) × Answered (c.update_peer_status p) q)
      ⊎ (Refused (c.update_peer_status p) not_found ⊎ Refused (c.update_peer_status p) conflict)

  -- The peer has the identity and the local networks in its status, or was sent them.
  pub record Told (wg : Wireguard) (id : ServerIdentity) (p : WireguardPeer) : Type 0 where
    pub wanted : WireguardPeer
    pub named : (wanted.name ≡ p.name) × (wanted.namespace ≡ p.namespace)
    pub endpoint : wanted.status.endpoint ≡ id.endpoint
    pub server_key : wanted.status.server_public_key ≡ id.public_key
    pub local_cidrs : wanted.status.local_cidrs ≡ wg.spec.local_cidrs
    pub done : (wanted ≡ p) ⊎ Sent wanted

  module _ (meta : Meta) (wg : Wireguard) (id : ServerIdentity) where
    same_texts→≡ : (ss ts : List Str) → same_texts c meta ss ts ≡ true → ss ≡ ts
    unfolding same_texts
    same_texts→≡ [] [] h = refl
    same_texts→≡ [] (t ∷ ts) h = absurd (cc)
    same_texts→≡ (s ∷ ss) [] h = absurd (cc)
    same_texts→≡ (s ∷ ss) (t ∷ ts) h =
        let rest = same_texts→≡ ss ts (ground arith) in
        let first : s ≡ t = str_eq→≡ s t (ground arith) in cc

    carries-Told : (p : WireguardPeer) → carries c meta wg id p ≡ true → Told wg id p
    unfolding carries
    carries-Told p h = record {
      wanted = p;
      named = (refl, refl);
      endpoint = str_eq→≡ p.status.endpoint id.endpoint (ground arith);
      server_key = str_eq→≡ p.status.server_public_key id.public_key (ground arith);
      local_cidrs = same_texts→≡ p.status.local_cidrs wg.spec.local_cidrs (ground arith);
      done = inl refl;
    }

    skipped :
        (e : ApiError) (w : W)
        → (skipping c meta (err e) w).0 ≡ ok tt
        → (e ≡ not_found) ⊎ (e ≡ conflict)
    unfolding skip_peer_write
    skipped not_found w h = inl refl
    skipped conflict w h = inr refl
    skipped already_exists w h = absurd (cc)
    skipped invalid_object w h = absurd (cc)
    skipped (other_error s) w h = absurd (cc)

    skipping-Sent :
        (p : WireguardPeer) (r : Result WireguardPeer) (w w' : W)
        → (c.update_peer_status p w).0 ≡ r
        → (skipping c meta r w').0 ≡ ok tt
        → Sent p
    skipping-Sent p (ok q) w w' e h = inl (q, (w, e))
    skipping-Sent p (err x) w w' e h = elim (skipped x w' h) [
      | inl gone ↦ inr (inl (w, e ∙ ap err gone))
      | inr stale ↦ inr (inr (w, e ∙ ap err stale))
    ]

    Sent-Told : (p : WireguardPeer) → Sent (with_identity c meta wg id p) → Told wg id p
    unfolding with_identity
    Sent-Told p s = record {
      wanted = with_identity c meta wg id p;
      named = (refl, refl);
      endpoint = refl;
      server_key = refl;
      local_cidrs = refl;
      done = inr s;
    }

    pub sync_peer_identity-Told :
        (ps : List WireguardPeer)
        → Returns (λ u. All (Told wg id) ps) (sync_peer_identity c meta wg id ps)
    unfolding sync_peer_identity
    sync_peer_identity-Told [] = Returns-pure _ tt tt
    sync_peer_identity-Told (p ∷ ps) =
        Returns-if (λ u. All (Told wg id) (p ∷ ps)) (carries c meta wg id p) _ _
          (λ same w a h. (carries-Told p same, sync_peer_identity-Told ps w a h))
          (λ _.
            Returns-attempt (λ u. All (Told wg id) (p ∷ ps))
              (c.update_peer_status (with_identity c meta wg id p))
              (λ r. skipping c meta r >>= λ u. sync_peer_identity c meta wg id ps)
              (λ r w e.
                Returns-then (λ u. All (Told wg id) (p ∷ ps)) (skipping c meta r) _
                  (λ u (w', done). λ w'' a h. (
                    Sent-Told p (skipping-Sent (with_identity c meta wg id p) r w w' e done),
                    sync_peer_identity-Told ps w'' a h,
                  ))))

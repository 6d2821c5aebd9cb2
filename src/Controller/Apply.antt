-- ===== src/Controller/Apply.antt =====
-- applyOwned of internal/controller/apply.go: server-side apply of one kind of owned object, after
-- the fields that the old field manager owned are moved to this operator's. The errors' wrapping
-- texts are left out.
use wireguard_operator.Prelude.{Bool, true, false, Option, none, some, if◌then◌else◌}
use wireguard_operator.Api.Types.{NamespacedName}
use wireguard_operator.Api.Exec.{
  ApiError, not_found, conflict, already_exists, invalid_object, other_error, Result, ok, err, Exec,
  pure, fail, attempt, ◌>>=◌, ◌>>◌,
}

-- apierrors.IsNotFound, apierrors.IsConflict
unfoldable pub is_not_found : ApiError → Bool
is_not_found not_found = true
is_not_found conflict = false
is_not_found already_exists = false
is_not_found invalid_object = false
is_not_found (other_error s) = false

unfoldable pub is_conflict : ApiError → Bool
is_conflict not_found = false
is_conflict conflict = true
is_conflict already_exists = false
is_conflict invalid_object = false
is_conflict (other_error s) = false

-- The calls of the client that an apply makes: `A` is what the operator renders, `B` what the
-- apiserver answers, `L` the live object's managed fields and `P` a patch of them. The conversion to
-- and from unstructured objects is part of `apply`.
pub record ObjectApi (W A B L P : Type 0) : Type 0 where
  pub key_of : A → NamespacedName
  pub gvk_for_object : A → Result Unit
  pub get_live : NamespacedName → Exec W L
  pub upgrade_managed_fields_patch : L → Result (Option P)
  pub patch : L → P → Exec W Unit
  pub apply : A → Exec W B

module _ {W : Type 0} where
  -- a computed result as a step that changes nothing
  abbrev pub returned : {A : Type 0} → Result A → Exec W A
  returned r w = (r, w)

  module _ {A B L P : Type 0} (api : ObjectApi W A B L P) where
    abbrev patched : L → Option P → Exec W Unit
    patched live none = pure tt
    patched live (some p) = api.patch live p

    abbrev migrated : Result L → Exec W Unit
    unfolding ◌>>=◌
    migrated (err e) = if is_not_found e then pure tt else fail e
    migrated (ok live) = do p ← returned (api.upgrade_managed_fields_patch live); patched live p

    -- applyOwned
    unfoldable pub apply_owned : A → Exec W B
    unfolding ◌>>=◌ migrated
    apply_owned obj = do
      returned (api.gvk_for_object obj)
      r ← attempt (api.get_live (api.key_of obj))
      migrated r
      api.apply obj

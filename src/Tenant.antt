-- ===== src/Tenant.antt =====
-- tenant.py: the tenant of a request is derived from its credential. SHA-256 is a parameter: the
-- hex digest of a text.
use mathlib.Core.List.{append_assoc}
use parcus.Prelude.{
  append_cancel, sym, ◌∙◌, Bool, true, false, Option, none, some, List, [], ◌∷◌, ◌++◌, ◌≡◌, ◌≢◌,
  ◌↔◌, refl, take, contains, is_empty, nat_eq, list_eq, ◌==◌, if◌then◌else◌,
}
use parcus.Text.{Text, codes}

abbrev pub Headers : Type 0
Headers = List (Text × Text)

abbrev pub anonymous_tenant : Text
anonymous_tenant = codes "anon"

-- `{k.lower(): v for k, v in headers}.get(name)`: the last header of the name counts. `lower` is
-- Python's `str.lower`.
unfoldable pub header : (Text → Text) → Text → Headers → Option Text
header lower name [] = none
header lower name ((k, v) ∷ hs) = elim (header lower name hs) [
  | some w ↦ some w
  | none ↦ if lower k == name then some v else none
]

-- `if credential:`
abbrev nonempty : Option Text → Option Text
nonempty (some (c ∷ t)) = some (c ∷ t)
nonempty _ = none

abbrev or_else : Option Text → Option Text → Option Text
or_else (some t) o = some t
or_else none o = o

-- The first of the two credential headers that is present and not empty.
unfoldable pub credential : (Text → Text) → Headers → Option Text
unfolding header
credential lower hs =
    or_else (nonempty (header lower (codes "x-api-key") hs))
      (nonempty (header lower (codes "authorization") hs))

unfoldable pub derive_tenant : (Text → Text) → (Text → Text) → Headers → Text → Text
unfolding credential
derive_tenant lower sha256_hex hs salt = elim (credential lower hs) [
  | none ↦ anonymous_tenant
  | some c ↦ take 16 (sha256_hex (salt ++ (codes "|" ++ c)))
]

unfoldable pub is_authorized : Text → List Text → Bool
is_authorized tenant allowed = if is_empty allowed then true else contains tenant allowed

-- A non-empty allow-list refuses exactly the tenants that it does not hold.
pub is_authorized-false_iff :
    (tenant : Text) (allowed : List Text)
    → (is_authorized tenant allowed ≡ false) ↔ ((allowed ≢ []) × (contains tenant allowed ≡ false))
unfolding is_authorized
is_authorized-false_iff tenant [] = (λ h. cc, λ h. absurd (h.0 refl))
is_authorized-false_iff tenant (a ∷ allowed) = (λ h. (λ e. cc, h), λ h. h.1)

module _ (lower sha256_hex : Text → Text) where
  -- The header names that the client chooses have no say: two requests with the same credential,
  -- whatever their other headers, have the same tenant, and one without a credential is anonymous.
  pub derive_tenant-credential :
      (hs gs : Headers) (salt : Text)
      → credential lower hs ≡ credential lower gs
      → derive_tenant lower sha256_hex hs salt ≡ derive_tenant lower sha256_hex gs salt
  unfolding derive_tenant
  derive_tenant-credential hs gs salt e = rw (e, derive_tenant)

  -- Two requests with credentials have the same tenant exactly if the credentials are the same,
  -- unless the truncated digests of the two collide.
  pub derive_tenant_iff :
      (hs gs : Headers) (salt c d : Text)
      → credential lower hs ≡ some c
      → credential lower gs ≡ some d
      → (take 16 (sha256_hex (salt ++ (codes "|" ++ c)))
            ≡ take 16 (sha256_hex (salt ++ (codes "|" ++ d)))
          → salt ++ (codes "|" ++ c) ≡ salt ++ (codes "|" ++ d))
      → (derive_tenant lower sha256_hex hs salt ≡ derive_tenant lower sha256_hex gs salt) ↔ (c ≡ d)
  unfolding derive_tenant
  derive_tenant_iff hs gs salt c d e f collide =
      rw (e, derive_tenant)
        (rw (f, derive_tenant)
          (
            λ h. append_cancel (salt ++ codes "|") c d (regroup c ∙ collide h ∙ sym (regroup d)),
            λ h. rw h,
          ))
    where
      regroup : (t : Text) → (salt ++ codes "|") ++ t ≡ salt ++ (codes "|" ++ t)
      regroup t = append_assoc salt (codes "|") t

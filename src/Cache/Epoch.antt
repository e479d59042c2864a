-- ===== src/Cache/Epoch.antt =====
-- cache/epoch.py: a key epoch for each tenant, which only rises. The two stores of the source, in
-- memory and in a table with the tenant as its key, are one association list here.
use parcus.Prelude.{
  ℕ, suc, ◌+◌, ◌≡◌, List, [], ◌∷◌, nat_eq, list_eq, list_beq_iff, ◌==◌, arith, if◌then◌else◌,
}
use parcus.Text.{Text}

abbrev pub Epochs : Type 0
Epochs = List (Text × ℕ)

-- `epoch`: 0 if the tenant has no row.
unfoldable pub epoch : Epochs → Text → ℕ
epoch [] tenant = 0
epoch ((t, e) ∷ es) tenant = if t == tenant then e else epoch es tenant

-- The upsert of `bump`.
unfoldable pub upsert : Epochs → Text → Epochs
upsert [] tenant = (tenant, 1) ∷ []
upsert ((t, e) ∷ es) tenant = if t == tenant then (t, e + 1) ∷ es else (t, e) ∷ upsert es tenant

unfoldable pub bump : Epochs → Text → Epochs × ℕ
unfolding upsert epoch
bump es tenant = let es' = upsert es tenant in (es', epoch es' tenant)

epoch-upsert :
    (es : Epochs) (t u : Text)
    → epoch (upsert es t) u ≡ (if t == u then epoch es u + 1 else epoch es u)
unfolding epoch upsert
epoch-upsert [] t u = ground arith
epoch-upsert ((v, e) ∷ es) t u =
    ground (arith, list_beq_iff t u, list_beq_iff v t, list_beq_iff v u, epoch-upsert es t u)

-- A bump raises its tenant's epoch by one, returns the new epoch, and changes no other tenant's.
pub epoch-bump :
    (es : Epochs) (t u : Text)
    → (epoch (bump es t).0 u ≡ (if t == u then epoch es u + 1 else epoch es u))
      × ((bump es t).1 ≡ epoch es t + 1)
unfolding bump
epoch-bump es t u = (epoch-upsert es t u, ground (arith, epoch-upsert es t t, list_beq_iff t t))

unfoldable pub bump_all : Epochs → List Text → Epochs
bump_all es [] = es
bump_all es (t ∷ ts) = bump_all (bump es t).0 ts

unfoldable pub count_of : Text → List Text → ℕ
count_of u [] = 0
count_of u (t ∷ ts) = if t == u then suc (count_of u ts) else count_of u ts

-- After any sequence of bumps a tenant's epoch has risen by the number of its own bumps: it never
-- falls, and a shred has no way back.
pub epoch-bump_all :
    (es : Epochs) (ts : List Text) (u : Text)
    → epoch (bump_all es ts) u ≡ epoch es u + count_of u ts
unfolding bump_all count_of
epoch-bump_all es [] u = omega arith
epoch-bump_all es (t ∷ ts) u =
    ground (arith, (epoch-bump es t u).0, epoch-bump_all (bump es t).0 ts u)

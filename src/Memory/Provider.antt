-- ===== src/Memory/Provider.antt =====
-- memory/provider.py: one memory for each tenant, built on first use. The memories are a port, of
-- type `M`; a call changes the memory that it was handed in place.
use parcus.Prelude.{
  lookup, insert, lookup-insert, ◌≡◌, ◌∙◌, refl, ap, sym, Option, none, some, List, [], ◌∷◌, nat_eq,
  list_eq, list_beq_iff, ◌==◌, Bool-cases, inl, inr, arith, if◌then◌else◌,
}
use parcus.Text.{Text}

module _ {M : Type 0} (factory : M) where
  abbrev pub Provider : Type 0
  Provider = List (Text × M)

  unfoldable pub memory_or_new : Option M → M
  memory_or_new none = factory
  memory_or_new (some m) = m

  -- `for_tenant`: the memory, and the provider that now holds it.
  unfoldable pub for_tenant : Provider → Text → Provider × M
  unfolding lookup insert memory_or_new
  for_tenant p tenant = elim (lookup tenant p) [
    | none ↦ (insert tenant factory p, factory)
    | some m ↦ (p, m)
  ]

  -- A call for a tenant: its memory is resolved, and changed in place by the call.
  unfoldable pub use_memory : Provider → Text → (M → M) → Provider
  unfolding for_tenant
  use_memory p tenant change = let (p', m) = for_tenant p tenant in insert tenant (change m) p'

  unfoldable pub use_all : Provider → List (Text × (M → M)) → Provider
  use_all p [] = p
  use_all p ((tenant, change) ∷ calls) = use_all (use_memory p tenant change) calls

  -- The memory that a tenant's next call is handed.
  unfoldable pub memory_of : Provider → Text → M
  memory_of p tenant = (for_tenant p tenant).1

  -- The tenant's own calls, applied in order.
  unfoldable pub own_calls : Text → List (Text × (M → M)) → M → M
  own_calls t [] m = m
  own_calls t ((tenant, change) ∷ calls) m = own_calls t calls (if tenant == t then change m else m)

  memory_of-lookup : (p : Provider) (t : Text) → memory_of p t ≡ memory_or_new (lookup t p)
  unfolding memory_of for_tenant
  memory_of-lookup p t = ground arith

  lookup-use_memory :
      (p : Provider) (tenant t : Text) (change : M → M)
      → lookup t (use_memory p tenant change)
        ≡ (if tenant == t then some (change (memory_of p tenant)) else lookup t p)
  unfolding use_memory memory_of for_tenant
  lookup-use_memory p tenant t change = ground (
    arith,
    lookup-insert t tenant (change factory) (insert tenant factory p),
    lookup-insert t tenant factory p,
    lookup-insert t tenant (change (memory_of p tenant)) p,
  )

  memory_of-use_memory :
      (p : Provider) (tenant t : Text) (change : M → M)
      → memory_of (use_memory p tenant change) t
        ≡ (if tenant == t then change (memory_of p t) else memory_of p t)
  unfolding memory_or_new
  memory_of-use_memory p tenant t change = elim (Bool-cases (tenant == t)) [
    | inl e ↦
        let own : lookup t (use_memory p tenant change) ≡ some (change (memory_of p tenant)) =
          lookup-use_memory p tenant t change ∙ rw e refl in
        let same : change (memory_of p tenant) ≡ change (memory_of p t) =
          ap (λ u. change (memory_of p u)) ((list_beq_iff tenant t).0 e) in
        rw e (memory_of-lookup (use_memory p tenant change) t ∙ ap memory_or_new own ∙ same)
    | inr e ↦
        let kept : lookup t (use_memory p tenant change) ≡ lookup t p =
          lookup-use_memory p tenant t change ∙ rw e refl in
        rw e (
          memory_of-lookup (use_memory p tenant change) t
          ∙ ap memory_or_new kept
          ∙ sym (memory_of-lookup p t))
  ]

  memory_of-use_all :
      (p : Provider) (calls : List (Text × (M → M))) (t : Text)
      → memory_of (use_all p calls) t ≡ own_calls t calls (memory_of p t)
  unfolding use_all own_calls
  memory_of-use_all p [] t = refl
  memory_of-use_all p ((tenant, change) ∷ calls) t =
      memory_of-use_all (use_memory p tenant change) calls t
      ∙ ap (own_calls t calls) (memory_of-use_memory p tenant t change)

  -- However the calls of the tenants are interleaved, the memory that a tenant is handed is a new
  -- memory changed by its own calls alone.
  pub memory_of-use_all_new :
      (calls : List (Text × (M → M))) (t : Text)
      → memory_of (use_all [] calls) t ≡ own_calls t calls factory
  memory_of-use_all_new calls t =
      memory_of-use_all [] calls t
      ∙ ap (own_calls t calls) (unfold memory_of for_tenant lookup in refl)

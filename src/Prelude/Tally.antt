-- ===== src/Prelude/Tally.antt =====
-- Tables of running totals: a loop over rows adds each to the entry of its key, which is created
-- when it is missing (`dict.setdefault`), and a comprehension makes a dict of pairs.
use mathlib.Core.Bool.{false}
use mathlib.Core.List.{◌++◌, List, [], ◌∷◌, map}
use mathlib.Core.Logic.{inl, inr}
use mathlib.Core.Option.{Option, none, some}
use mathlib.Core.Path.{◌∙◌, ◌≡◌, refl}
use native.Mathlib.Omega.{arith}
use parcus.Prelude.Assoc.{lookup, insert, lookup-insert}
use parcus.Prelude.Lists.{fold, keep_if}
use parcus.Prelude.Tests.{Eq, ◌==◌, beq_refl, Bool-cases, contains, if◌then◌else◌}

abbrev pub or_else {ℓ} : {A : Type ℓ} → A → Option A → A
or_else d none = d
or_else d (some a) = a

abbrev pub map_option {ℓ κ} : {A : Type ℓ} {B : Type κ} → (A → B) → Option A → Option B
map_option f none = none
map_option f (some a) = some (f a)

module _ {ℓ μ} {K : Type ℓ} {R : Type μ} ⦃e : Eq K⦄ (key : R → K) where
  -- The rows of one key.
  abbrev pub of_key : K → List R → List R
  of_key k = keep_if (λ row. key row == k)

module _ {ℓ κ μ} {K : Type ℓ} {V : Type κ} {R : Type μ} ⦃e : Eq K⦄ (key : R → K) (bump : R → V → V)
    (zero : V) where
  unfoldable pub upsert : R → List (K × V) → List (K × V)
  unfolding lookup insert
  upsert row d = insert (key row) (bump row (or_else zero (lookup (key row) d))) d

  other_sym : (j k : K) → (j == k) ≡ false → e.beq k j ≡ false
  other_sym j k h = ground (arith, e.beq_iff j k, e.beq_iff k j)

  of_key_none : (k : K) (rows : List R) → contains k (map key rows) ≡ false → of_key key k rows ≡ []
  of_key_none k [] h = refl
  of_key_none k (row ∷ rows) h =
      ground (arith, e.beq_iff k (key row), e.beq_iff (key row) k, of_key_none k rows)

  pub lookup-fold-upsert :
      (k : K) (rows : List R) (d : List (K × V))
      → lookup k (fold upsert rows d) ≡ (
          if contains k (map key rows)
          then some (fold bump (of_key key k rows) (or_else zero (lookup k d)))
          else lookup k d)
  unfolding upsert
  lookup-fold-upsert k [] d = refl
  lookup-fold-upsert k (row ∷ rows) d =
      rw
        (
          lookup-fold-upsert k rows (upsert row d),
          lookup-insert k (key row) (bump row (or_else zero (lookup (key row) d))) d,
        )
        (elim (Bool-cases (key row == k)) [
          | inl same ↦
              rw ((e.beq_iff (key row) k).0 same, beq_refl k) (ground (arith, of_key_none k rows))
          | inr other ↦ rw (other, other_sym (key row) k other) refl
        ])

module _ {ℓ κ} {K : Type ℓ} {V : Type κ} ⦃e : Eq K⦄ where
  -- `d[k] = v`
  unfoldable pub put_pair : K × V → List (K × V) → List (K × V)
  unfolding insert
  put_pair (k, v) = insert k v

  -- `{k: v for k, v in pairs}`: of pairs with one key the last one counts.
  unfoldable pub dict_of : List (K × V) → List (K × V)
  unfolding put_pair
  dict_of pairs = fold put_pair pairs []

  -- The value of the last pair of a key, or `o`.
  abbrev pub last_of : K → List (K × V) → Option V → Option V
  last_of k [] o = o
  last_of k ((j, v) ∷ pairs) o = last_of k pairs (if j == k then some v else o)

  pub last_of-append :
      (k : K) (ps qs : List (K × V)) (o : Option V)
      → last_of k (ps ++ qs) o ≡ last_of k qs (last_of k ps o)
  last_of-append k [] qs o = refl
  last_of-append k (p ∷ ps) qs o = last_of-append k ps qs _

  pub lookup-fold_put :
      (k : K) (pairs d : List (K × V))
      → lookup k (fold put_pair pairs d) ≡ last_of k pairs (lookup k d)
  unfolding put_pair
  lookup-fold_put k [] d = refl
  lookup-fold_put k ((j, v) ∷ pairs) d =
      rw (lookup-fold_put k pairs (insert j v d), lookup-insert k j v d) refl

  pub lookup-dict_of_pairs :
      (k : K) (pairs : List (K × V)) → lookup k (dict_of pairs) ≡ last_of k pairs none
  unfolding lookup dict_of
  lookup-dict_of_pairs k pairs = lookup-fold_put k pairs []

  last_of-map :
      (k : K) (f : K → V) (ks : List K) (o : Option V)
      → last_of k (map (λ k. (k, f k)) ks) o ≡ (if contains k ks then some (f k) else o)
  last_of-map k f [] o = refl
  last_of-map k f (j ∷ ks) o =
      rw (last_of-map k f ks (if j == k then some (f j) else o))
        (ground (arith, e.beq_iff j k, e.beq_iff k j))

  -- A dict of the values of a function.
  pub lookup-dict_of :
      (k : K) (f : K → V) (ks : List K)
      → lookup k (dict_of (map (λ k. (k, f k)) ks)) ≡ (if contains k ks then some (f k) else none)
  lookup-dict_of k f ks = lookup-dict_of_pairs k (map (λ k. (k, f k)) ks) ∙ last_of-map k f ks none

module _ {ℓ κ μ} {K : Type ℓ} {V : Type κ} {W : Type μ} ⦃e : Eq K⦄ where
  -- A dict whose values are mapped.
  pub lookup-map_values :
      (f : V → W) (k : K) (d : List (K × V))
      → lookup k (map (λ (entry : K × V). (entry.0, f entry.1)) d) ≡ map_option f (lookup k d)
  unfolding lookup
  lookup-map_values f k [] = refl
  lookup-map_values f k ((j, v) ∷ d) = ground (arith, lookup-map_values f k d)

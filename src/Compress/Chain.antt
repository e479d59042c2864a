-- ===== src/Compress/Chain.antt =====
-- compress/chain.py: passes run one after the other on the same request. The passes are objects
-- with state of their own (a sampler each), kept together in one store of type `S`.
use parcus.Prelude.{List, [], ◌∷◌, ◌++◌, ◌≡◌, ◌∙◌, refl, All}
use parcus.Model.{CanonicalRequest, CompressionStats}
use mathlib.Core.List.{append_assoc, append-nil}

abbrev pub Pass : Type 0 → Type 0
Pass S = S → CanonicalRequest → S × CanonicalRequest × List CompressionStats

module _ {S : Type 0} where
  -- compress/null.py
  abbrev pub null_pass : Pass S
  null_pass s r = (s, r, [])

  -- The loop of `compress`, with the statistics so far.
  unfoldable pub chain_from : List CompressionStats → List (Pass S) → Pass S
  chain_from stats [] s r = (s, r, stats)
  chain_from stats (p ∷ ps) s r =
      let (s', current, pass_stats) = p s r in chain_from (stats ++ pass_stats) ps s' current

  unfoldable pub chain : List (Pass S) → Pass S
  unfolding chain_from
  chain = chain_from []

  chain_from-eq :
      (stats : List CompressionStats) (ps : List (Pass S)) (s : S) (r : CanonicalRequest)
      → chain_from stats ps s r ≡ ((chain ps s r).0, (chain ps s r).1, stats ++ (chain ps s r).2)
  unfolding chain
  chain_from-eq stats [] s r = rw append-nil
  chain_from-eq stats (p ∷ ps) s r =
      let (s', current, pass_stats) = p s r in
      rw (
        chain_from-eq (stats ++ pass_stats) ps s' current,
        chain_from-eq pass_stats ps s' current,
        append_assoc,
      )

  chain_from-append :
      (stats : List CompressionStats) (ps qs : List (Pass S)) (s : S) (r : CanonicalRequest)
      → chain_from stats (ps ++ qs) s r
        ≡ (let (s', current, first) = chain_from stats ps s r in chain_from first qs s' current)
  unfolding chain_from
  chain_from-append stats [] qs s r = refl
  chain_from-append stats (p ∷ ps) qs s r =
      let (s', current, pass_stats) = p s r in
      chain_from-append (stats ++ pass_stats) ps qs s' current

  -- A chain of two parts runs the second on the state and the request that the first leaves, and
  -- reports the statistics of both in order.
  pub chain-append :
      (ps qs : List (Pass S)) (s : S) (r : CanonicalRequest)
      → chain (ps ++ qs) s r ≡ (
          let (s', current, first) = chain ps s r in
          let (s'', new, second) = chain qs s' current in (s'', new, first ++ second))
  unfolding chain
  chain-append ps qs s r =
      chain_from-append [] ps qs s r
      ∙ chain_from-eq (chain ps s r).2 qs (chain ps s r).0 (chain ps s r).1

  -- A relation that every pass of the chain keeps between its request and its result holds between
  -- the first request and the last result, if it is reflexive and transitive.
  pub chain_keeps :
      (R : CanonicalRequest → CanonicalRequest → Type 0)
      → ((r : CanonicalRequest) → R r r)
      → ((a b c : CanonicalRequest) → R a b → R b c → R a c)
      → (ps : List (Pass S))
      → All (λ (p : Pass S). (s : S) (r : CanonicalRequest) → R r (p s r).1) ps
      → (s : S) (r : CanonicalRequest) → R r (chain ps s r).1
  unfolding chain
  chain_keeps R reflexive transitive [] h s r = reflexive r
  chain_keeps R reflexive transitive (p ∷ ps) h s r =
      let (s', current, first) = p s r in
      rw (chain_from-eq first ps s' current)
        (transitive r current _ (h.0 s r) (chain_keeps R reflexive transitive ps h.1 s' current))

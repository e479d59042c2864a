-- ===== src/Proxy/Engine/Inject.antt =====
-- proxy/engine.py, `_inject_cache_breakpoint`: what the injection can do to a request.
use mathlib.Core.Path.{subst}
use parcus.Prelude.{
  ℕ, ◌-◌, ◌≤◌, ◌≡◌, ◌⊎◌, refl, ap, ◌∙◌, true, false, Option, none, some, ◌∷◌, ◌++◌, length, ltb,
  Bool-cases, Option-cases, inl, inr, arith, nat_eq, list_eq,
}
use parcus.Text.{Text}
use parcus.Model.{Dialect, anthropic, openai, gemini, unknown, CanonicalRequest}
use parcus.Compress.Rewrite.{Counter}
use parcus.Cache.Seen.{PrefixSeenSet, record_and_check}
use parcus.Cache.Strategy.{
  anthropic_strategy, capability, boundary_of, cacheable_boundary, annotate, cache_strategy,
  annotate-cases,
}
use parcus.Proxy.Engine.{
  EngineConfig, explicit, prefix_of, safe_count, mark_prefix, has_cache_control,
  inject_cache_breakpoint,
}

-- What an injection that marks a request has found out about it.
pub record Qualifies (sha256_hex : Text → Text) (count : Counter) (config : EngineConfig)
    (seen : PrefixSeenSet) (now : ℕ) (tenant : Text) (r : CanonicalRequest) : Type 0 where
  pub enabled : config.cache_inject ≡ true
  pub by_anthropic : r.dialect ≡ anthropic
  pub unmarked : has_cache_control r.messages ≡ false
  pub turns : 2 ≤ length r.messages
  pub large : 4096 ≤ safe_count count (prefix_of r (length r.messages - 1)) r.model
  pub repeated :
      (config.cache_inject_repeat_aware ≡ false)
      ⊎ ((record_and_check seen now
            (sha256_hex (config.salt ++ (0 ∷ prefix_of r (length r.messages - 1))))
            tenant).1
          ≡ true)

module _ (sha256_hex : Text → Text) (count : Counter) (config : EngineConfig) (seen : PrefixSeenSet)
    (now : ℕ) (tenant : Text) (r : CanonicalRequest) where
  mark_prefix-cases :
      (boundary : ℕ)
      → r.dialect ≡ anthropic
      → ((mark_prefix sha256_hex count config seen now tenant r boundary).1 ≡ r)
        ⊎ ((1 ≤ boundary)
            × (4096 ≤ safe_count count (prefix_of r boundary) r.model)
            × ((config.cache_inject_repeat_aware ≡ false)
                ⊎ ((record_and_check seen now
                      (sha256_hex (config.salt ++ (0 ∷ prefix_of r boundary)))
                      tenant).1
                    ≡ true))
            × ((mark_prefix sha256_hex count config seen now tenant r boundary).1
                ≡ annotate anthropic_strategy r))
  unfolding mark_prefix cache_strategy capability
  mark_prefix-cases boundary d = elim (Bool-cases (ltb boundary 1)) [
    | inl e ↦ inl (rw (e, mark_prefix) refl)
    | inr e ↦ elim (Bool-cases (ltb (safe_count count (prefix_of r boundary) r.model) 4096)) [
      | inl s ↦ inl (rw (e, mark_prefix) (rw d (rw (s, mark_prefix) refl)))
      | inr s ↦ elim (Bool-cases config.cache_inject_repeat_aware) [
        | inr a ↦ inr (
          ground arith,
          ground arith,
          inl a,
          rw (e, mark_prefix) (rw d (rw (s, mark_prefix) (rw a refl))),
        )
        | inl a ↦
            elim (Bool-cases
              (record_and_check seen now (sha256_hex (config.salt ++ (0 ∷ prefix_of r boundary)))
                tenant).1) [
                  | inl q ↦ inr (
                    ground arith,
                    ground arith,
                    inr q,
                    rw (e, mark_prefix) (rw d (rw (s, mark_prefix) (rw a (rw q refl)))),
                  )
                  | inr q ↦
                      inl (rw (e, mark_prefix) (rw d (rw (s, mark_prefix) (rw a (rw q refl)))))
                ]
      ]
    ]
  ]

  boundary_of_turns :
      (boundary : ℕ)
      → boundary_of r.messages r.system r.tools_json ≡ some boundary
      → 1 ≤ boundary
      → (boundary ≡ length r.messages - 1) × (2 ≤ length r.messages)
  unfolding boundary_of
  boundary_of_turns boundary h p = ground arith

  explicit_by_anthropic :
      (d : Dialect) → explicit (capability (cache_strategy d)).model ≡ true → d ≡ anthropic
  unfolding capability cache_strategy
  explicit_by_anthropic anthropic h = refl
  explicit_by_anthropic openai h = cc
  explicit_by_anthropic gemini h = cc
  explicit_by_anthropic unknown h = cc

  boundary_by_anthropic :
      (d : Dialect)
      → d ≡ anthropic
      → (explicit (capability (cache_strategy d)).model ≡ true)
        × (cacheable_boundary (cache_strategy d) r ≡ boundary_of r.messages r.system r.tools_json)
  unfolding capability cache_strategy cacheable_boundary
  boundary_by_anthropic anthropic h = (refl, refl)
  boundary_by_anthropic openai h = absurd (cc h)
  boundary_by_anthropic gemini h = absurd (cc h)
  boundary_by_anthropic unknown h = absurd (cc h)

  -- Up to the boundary: what is left is `none` if there is none.
  inject_some :
      (boundary : Option ℕ)
      → config.cache_inject ≡ true
      → r.dialect ≡ anthropic
      → has_cache_control r.messages ≡ false
      → boundary_of r.messages r.system r.tools_json ≡ boundary
      → inject_cache_breakpoint sha256_hex count config seen now tenant r ≡ (elim boundary [
        | none ↦ (seen, r)
        | some b ↦ mark_prefix sha256_hex count config seen now tenant r b
      ])
  unfolding inject_cache_breakpoint
  inject_some boundary e d u h =
      let (x, q) = boundary_by_anthropic r.dialect d in
      rw (e, inject_cache_breakpoint)
        (rw (x, inject_cache_breakpoint)
          (rw (u, inject_cache_breakpoint) (rw (q ∙ h, inject_cache_breakpoint) refl)))

  qualified :
      (boundary : ℕ)
      → config.cache_inject ≡ true
      → r.dialect ≡ anthropic
      → has_cache_control r.messages ≡ false
      → boundary_of r.messages r.system r.tools_json ≡ some boundary
      → ((inject_cache_breakpoint sha256_hex count config seen now tenant r).1 ≡ r)
        ⊎ (Qualifies sha256_hex count config seen now tenant r
            × ((inject_cache_breakpoint sha256_hex count config seen now tenant r).1
                ≡ record r { cache_breakpoint = some (length r.messages - 2) }))
  qualified boundary e d u h =
      let marked = inject_some (some boundary) e d u h in
      elim (mark_prefix-cases boundary d) [
        | inl same ↦ inl (rw marked same)
        | inr (p, large, again, new) ↦
            let (last, turns) = boundary_of_turns boundary h p in
            inr (
              record {
                enabled = e;
                by_anthropic = d;
                unmarked = u;
                turns = turns;
                large = subst (λ b. 4096 ≤ safe_count count (prefix_of r b) r.model) last large;
                repeated =
                    subst
                      (λ b.
                        (config.cache_inject_repeat_aware ≡ false)
                        ⊎ ((record_and_check seen now
                              (sha256_hex (config.salt ++ (0 ∷ prefix_of r b))) tenant).1
                            ≡ true))
                      last again;
              },
              rw marked (new ∙ annotate-cases anthropic_strategy r ∙ ground arith),
            )
      ]

  -- The injection returns the request itself, or the request with nothing changed but the marker,
  -- which then stands at the turn before the last. It marks only if it is switched on, the provider
  -- is Anthropic, no block carries a marker already, there are two turns or more, the prefix has at
  -- least 4096 tokens, and, if repeats are asked for, the tenant's prefix was seen before.
  pub inject_cache_breakpoint-cases :
      ((inject_cache_breakpoint sha256_hex count config seen now tenant r).1 ≡ r)
      ⊎ (Qualifies sha256_hex count config seen now tenant r
          × ((inject_cache_breakpoint sha256_hex count config seen now tenant r).1
              ≡ record r { cache_breakpoint = some (length r.messages - 2) }))
  unfolding inject_cache_breakpoint
  inject_cache_breakpoint-cases = elim (Bool-cases config.cache_inject) [
    | inr e ↦ inl (rw (e, inject_cache_breakpoint) refl)
    | inl e ↦ elim (Bool-cases (explicit (capability (cache_strategy r.dialect)).model)) [
      | inr x ↦ inl (rw (e, inject_cache_breakpoint) (rw (x, inject_cache_breakpoint) refl))
      | inl x ↦ elim (Bool-cases (has_cache_control r.messages)) [
        | inl u ↦ inl (
            rw (e, inject_cache_breakpoint)
              (rw (x, inject_cache_breakpoint) (rw (u, inject_cache_breakpoint) refl)))
        | inr u ↦ elim (Option-cases (boundary_of r.messages r.system r.tools_json)) [
          | inl h ↦ inl (ap (λ o. o.1) (inject_some none e (explicit_by_anthropic r.dialect x) u h))
          | inr (boundary, h) ↦ qualified boundary e (explicit_by_anthropic r.dialect x) u h
        ]
      ]
    ]
  ]

-- ===== src/Proxy/Engine/Answers.antt =====
-- proxy/engine.py: what becomes of the upstream's answer, and of the same request when it comes again.
use mathlib.Core.Path.{subst}
use parcus.Prelude.{
  ℕ, ◌≡◌, ◌⊎◌, sym, ◌∙◌, List, [], ◌∷◌, true, arith, refl, ap, Bool, false, Option, none, some,
  Bool-cases, Option-cases, inl, inr,
}
use parcus.Text.{Text, codes}
use parcus.Json.{Value, Fields, num, get}
use parcus.Model.{Dialect, anthropic, openai, gemini, unknown}
use parcus.Proxy.Usage.{
  ProviderUsage, to_int, counts, cached_tokens, usage_of, usage_key, parse_usage, as_dict,
}
use parcus.Proxy.Engine.{EngineConfig, response_headers}
use parcus.Proxy.Engine.Ports.{Bytes, Ports, Externals, Engine}
use parcus.Proxy.Engine.Result.{UpstreamResponse, Pending, is_success}
use parcus.Proxy.Engine.Finish.{keep, usage_reported, finish}

-- The values that `parse_usage` makes integers of, by the dialect.
abbrev pub reported : Dialect → Fields → List (Option Value)
unfolding get cached_tokens
reported gemini usage =
    get (codes "promptTokenCount") usage
    ∷ get (codes "candidatesTokenCount") usage
    ∷ get (codes "cachedContentTokenCount") usage
    ∷ []
reported anthropic usage =
    get (codes "input_tokens") usage
    ∷ get (codes "output_tokens") usage
    ∷ get (codes "cache_read_input_tokens") usage
    ∷ get (codes "cache_creation_input_tokens") usage
    ∷ []
reported openai usage =
    get (codes "prompt_tokens") usage
    ∷ get (codes "completion_tokens") usage
    ∷ cached_tokens (as_dict (get (codes "prompt_tokens_details") usage))
    ∷ []
reported unknown usage = []

-- A number that cannot be made an integer: an infinite one, or NaN.
abbrev pub IsInfinite : (Text → Option ℕ) → Option Value → Type 0
IsInfinite int_of v = (nonzero : Bool) × (t : Text) × (v ≡ some (num nonzero t)) × (int_of t ≡ none)

abbrev pub Any : (Option Value → Type 0) → List (Option Value) → Type 0
Any P [] = ⊥
Any P (v ∷ vs) = P v ⊎ Any P vs

-- A step raises just if `Bad` holds.
abbrev RaisesIf : {A : Type 0} → Option A → Type 0 → Type 0
RaisesIf {A} o Bad = ((o ≡ none) × Bad) ⊎ ((a : A) × (o ≡ some a) × (Bad → ⊥))

to_int-RaisesIf :
    (int_of : Text → Option ℕ) (v : Option Value) → RaisesIf (to_int int_of v) (IsInfinite int_of v)
unfolding to_int
to_int-RaisesIf int_of (some (num nonzero t)) = elim (Option-cases (int_of t)) [
  | inl e ↦ inl (e, (nonzero, t, refl, e))
  | inr (n, e) ↦ inr (n, e, λ (m, s, q, bad). absurd (ground (arith, q, bad, e)))
]
to_int-RaisesIf int_of none = inr (0, refl, λ (m, s, q, bad). absurd (cc q))
to_int-RaisesIf int_of (some _) = inr (0, refl, λ (m, s, q, bad). absurd (cc q))

counts-RaisesIf :
    (a b c d : Option ℕ) (P Q R T : Type 0)
    → RaisesIf a P
    → RaisesIf b Q
    → RaisesIf c R
    → RaisesIf d T
    → RaisesIf (counts a b c d) (P ⊎ (Q ⊎ (R ⊎ T)))
counts-RaisesIf a b c d P Q R T (inl (e, x)) q r t = inl (rw e refl, inl x)
counts-RaisesIf a b c d P Q R T (inr (i, e, no_p)) (inl (f, x)) r t =
    inl (rw (e, f) refl, inr (inl x))
counts-RaisesIf a b c d P Q R T (inr (i, e, no_p)) (inr (j, f, no_q)) (inl (g, x)) t =
    inl (rw (e, f, g) refl, inr (inr (inl x)))
counts-RaisesIf a b c d P Q R T (inr (i, e, no_p)) (inr (j, f, no_q)) (inr (k, g, no_r))
      (inl (h, x)) =
    inl (rw (e, f, g, h) refl, inr (inr (inr x)))
counts-RaisesIf a b c d P Q R T (inr (i, e, no_p)) (inr (j, f, no_q)) (inr (k, g, no_r))
      (inr (l, h, no_t)) =
    let counted : ProviderUsage = record {
      input_tokens = i;
      output_tokens = j;
      cache_read_tokens = k;
      cache_write_tokens = l;
    } in
    inr (
      some counted,
      rw (e, f, g, h) refl,
      λ bad. elim bad [
        | inl x ↦ no_p x
        | inr (inl x) ↦ no_q x
        | inr (inr (inl x)) ↦ no_r x
        | inr (inr (inr x)) ↦ no_t x
      ],
    )

widen : {A : Type 0} (o : Option A) (P : Type 0) → RaisesIf o P → RaisesIf o (P ⊎ ⊥)
widen o P (inl (e, x)) = inl (e, inl x)
widen o P (inr (a, e, fine)) = inr (a, e, λ bad. elim bad [ inl x ↦ fine x | inr x ↦ x ])

usage_of-RaisesIf :
    (int_of : Text → Option ℕ) (dialect : Dialect) (usage : Fields)
    → RaisesIf (usage_of int_of dialect usage) (Any (IsInfinite int_of) (reported dialect usage))
unfolding usage_of reported
usage_of-RaisesIf int_of unknown usage = inr (none, refl, λ bad. bad)
usage_of-RaisesIf int_of gemini usage =
    counts-RaisesIf _ _ _ _ _ _ _ _ (to_int-RaisesIf int_of _) (to_int-RaisesIf int_of _)
      (to_int-RaisesIf int_of _) (inr (0, refl, λ bad. bad))
usage_of-RaisesIf int_of anthropic usage =
    counts-RaisesIf _ _ _ _ _ _ _ _ (to_int-RaisesIf int_of _) (to_int-RaisesIf int_of _)
      (to_int-RaisesIf int_of _) (widen _ _ (to_int-RaisesIf int_of _))
usage_of-RaisesIf int_of openai usage =
    counts-RaisesIf _ _ _ _ _ _ _ _ (to_int-RaisesIf int_of _) (to_int-RaisesIf int_of _)
      (to_int-RaisesIf int_of _) (inr (0, refl, λ bad. bad))

-- The answer's usage reports an infinite number.
abbrev pub ReportsInfinite : (Bytes → Option Value) → (Text → Option ℕ) → Dialect → Bytes → Type 0
unfolding reported
ReportsInfinite loads int_of dialect content =
    (decoded usage : Fields) × (as_dict (loads content) ≡ some decoded)
    × (as_dict (get (usage_key dialect) decoded) ≡ some usage)
    × Any (IsInfinite int_of) (reported dialect usage)

parse_usage-RaisesIf :
    (loads : Bytes → Option Value) (int_of : Text → Option ℕ) (dialect : Dialect) (content : Bytes)
    → RaisesIf
        (parse_usage loads int_of dialect content)
        (ReportsInfinite loads int_of dialect content)
unfolding parse_usage ReportsInfinite
parse_usage-RaisesIf loads int_of dialect content = elim (Option-cases (as_dict (loads content))) [
  | inl e ↦ inr (none, rw (e, parse_usage) refl, λ (d, u, q, r, bad). absurd (cc (sym e ∙ q)))
  | inr (decoded, e) ↦ elim (Option-cases (as_dict (get (usage_key dialect) decoded))) [
    | inl g ↦ inr (
      none,
      rw (e, parse_usage) (rw (g, parse_usage) refl),
      λ (d, u, q, r, bad).
          let same : decoded ≡ d = cc (sym e ∙ q) in
          let none_there : none ≡ some u =
            sym g ∙ subst (λ x. as_dict (get (usage_key dialect) x) ≡ some u) (sym same) r in
          absurd (cc none_there),
    )
    | inr (usage, g) ↦ elim (usage_of-RaisesIf int_of dialect usage) [
      | inl (n, bad) ↦
          inl (rw (e, parse_usage) (rw (g, parse_usage) n), (decoded, usage, e, g, bad))
      | inr (u, n, fine) ↦ inr (
        u,
        rw (e, parse_usage) (rw (g, parse_usage) n),
        λ (d, v, q, r, bad).
            let same : decoded ≡ d = cc (sym e ∙ q) in
            let there : some usage ≡ some v =
              sym g ∙ subst (λ x. as_dict (get (usage_key dialect) x) ≡ some v) (sym same) r in
            let equal : usage ≡ v = cc there in
            fine (subst (λ x. Any (IsInfinite int_of) (reported dialect x)) (sym equal) bad),
      )
    ]
  ]
]

module _ {S : Type 0} (ext : Externals) (ports : Ports S) (config : EngineConfig) where
  -- The upstream's answer comes back to the client, with its status and its content as they are, its
  -- headers but the hop ones, and what was found out of the request before the call; but `_handle`
  -- raises, and the answer is lost, exactly if it is a success whose usage reports an infinite number.
  pub finish-cases :
      (engine : Engine S) (now : ℕ) (pending : Pending) (response : UpstreamResponse)
      → (((finish ext ports config engine now pending response).1 ≡ none)
          × (is_success response.status_code ≡ true)
          × ReportsInfinite ext.loads ext.int_of pending.dialect response.content)
        ⊎ ((usage : Option ProviderUsage) × ((finish ext ports config engine now pending response).1
              ≡ some (record {
                status_code = response.status_code;
                headers = response_headers ext.lower response.headers;
                content = response.content;
                meta = record pending.meta { upstream_usage = usage };
              }))
            × (is_success response.status_code ≡ true
                → ReportsInfinite ext.loads ext.int_of pending.dialect response.content
                → ⊥))
  unfolding finish usage_reported
  finish-cases engine now pending response = elim (Bool-cases (is_success response.status_code)) [
    | inr e ↦ inr (none, rw (e, finish) refl, λ ok bad. absurd (ground (arith, e, ok)))
    | inl e ↦ elim (parse_usage-RaisesIf ext.loads ext.int_of pending.dialect response.content) [
      | inl (n, bad) ↦ inl (rw (e, finish) (rw n refl), e, bad)
      | inr (u, n, fine) ↦ inr (u, rw (e, finish) (rw n refl), λ ok bad. fine bad)
    ]
  ]

  keep-unchanged :
      (s : S) (now : ℕ) (pending : Pending) (response : UpstreamResponse)
      → (is_success response.status_code ≡ false) ⊎ (pending.cache_key ≡ none)
      → keep ext ports config s now pending response ≡ s
  unfolding keep
  keep-unchanged s now pending response h = elim (Option-cases pending.cache_key) [
    | inl k ↦ rw (k, keep) refl
    | inr (key, k) ↦ elim h [
      | inl failed ↦ rw (k, keep) (rw (failed, keep) refl)
      | inr absent ↦ rw (absent, keep) refl
    ]
  ]

  -- Nothing is cached of an answer that is not a success, or of a request without a key: the engine
  -- stays as it is.
  pub finish-unchanged :
      (engine : Engine S) (now : ℕ) (pending : Pending) (response : UpstreamResponse)
      → (is_success response.status_code ≡ false) ⊎ (pending.cache_key ≡ none)
      → (finish ext ports config engine now pending response).0 ≡ engine
  unfolding finish
  finish-unchanged engine now pending response h =
      ap (λ s. record engine { ports = s }) (keep-unchanged engine.ports now pending response h)

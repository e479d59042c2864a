-- ===== src/Proxy/Server/Headers.antt =====
-- proxy/app.py: what a client reads in the headers of an answer. `lower` is `str.lower`: the names of
-- headers are compared without their case.
use parcus.Prelude.{
  ◌∙◌, ◌≡◌, refl, ap, Bool, false, not, Option, none, some, List, [], ◌∷◌, All, map, fold, lookup,
  insert, lookup-insert, lookup-fold_put, dict_of, put_pair, last_of, keep_if, contains, ◌==◌,
  nat_eq, list_eq, list_beq_iff, arith, Bool-cases, inl, inr, if◌then◌else◌,
}
use parcus.Text.{Text}
use parcus.Proxy.Engine.{drop_response_headers}
use parcus.Proxy.Engine.Result.{ProxyResult}
use parcus.Proxy.Server.{
  Headers, Framework, assign_pair, meta_headers, result_to_response, relayed_headers,
}

-- What a client reads under one name.
abbrev pub values : (Text → Text) → Text → Headers → List Text
values lower k hs =
    map (λ (h : Text × Text). h.1) (keep_if (λ (h : Text × Text). lower h.0 == lower k) hs)

abbrev pub one_or : List Text → Option Text → List Text
one_or vs none = vs
one_or vs (some v) = v ∷ []

-- The names are in lower case, as httpx gives those of the upstream, and as the proxy's own are.
abbrev pub IsLowered : (Text → Text) → Headers → Type 0
IsLowered lower = All (λ (h : Text × Text). lower h.0 ≡ h.0)

-- How the framework assigns a header: it replaces what stood under the name, and nothing else.
pub record Assigns (lower : Text → Text) (web : Framework) : Type 0 where
  pub replaces : (k v : Text) (hs : Headers) → values lower k (web.assign k v hs) ≡ v ∷ []
  pub keeps :
      (j k v : Text) (hs : Headers)
      → (lower k == lower j) ≡ false
      → values lower j (web.assign k v hs) ≡ values lower j hs

-- No name twice.
abbrev IsDict : Headers → Type 0
IsDict [] = Unit
IsDict (h ∷ hs) = (lookup h.0 hs ≡ none) × IsDict hs

insert-IsDict : (k v : Text) (d : Headers) → IsDict d → IsDict (insert k v d)
unfolding insert lookup
insert-IsDict k v [] h = (refl, tt)
insert-IsDict k v ((j, w) ∷ d) (absent, h) = elim (Bool-cases (j == k)) [
  | inl same ↦ rw same (absent, h)
  | inr other ↦ rw other (
    rw (lookup-insert j k v d) (ground (arith, list_beq_iff j k, list_beq_iff k j, absent)),
    insert-IsDict k v d h,
  )
]

fold_put-IsDict : (pairs d : Headers) → IsDict d → IsDict (fold put_pair pairs d)
unfolding put_pair
fold_put-IsDict [] d h = h
fold_put-IsDict ((j, v) ∷ pairs) d h = fold_put-IsDict pairs (insert j v d) (insert-IsDict j v d h)

module _ (lower : Text → Text) where
  insert-IsLowered :
      (k v : Text) (d : Headers) → lower k ≡ k → IsLowered lower d → IsLowered lower (insert k v d)
  unfolding insert
  insert-IsLowered k v [] p h = (p, tt)
  insert-IsLowered k v ((j, w) ∷ d) p (q, h) = elim (Bool-cases (j == k)) [
    | inl same ↦ rw same (q, h)
    | inr other ↦ rw other (q, insert-IsLowered k v d p h)
  ]

  fold_put-IsLowered :
      (pairs d : Headers)
      → IsLowered lower pairs
      → IsLowered lower d
      → IsLowered lower (fold put_pair pairs d)
  unfolding put_pair
  fold_put-IsLowered [] d p h = h
  fold_put-IsLowered ((j, v) ∷ pairs) d (q, p) h =
      fold_put-IsLowered pairs (insert j v d) p (insert-IsLowered j v d q h)

  keep_if-IsLowered :
      (keeps : Text × Text → Bool) (hs : Headers)
      → IsLowered lower hs
      → IsLowered lower (keep_if keeps hs)
  keep_if-IsLowered keeps [] h = h
  keep_if-IsLowered keeps (x ∷ hs) (p, h) = elim (Bool-cases (keeps x)) [
    | inl e ↦ rw e (p, keep_if-IsLowered keeps hs h)
    | inr e ↦ rw e (keep_if-IsLowered keeps hs h)
  ]

  values-absent :
      (k : Text) (d : Headers)
      → lower k ≡ k
      → IsLowered lower d
      → lookup k d ≡ none
      → values lower k d ≡ []
  unfolding lookup
  values-absent k [] p h e = refl
  values-absent k ((j, w) ∷ d) p (q, h) e = elim (Bool-cases (j == k)) [
    | inl same ↦ absurd (ground (arith, same, e))
    | inr other ↦ rw (p, q, other) (values-absent k d p h (rw other at e))
  ]

  -- In a dict a name has one value.
  values-held :
      (k v : Text) (d : Headers)
      → lower k ≡ k
      → IsLowered lower d
      → IsDict d
      → lookup k d ≡ some v
      → values lower k d ≡ v ∷ []
  unfolding lookup
  values-held k v [] p h dict e = absurd (cc e)
  values-held k v ((j, w) ∷ d) p (q, h) (absent, dict) e = elim (Bool-cases (j == k)) [
    | inl same ↦
        let equal : j ≡ k = (list_beq_iff j k).0 same in
        let held : w ≡ v = cc (rw same at e) in
        let rest : values lower k d ≡ [] = values-absent k d p h (rw equal at absent) in
        rw (p, q, same) (rw (held, rest) refl)
    | inr other ↦ rw (p, q, other) (values-held k v d p h dict (rw other at e))
  ]

  -- `last_of k pairs o` is what the pairs assign to `k`, or `o`.
  values-fold_assign :
      (web : Framework)
      → Assigns lower web
      → (k : Text) (pairs hs : Headers) (o : Option Text) (vs : List Text) → lower k ≡ k
      → IsLowered lower pairs
      → values lower k hs ≡ one_or vs o
      → values lower k (fold (assign_pair web) pairs hs) ≡ one_or vs (last_of k pairs o)
  values-fold_assign web a k [] hs o vs p low h = h
  values-fold_assign web a k ((j, v) ∷ pairs) hs o vs p (q, low) h =
      values-fold_assign web a k pairs (web.assign j v hs) (if j == k then some v else o) vs p low
        (elim (Bool-cases (j == k)) [
          | inl same ↦ rw (same, (list_beq_iff j k).0 same) (a.replaces k v hs)
          | inr other ↦
              let apart : (lower j == lower k) ≡ false = rw (p, q) other in
              rw other (a.keeps k j v hs apart ∙ h)
        ])

last_of-some :
    (k v : Text) (pairs : Headers) (o : Option Text)
    → last_of k pairs none ≡ some v
    → last_of k pairs o ≡ some v
last_of-some k v [] o h = absurd (ground arith)
last_of-some k v ((j, w) ∷ pairs) o h = ground (arith, last_of-some k v pairs o)

-- An upstream cannot speak for the proxy: each header that the proxy gives to an answer reaches the
-- client with the proxy's value alone, whatever the upstream sent under that name, in buffered and
-- in relayed answers. `last_of` is the value that the attributes of the answer give to a header; the
-- names of the upstream's headers are in lower case, and so are the proxy's.
pub meta_headers-win :
    (lower : Text → Text) (web : Framework)
    → Assigns lower web
    → (result : ProxyResult) (upstream : Headers) (k v : Text) → lower k ≡ k
    → IsLowered lower (meta_headers result.meta)
    → IsLowered lower upstream
    → last_of k (meta_headers result.meta) none ≡ some v
    → (values lower k (result_to_response web result).headers ≡ v ∷ [])
      × (values lower k (relayed_headers lower upstream result.meta) ≡ v ∷ [])
unfolding result_to_response relayed_headers dict_of
meta_headers-win lower web a result upstream k v p own low h =
    let meta = meta_headers result.meta in
    let kept =
      keep_if (λ (x : Text × Text). not (contains (lower x.0) drop_response_headers)) upstream in
    let dict = fold put_pair kept [] in
    let lowered = fold_put-IsLowered lower kept [] (keep_if-IsLowered lower _ upstream low) tt in
    (
      values-fold_assign lower web a k meta _ none _ p own refl ∙ ap (one_or _) h,
      values-held lower k v (fold put_pair meta dict) p
          (fold_put-IsLowered lower meta dict own lowered)
          (fold_put-IsDict meta dict (fold_put-IsDict kept [] tt))
          (lookup-fold_put k meta dict ∙ last_of-some k v meta _ h),
    )

-- ===== src/Cache/Similarity/Snapshot/Restart.antt =====
-- cache/similarity_store.py: what is loaded after a restart is the index as it was.
use mathlib.Core.List.{reverse, map-append, reverse-append, reverse-reverse}
use parcus.Prelude.{
  ℕ, zero, suc, ◌-◌, ◌≤◌, ◌≡◌, refl, ap, sym, ◌∙◌, false, Option, none, some, List, [], ◌∷◌, ◌++◌,
  map, fold, length, length-append, drop, ltb, All, arith, Bool-cases, Option-cases, inl, inr,
  if◌then◌else◌, nat_eq, ◌==◌,
}
use parcus.Text.{Text}
use parcus.Cache.Encryption.Cipher.{Bytes, nonce_len}
use parcus.Cache.Similarity.{
  SimilarityEntry, SimilarityCache, Embedding, pop_first, remember, new_cache, last_entries,
}
use parcus.Cache.Similarity.Bound.{remember-bound}
use parcus.Cache.Similarity.Snapshot.{
  Codec, Row, Sealer, latest, entry_of, decode_rows, load, append, remember_through,
}

-- The packing of a vector loses nothing.
pub record IsCodec {V : Type 0} (codec : Codec V) : Type 0 where
  pub packs : (v : V) → (b : Bytes) × (codec.encode v ≡ some b) × (codec.decode b ≡ some v)

-- In the states that the calls can reach, what is sealed is stored, and opened again.
pub record IsSealer {S : Type 0} (sealer : Sealer S) (opens : Text → Text → Bytes → Option Bytes)
    (Valid : S → Type 0) : Type 0 where
  pub opened : (s : S) (t k : Text) (b : Bytes) → Valid s → (sealer.opening s t k b).1 ≡ opens t k b
  pub keeps : (s : S) (t k : Text) (b : Bytes) → Valid s → Valid (sealer.opening s t k b).0
  pub sealed :
      (s : S) (n : Bytes) (t k : Text) (b : Bytes)
      → Valid s
      → length n ≡ nonce_len
      → (c : Bytes) × ((sealer.sealing s n t k b).1 ≡ some (some c)) × (opens t k c ≡ some b)
  pub seals :
      (s : S) (n : Bytes) (t k : Text) (b : Bytes) → Valid s → Valid (sealer.sealing s n t k b).0

map-drop : {A B : Type 0} (f : A → B) (n : ℕ) (xs : List A) → map f (drop n xs) ≡ drop n (map f xs)
map-drop f zero xs = refl
map-drop f (suc n) [] = refl
map-drop f (suc n) (x ∷ xs) = map-drop f n xs

length-map : {A B : Type 0} (f : A → B) (xs : List A) → length (map f xs) ≡ length xs
length-map f [] = refl
length-map f (x ∷ xs) = ap suc (length-map f xs)

map-reverse : {A B : Type 0} (f : A → B) (xs : List A) → map f (reverse xs) ≡ reverse (map f xs)
map-reverse f [] = refl
map-reverse f (x ∷ xs) =
    ap (map f) (reverse-append (x ∷ []) xs)
    ∙ map-append f (reverse xs) (x ∷ [])
    ∙ ap (λ ys. ys ++ f x ∷ []) (map-reverse f xs)
    ∙ sym (reverse-append (f x ∷ []) (map f xs))

map-latest :
    {A B : Type 0} (f : A → B) (n : ℕ) (xs : List A) → map f (latest n xs) ≡ latest n (map f xs)
map-latest f n xs = rw (length-map f xs) (map-drop f (length xs - n) xs)

latest_all : {A : Type 0} (n : ℕ) (xs : List A) → length xs ≤ n → latest n xs ≡ xs
latest_all n xs h = let none_over : length xs - n ≡ 0 = omega arith in rw none_over refl

drop_one : {A : Type 0} (xs : List A) → drop 1 xs ≡ pop_first xs
drop_one [] = refl
drop_one (x ∷ xs) = refl

-- The bound of the table is the bound of the index.
latest-append :
    {A : Type 0} (n : ℕ) (xs : List A) (x : A)
    → length xs ≤ n
    → latest n (xs ++ x ∷ [])
      ≡ (if ltb n (length (xs ++ x ∷ [])) then pop_first (xs ++ x ∷ []) else xs ++ x ∷ [])
latest-append n xs x h = elim (Bool-cases (ltb n (length (xs ++ x ∷ [])))) [
  | inl over ↦
      let one : length (xs ++ x ∷ []) - n ≡ 1 = ground (arith, length-append xs (x ∷ [])) in
      rw (over, one) (drop_one (xs ++ x ∷ []))
  | inr fits ↦ rw fits (latest_all n (xs ++ x ∷ []) (ground arith))
]

last_entries_all :
    {V : Type 0} (n : ℕ) (entries : List (SimilarityEntry V))
    → length entries ≤ n
    → last_entries n entries ≡ entries
unfolding last_entries
last_entries_all n entries h = elim (Bool-cases (n == 0)) [
  | inl unbounded ↦ rw unbounded refl
  | inr more ↦ rw more (latest_all n entries h)
]

-- A call of `remember`, with the nonce that is drawn in it.
pub record Call : Type 0 where
  pub nonce : Bytes
  pub text : Text
  pub key : Text
  pub model : Option Text
  pub tenant : Text

abbrev pub HasNonce : Call → Type 0
HasNonce c = length c.nonce ≡ nonce_len

module _ {V S Score : Type 0} (codec : Codec V) (sealer : Sealer S) (max_entries : ℕ)
    (e : Embedding V Score) where
  abbrev through :
      Call → SimilarityCache V Score × (S × List Row) → SimilarityCache V Score × (S × List Row)
  through c =
      remember_through codec sealer max_entries e false c.nonce c.text c.key c.model c.tenant

  abbrev pub run :
      List Call
      → SimilarityCache V Score × (S × List Row)
      → SimilarityCache V Score × (S × List Row)
  run calls state = fold through calls state

  -- The calls on an empty index with an empty store.
  abbrev pub run_new : Score → S → List Call → SimilarityCache V Score × (S × List Row)
  run_new threshold s calls = run calls (new_cache threshold max_entries none, (s, []))

module _ {V S : Type 0} (codec : Codec V) (sealer : Sealer S) (max_entries : ℕ)
    (opens : Text → Text → Bytes → Option Bytes) (Valid : S → Type 0) (is_codec : IsCodec codec)
    (is_sealer : IsSealer sealer opens Valid) where
  -- What a row holds.
  abbrev stored : Row → Option (SimilarityEntry V)
  stored row = entry_of codec sealer max_entries row (opens row.tenant row.key row.vector)

  abbrev Mirrors : List Row → List (SimilarityEntry V) → Type 0
  Mirrors rows entries = map stored rows ≡ map some entries

  decode_rows-mirror :
      (s : S) (rows : List Row) (entries : List (SimilarityEntry V))
      → Valid s
      → Mirrors rows entries
      → (decode_rows codec sealer max_entries s rows).1 ≡ entries
  unfolding decode_rows
  decode_rows-mirror s [] [] v h = refl
  decode_rows-mirror s [] (e ∷ es) v h = cc
  decode_rows-mirror s (row ∷ rows) [] v h = cc
  decode_rows-mirror s (row ∷ rows) (e ∷ es) v h =
      let head : stored row ≡ some e = cc h in
      let tail : map stored rows ≡ map some es = cc h in
      rw
        (
          is_sealer.opened s row.tenant row.key row.vector v,
          head,
          decode_rows-mirror (sealer.opening s row.tenant row.key row.vector).0 rows es
              (is_sealer.keeps s row.tenant row.key row.vector v) tail,
        )
        refl

  load-mirror :
      (s : S) (rows : List Row) (entries : List (SimilarityEntry V))
      → Valid s
      → length entries ≤ max_entries
      → Mirrors rows entries
      → (load codec sealer max_entries false (s, rows)).1 ≡ entries
  unfolding load
  load-mirror s rows entries v bound h =
      let few : length rows ≤ max_entries =
        omega
          (arith, bound, sym (length-map stored rows) ∙ ap length h ∙ length-map some entries) in
      let back : Mirrors (reverse rows) (reverse entries) =
        map-reverse stored rows ∙ ap reverse h ∙ sym (map-reverse some entries) in
      rw
        (
          latest_all max_entries rows few,
          decode_rows-mirror s (reverse rows) (reverse entries) v back,
        )
        (reverse-reverse entries)

  pub record IsMirror {Score : Type 0} (cache : SimilarityCache V Score) (store : S × List Row)
      : Type 0 where
    pub valid : Valid store.0
    pub cap : cache.max_entries ≡ max_entries
    pub bounded : length cache.entries ≤ max_entries
    pub rows : Mirrors store.1 cache.entries

  module _ {Score : Type 0} (e : Embedding V Score) where
    append-Mirrors :
        (nonce : Bytes) (entry : SimilarityEntry V) (s : S) (rows : List Row)
        (entries : List (SimilarityEntry V))
        → length nonce ≡ nonce_len
        → Valid s
        → length entries ≤ max_entries
        → Mirrors rows entries
        → Valid (append codec sealer max_entries false nonce entry (s, rows)).0
          × Mirrors (append codec sealer max_entries false nonce entry (s, rows)).1 (
              if ltb max_entries (length (entries ++ entry ∷ []))
              then pop_first (entries ++ entry ∷ [])
              else entries ++ entry ∷ [])
    unfolding append
    append-Mirrors nonce entry s rows entries l v bound h =
        let (b, packed, unpacked) = is_codec.packs entry.vector in
        let (c, kept, opens_to) = is_sealer.sealed s nonce entry.tenant entry.key b v l in
        let valid = is_sealer.seals s nonce entry.tenant entry.key b v in
        let row : Row = record {
          key = entry.key;
          model = entry.model;
          tenant = entry.tenant;
          vector = c;
        } in
        let holds : stored row ≡ some entry = rw (opens_to, entry_of) (rw unpacked refl) in
        let longer : map stored (rows ++ row ∷ []) ≡ map some (entries ++ entry ∷ []) =
          map-append stored rows (row ∷ [])
          ∙ rw (h, holds) refl
          ∙ sym (map-append some entries (entry ∷ [])) in
        rw (packed, append)
          (rw (kept, append)
            (
              valid,
              map-latest stored max_entries (rows ++ row ∷ [])
                  ∙ ap (latest max_entries) longer
                  ∙ sym (map-latest some max_entries (entries ++ entry ∷ []))
                  ∙ ap (map some) (latest-append max_entries entries entry bound),
            ))

    remember-made :
        (text key : Text) (model : Option Text) (tenant : Text) (cache : SimilarityCache V Score)
        (vector : V)
        → e.embed text ≡ some vector
        → cache.max_entries ≡ max_entries
        → let entry : SimilarityEntry V = record {
          vector = vector;
          key = key;
          model = model;
          tenant = tenant;
        } in
          ((remember e cache text key model tenant).entries ≡ (
            if ltb max_entries (length (cache.entries ++ entry ∷ []))
            then pop_first (cache.entries ++ entry ∷ [])
            else cache.entries ++ entry ∷ []))
          × ((remember e cache text key model tenant).max_entries ≡ max_entries)
    unfolding remember
    remember-made text key model tenant cache vector made cap =
        (rw (made, remember) (rw cap refl), rw (made, remember) cap)

    remember_through-IsMirror :
        (nonce text key : Text) (model : Option Text) (tenant : Text)
        (cache : SimilarityCache V Score) (store : S × List Row)
        → length nonce ≡ nonce_len
        → IsMirror cache store
        → let after =
            remember_through codec sealer max_entries e false nonce text key model tenant
              (cache, store) in
          IsMirror after.0 after.1
    unfolding remember_through
    remember_through-IsMirror nonce text key model tenant cache store l m =
        elim (Option-cases (e.embed text)) [
          | inl raised ↦ rw (raised, remember_through) m
          | inr (vector, made) ↦
              let entry : SimilarityEntry V = record {
                vector = vector;
                key = key;
                model = model;
                tenant = tenant;
              } in
              let (valid, mirrored) =
                append-Mirrors nonce entry store.0 store.1 cache.entries l m.valid m.bounded
                  m.rows in
              let (entries, cap) = remember-made text key model tenant cache vector made m.cap in
              let within : length (remember e cache text key model tenant).entries ≤ max_entries =
                omega (
                  arith,
                  cap,
                  remember-bound e cache text key model tenant (omega (arith, m.bounded, m.cap)),
                ) in
              rw (made, remember_through)
                (record {
                  valid = valid;
                  cap = cap;
                  bounded = within;
                  rows = mirrored ∙ ap (map some) (sym entries);
                })
        ]

    run-IsMirror :
        (calls : List Call) (cache : SimilarityCache V Score) (store : S × List Row)
        → All HasNonce calls
        → IsMirror cache store
        → let after = run codec sealer max_entries e calls (cache, store) in
          IsMirror after.0 after.1
    run-IsMirror [] cache store l m = m
    run-IsMirror (c ∷ calls) cache store (n, l) m =
        let after = through codec sealer max_entries e c (cache, store) in
        run-IsMirror calls after.0 after.1 l
          (remember_through-IsMirror c.nonce c.text c.key c.model c.tenant cache store n m)

    -- The index survives a restart: after any calls of `remember` on an empty index with an empty
    -- store of the same bound, an index that is loaded from the store has the entries of the first
    -- one, in order. The database does not fail, packing a vector loses nothing, every tenant's blob is
    -- sealed, and opened again, and the nonces have their length.
    pub new_cache-load_run :
        (threshold : Score) (s : S) (calls : List Call)
        → Valid s
        → All HasNonce calls
        → (new_cache threshold max_entries (
            some
              (load codec sealer max_entries false
                (run_new codec sealer max_entries e threshold s calls).1).1)).entries
          ≡ (run_new codec sealer max_entries e threshold s calls).0.entries
    unfolding new_cache
    new_cache-load_run threshold s calls v l =
        let first : SimilarityCache V Score = new_cache threshold max_entries none in
        let after = run_new codec sealer max_entries e threshold s calls in
        let m : IsMirror after.0 after.1 =
          run-IsMirror calls first (s, []) l
            (record { valid = v; cap = refl; bounded = omega arith; rows = refl }) in
        ap (last_entries max_entries)
          (load-mirror after.1.0 after.1.1 after.0.entries m.valid m.bounded m.rows)
        ∙ last_entries_all max_entries after.0.entries m.bounded

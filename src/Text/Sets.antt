-- ===== src/Text/Sets.antt =====
-- `sorted` of a set of texts, by their code points.
use parcus.Prelude.{
  Bool, true, false, ◌&&◌, ◌||◌, List, [], ◌∷◌, All, contains, ltb, ◌==◌, nat_eq, list_eq,
  if◌then◌else◌, ◌≡◌, refl, arith, Bool-cases, inl, inr, list_beq_iff,
}
use parcus.Text.{Text}

-- The order of texts by their code points.
abbrev pub before : Text → Text → Bool
before [] [] = false
before [] (d ∷ t) = true
before (c ∷ s) [] = false
before (c ∷ s) (d ∷ t) = ltb c d || c == d && before s t

-- A set of names as a sorted list without repeats.
unfoldable pub add_name : Text → List Text → List Text
add_name name [] = name ∷ []
add_name name (n ∷ ns) =
    let rest = add_name name ns in
    if name == n then n ∷ ns else if before name n then name ∷ n ∷ ns else n ∷ rest

-- `sorted(names)`
unfoldable pub sorted : List Text → List Text
unfolding add_name
sorted [] = []
sorted (name ∷ names) = add_name name (sorted names)

pub contains-add_name :
    (t name : Text) (names : List Text)
    → contains t (add_name name names) ≡ contains t (name ∷ names)
unfolding add_name
contains-add_name t name [] = refl
contains-add_name t name (n ∷ ns) = elim (Bool-cases (name == n)) [
  | inl e ↦
      let same : name ≡ n = (list_beq_iff name n).0 e in rw (e, add_name) (rw same (ground arith))
  | inr e ↦ elim (Bool-cases (before name n)) [
    | inl b ↦ rw (e, b, add_name) refl
    | inr b ↦ rw (e, b, add_name) (rw (contains-add_name t name ns) (ground arith))
  ]
]

pub contains-sorted : (t : Text) (names : List Text) → contains t (sorted names) ≡ contains t names
unfolding sorted
contains-sorted t [] = refl
contains-sorted t (name ∷ names) =
    rw (contains-add_name t name (sorted names), contains-sorted t names) refl

pub All-add_name :
    (P : Text → Type 0) (name : Text) (names : List Text)
    → P name
    → All P names
    → All P (add_name name names)
unfolding add_name
All-add_name P name [] p h = (p, h)
All-add_name P name (n ∷ ns) p (q, h) = elim (Bool-cases (name == n)) [
  | inl e ↦ rw (e, add_name) (q, h)
  | inr e ↦ elim (Bool-cases (before name n)) [
    | inl b ↦ rw (e, b, add_name) (let first : P name × (P n × All P ns) = (p, (q, h)) in first)
    | inr b ↦ rw (e, b, add_name) (q, All-add_name P name ns p h)
  ]
]

pub All-sorted : (P : Text → Type 0) (names : List Text) → All P names → All P (sorted names)
unfolding sorted
All-sorted P [] h = h
All-sorted P (name ∷ names) (p, h) = All-add_name P name (sorted names) p (All-sorted P names h)

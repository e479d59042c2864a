-- ===== src/Redact/Report.antt =====
-- redact/redactor.py: what the report says of the text.
use mathlib.Core.Path.{subst}
use parcus.Prelude.{
  ◌+◌, ◌≤◌, ◌≡◌, refl, ap, sym, ◌∙◌, true, false, List, [], ◌∷◌, All, ltb, Bool-cases, inl, inr,
  nat_eq, list_eq, arith,
}
use parcus.Text.{Text}
use parcus.Redact.{
  SecretPattern, RedactionReport, has_secrets, placeholder_for, add_name, redact_from, redact,
  has_secret,
}

-- What the expressions of a rule are relied on for: to replace nothing leaves the text, and a text in
-- which the expression is found has something replaced.
pub record IsPattern (p : SecretPattern) : Type 0 where
  pub untouched : (r t : Text) → (p.subn r t).1 ≡ 0 → (p.subn r t).0 ≡ t
  pub replaced : (r t : Text) → p.search t ≡ true → 1 ≤ (p.subn r t).1

redact_from-le :
    (ps : List SecretPattern) (text : Text) (report : RedactionReport)
    → report.total ≤ (redact_from ps text report).1.total
unfolding redact_from
redact_from-le [] text report = omega arith
redact_from-le (p ∷ ps) text report =
    let masked = p.subn (placeholder_for p.name) text in
    elim (Bool-cases (ltb 0 masked.1)) [
      | inl some_found ↦
          let grown : RedactionReport = record {
            total = report.total + masked.1;
            categories = add_name p.name report.categories;
          } in
          rw (some_found, redact_from) (omega (arith, redact_from-le ps masked.0 grown))
      | inr e ↦ rw (e, redact_from) (redact_from-le ps masked.0 report)
    ]

redact_from-count :
    (p : SecretPattern) (ps : List SecretPattern) (text : Text) (report : RedactionReport)
    → ltb 0 (p.subn (placeholder_for p.name) text).1 ≡ true
    → 1 ≤ (redact_from (p ∷ ps) text report).1.total
unfolding redact_from
redact_from-count p ps text report found =
    let masked = p.subn (placeholder_for p.name) text in
    let grown : RedactionReport = record {
      total = report.total + masked.1;
      categories = add_name p.name report.categories;
    } in
    let some_found : 1 ≤ masked.1 = ground (arith, found) in
    rw (found, redact_from) (omega (arith, redact_from-le ps masked.0 grown))

redact_from-skip :
    (p : SecretPattern) (ps : List SecretPattern) (text : Text) (report : RedactionReport)
    → ltb 0 (p.subn (placeholder_for p.name) text).1 ≡ false
    → redact_from (p ∷ ps) text report
      ≡ redact_from ps (p.subn (placeholder_for p.name) text).0 report
unfolding redact_from
redact_from-skip p ps text report e = rw (e, redact_from) refl

redact_from-nothing :
    (ps : List SecretPattern) (text : Text) (report : RedactionReport)
    → All IsPattern ps
    → (redact_from ps text report).1.total ≡ 0
    → ((redact_from ps text report).0 ≡ text) × (has_secret ps text ≡ false)
unfolding has_secret redact_from
redact_from-nothing [] text report laws h = (refl, refl)
redact_from-nothing (p ∷ ps) text report (law, laws) h =
    let masked = p.subn (placeholder_for p.name) text in
    elim (Bool-cases (ltb 0 masked.1)) [
      | inl found ↦ absurd (omega (arith, redact_from-count p ps text report found, h))
      | inr e ↦
          let step = redact_from-skip p ps text report e in
          let same : masked.0 ≡ text =
            law.untouched (placeholder_for p.name) text (ground (arith, e)) in
          let quiet : p.search text ≡ false = elim (Bool-cases (p.search text)) [
            | inl q ↦ absurd (ground (arith, e, law.replaced (placeholder_for p.name) text q))
            | inr q ↦ q
          ] in
          let (kept, none_left) =
            redact_from-nothing ps masked.0 report laws (ap (λ r. r.1.total) (sym step) ∙ h) in
          let rest : has_secret ps text ≡ false =
            subst (λ t. has_secret ps t ≡ false) same none_left in
          (ap (λ r. r.0) step ∙ kept ∙ same, ground (arith, quiet, rest))
    ]

-- The report and `has_secret` agree with the text: if the rules' expressions behave, a text of which
-- the report says nothing is returned as it is, and `has_secret` finds no secret in it.
pub redact-nothing :
    (ps : List SecretPattern) (text : Text)
    → All IsPattern ps
    → has_secrets (redact ps text).1 ≡ false
    → ((redact ps text).0 ≡ text) × (has_secret ps text ≡ false)
unfolding redact has_secrets
redact-nothing ps text laws quiet =
    redact_from-nothing ps text (record { total = 0; categories = [] }) laws (ground (arith, quiet))

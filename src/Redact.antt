-- ===== src/Redact.antt =====
-- redact/redactor.py and the rules of redact/patterns.py, whose regular expressions are parameters.
pub mod Report
use parcus.Prelude.{
  ℕ, ◌+◌, Bool, true, false, ◌&&◌, ◌||◌, List, [], ◌∷◌, ◌++◌, ltb, contains, nat_eq, list_eq, ◌==◌,
  if◌then◌else◌,
}
use parcus.Text.Sets.{add_name}
use parcus.Text.{Text, codes}

-- A rule: `subn` is `regex.subn` with a placeholder and a text, and `search` whether the expression
-- is found in a text.
pub record SecretPattern : Type 0 where
  pub name : Text
  pub subn : Text → Text → Text × ℕ
  pub search : Text → Bool
  pub is_secret : Bool

pub record RedactionReport : Type 0 where
  pub total : ℕ
  pub categories : List Text

-- `RedactionReport.has_secrets`
unfoldable pub has_secrets : RedactionReport → Bool
has_secrets report = ltb 0 report.total

unfoldable pub placeholder_for : Text → Text
placeholder_for name = codes "«REDACTED:" ++ (name ++ codes "»")

-- The loop of `redact`.
unfoldable pub redact_from : List SecretPattern → Text → RedactionReport → Text × RedactionReport
unfolding placeholder_for add_name
redact_from [] out report = (out, report)
redact_from (p ∷ ps) out report =
    let (masked, count) = p.subn (placeholder_for p.name) out in
    redact_from ps masked (
      if ltb 0 count
      then record { total = report.total + count; categories = add_name p.name report.categories }
      else report)

unfoldable pub redact : List SecretPattern → Text → Text × RedactionReport
unfolding redact_from
redact patterns text = redact_from patterns text (record { total = 0; categories = [] })

unfoldable pub has_secret : List SecretPattern → Text → Bool
has_secret [] text = false
has_secret (p ∷ ps) text = p.is_secret && p.search text || has_secret ps text

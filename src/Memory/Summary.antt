-- ===== src/Memory/Summary.antt =====
-- memory/summary.py: the summarisers. `str.lower` and the completion function are parameters; a bound
-- below 0 is not modelled, which acts as 0 does.
pub mod Leads
use parcus.Prelude.{
  ◌&&◌, ℕ, Bool, true, false, not, ◌||◌, Option, none, some, List, [], ◌∷◌, ◌++◌, map, length, take,
  leb, contains, is_empty, ◌==◌, nat_eq, list_eq, if◌then◌else◌,
}
use parcus.Text.{Text, codes, newline, strip, cut, join}

abbrev sentence_ends : List Text
sentence_ends = codes ". " ∷ codes "? " ∷ codes "! " ∷ []

abbrev pub max_lead : ℕ
max_lead = 200

-- The characters at which `str.splitlines` ends a line.
unfoldable is_line_end : ℕ → Bool
is_line_end c =
    (leb 10 c && leb c 13) || (leb 28 c && leb c 30) || c == 133 || c == 8232 || c == 8233

-- `text.splitlines()[0]`, for a text that is not empty
unfoldable first_line : Text → Text
unfolding is_line_end
first_line [] = []
first_line (c ∷ s) = let rest = first_line s in if is_line_end c then [] else c ∷ rest

-- The line up to the first of the sentence ends that it has, with its mark.
unfoldable first_sentence : List Text → Text → Text
unfolding cut
first_sentence [] line = line
first_sentence (end ∷ ends) line = elim (cut end line) [
  | none ↦ first_sentence ends line
  | some parts ↦ parts.0 ++ take 1 end
]

-- `_lead`
unfoldable pub lead : Text → Text
unfolding strip first_line first_sentence
lead text =
    let stripped = strip text in
    if is_empty stripped
    then []
    else strip (take max_lead (first_sentence sentence_ends (strip (first_line stripped))))

-- A list of points, one on each line.
unfoldable pub bullets : List Text → Text
unfolding join
bullets points = join (newline ∷ []) (map (λ point. codes "- " ++ point) points)

module _ (lower : Text → Text) (max_items : ℕ) where
  -- The loop of `summarize` over the texts, with its `leads` and what it has seen.
  unfoldable pub gather : List Text → List Text → List Text → List Text
  unfolding lead
  gather leads seen [] = leads
  gather leads seen (text ∷ texts) =
      let found = lead text in
      let more = leads ++ found ∷ [] in
      elim (is_empty found || contains (lower found) seen) [
        | true ↦ gather leads seen texts
        | false ↦ elim (leb max_items (length more)) [
          | true ↦ more
          | false ↦ gather more (lower found ∷ seen) texts
        ]
      ]

  -- `ExtractiveSummarizer.summarize`
  unfoldable pub summarize : List Text → Text
  unfolding gather bullets
  summarize texts = bullets (gather [] [] texts)

-- `LLMSummarizer.summarize`, with the bound as it is printed
unfoldable pub summarize_by_model : (Text → Text) → Text → List Text → Text
unfolding bullets strip
summarize_by_model complete max_items texts =
    let prompt =
      codes "Summarise the following conversation turns into at most "
      ++ (max_items
          ++ (codes " concise bullet points, preserving concrete facts:\n\n" ++ bullets texts)) in
    strip (complete prompt)

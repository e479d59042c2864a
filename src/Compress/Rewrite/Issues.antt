-- ===== src/Compress/Rewrite/Issues.antt =====
-- What the checks of invariants.py find in a rewritten request.
use mathlib.Core.List.{append-nil}
use parcus.Prelude.{
  ℕ, suc, ◌+◌, Bool, true, Option, none, some, List, [], ◌∷◌, ◌≡◌, ◌⊎◌, refl, ap, sym, inl, inr,
  length, All, arith, Option-cases, nat_eq, list_eq, beq_refl,
}
use parcus.Text.{Text}
use parcus.Json.{Fields}
use parcus.Model.{Span, Message, CanonicalRequest, role_eq}
use parcus.Invariants.{
  span_issue, span_issues, message_issues, messages_issues, system_issues, violations,
}
use parcus.Compress.Rewrite.{
  rewrite_span, rewrite_spans, rewrite_message, rewrite_messages, rewrite_system, rewrite_request,
}

-- A structured message has no spans, as the parsers build it.
abbrev pub IsParsed : Message → Type 0
IsParsed m = (m.raw ≡ none) ⊎ (m.spans ≡ [])

-- The system prompt is absent, or the check accepts what becomes of it.
abbrev pub IsSafe : (Text → Text → Bool) → (Text → Text) → Option Text → Type 0
IsSafe same whole none = Unit
IsSafe same whole (some t) = same t (whole t) ≡ true

-- `same` accepts what the prose rewriting does, and an unchanged text.
module _ (same : Text → Text → Bool) (prose whole : Text → Text)
    (accepts : (t : Text) → same t (prose t) ≡ true)
    (reflexive : (t : Text) → same t t ≡ true) where
  rewrite_message_plain :
      (m : Message)
      → m.raw ≡ none
      → (rewrite_message prose whole m).0
        ≡ record { role = m.role; spans = (rewrite_spans prose m.spans).0; raw = none }
  unfolding rewrite_message
  rewrite_message_plain m e = rw (e, rewrite_message)

  rewrite_message_structured :
      (m : Message) (raw : Fields)
      → m.raw ≡ some raw
      → m.spans ≡ []
      → ((rewrite_message prose whole m).0.role ≡ m.role)
        × ((rewrite_message prose whole m).0.spans ≡ [])
  unfolding rewrite_message
  rewrite_message_structured m raw e h = ground arith

  span_issue-rewrite_span : (i : ℕ) (s : Span) → span_issue same i s (rewrite_span prose s).0 ≡ []
  unfolding rewrite_span
  span_issue-rewrite_span i s = ground (arith, accepts s.text, reflexive s.text, beq_refl s.text)

  span_issues-rewrite_spans :
      (i : ℕ) (ss : List Span) → span_issues same i ss (rewrite_spans prose ss).0 ≡ []
  unfolding span_issues rewrite_spans
  span_issues-rewrite_spans i [] = refl
  span_issues-rewrite_spans i (s ∷ ss) =
      rw (span_issue-rewrite_span i s) (span_issues-rewrite_spans i ss)

  span_issues_nil : (i : ℕ) (ss us : List Span) → ss ≡ [] → span_issues same i ss us ≡ []
  unfolding span_issues
  span_issues_nil i [] us h = refl
  span_issues_nil i (s ∷ ss) us h = cc

  length-rewrite_spans : (ss : List Span) → length (rewrite_spans prose ss).0 ≡ length ss
  unfolding rewrite_spans
  length-rewrite_spans [] = refl
  length-rewrite_spans (s ∷ ss) = ap suc (length-rewrite_spans ss)

  span_issue_self : (i : ℕ) (s : Span) → span_issue same i s s ≡ []
  span_issue_self i s = ground (arith, reflexive s.text, beq_refl s.text)

  span_issues_self : (i : ℕ) (ss : List Span) → span_issues same i ss ss ≡ []
  unfolding span_issues
  span_issues_self i [] = refl
  span_issues_self i (s ∷ ss) = rw (span_issue_self i s) (span_issues_self i ss)

  message_issues_self : (i : ℕ) (m : Message) → message_issues same i m m ≡ []
  unfolding message_issues
  message_issues_self i m =
      rw (beq_refl m.role, beq_refl (length m.spans)) (span_issues_self i m.spans)

  -- A message of the same role whose spans have no issue has none.
  message_issues_of_spans :
      (i : ℕ) (m n : Message)
      → m.role ≡ n.role
      → length m.spans ≡ length n.spans
      → span_issues same i m.spans n.spans ≡ []
      → message_issues same i m n ≡ []
  unfolding message_issues
  message_issues_of_spans i m n r l e = rw (r, l, beq_refl n.role, beq_refl (length n.spans)) e

  rewrite_message_issues :
      (i : ℕ) (m : Message)
      → IsParsed m
      → message_issues same i m (rewrite_message prose whole m).0 ≡ []
  rewrite_message_issues i m h = elim (Option-cases m.raw) [
    | inl e ↦ rw (rewrite_message_plain m e) (
        message_issues_of_spans i m _ refl (sym (length-rewrite_spans m.spans))
          (span_issues-rewrite_spans i m.spans))
    | inr (raw, e) ↦ elim h [
      | inl q ↦ cc
      | inr q ↦
          let (r, p) = rewrite_message_structured m raw e q in
          message_issues_of_spans i m _ (sym r) (cc (ap length q, ap length p))
            (span_issues_nil i m.spans _ q)
    ]
  ]

  length-rewrite_messages :
      (ms : List Message) → length (rewrite_messages prose whole ms).0 ≡ length ms
  unfolding rewrite_messages
  length-rewrite_messages [] = refl
  length-rewrite_messages (m ∷ ms) = ap suc (length-rewrite_messages ms)

  rewrite_messages_issues :
      (i : ℕ) (ms : List Message)
      → All IsParsed ms
      → messages_issues same i ms (rewrite_messages prose whole ms).0 ≡ []
  unfolding messages_issues rewrite_messages
  rewrite_messages_issues i [] h = refl
  rewrite_messages_issues i (m ∷ ms) h =
      rw (rewrite_message_issues i m h.0) (rewrite_messages_issues (i + 1) ms h.1)

  messages_issues_self : (i : ℕ) (ms : List Message) → messages_issues same i ms ms ≡ []
  unfolding messages_issues
  messages_issues_self i [] = refl
  messages_issues_self i (m ∷ ms) = rw (message_issues_self i m) (messages_issues_self (i + 1) ms)

  system_issues_self : (t : Option Text) → system_issues same t t ≡ []
  unfolding system_issues
  system_issues_self none = refl
  system_issues_self (some t) = rw (reflexive t)

  pub violations_self : (r : CanonicalRequest) → violations same r r ≡ []
  unfolding violations
  violations_self r =
      rw (system_issues_self r.system, beq_refl (length r.messages))
        (messages_issues_self 0 r.messages)

  -- Whatever a rewriting pass did to the messages, only the system prompt can raise an issue.
  pub violations-rewrite_request :
      (r : CanonicalRequest)
      → All IsParsed r.messages
      → violations same r (rewrite_request prose whole r).0
        ≡ system_issues same r.system (rewrite_system whole r.system).0
  unfolding violations rewrite_request
  violations-rewrite_request r h =
      rw
        (
          length-rewrite_messages r.messages,
          beq_refl (length r.messages),
          rewrite_messages_issues 0 r.messages h,
        )
        (append-nil _)

  system_issues-rewrite_system :
      (t : Text)
      → same t (whole t) ≡ true
      → system_issues same (some t) (rewrite_system whole (some t)).0 ≡ []
  unfolding system_issues rewrite_system
  system_issues-rewrite_system t h = ground (arith, reflexive t)

  pub IsSafe-system_issues :
      (t : Option Text) → IsSafe same whole t → system_issues same t (rewrite_system whole t).0 ≡ []
  IsSafe-system_issues none h = unfold system_issues rewrite_system in refl
  IsSafe-system_issues (some t) h = system_issues-rewrite_system t h

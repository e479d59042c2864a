-- ===== src/Proxy/Dialects/Written.antt =====
-- proxy/dialects.py: the messages of a body, read, written back and read again.
use parcus.Prelude.{
  ℕ, ◌+◌, ◌≡◌, ◌∙◌, refl, ap, sym, Bool, true, false, Option-cases, Option, none, some, List, [],
  ◌∷◌, contains, nat_eq, list_eq, ◌⊎◌, inl, inr, arith,
}
use mathlib.Core.Path.{subst}
use parcus.Text.{Text, codes}
use parcus.Json.{Value, Items, Fields, null, bool, num, str, arr, obj, nil, cons, end, field, get}
use parcus.Model.{Role, system, user, assistant, tool, role_eq, Message, message_text}
use parcus.Spans.Cover.{classify_spans_correct}
use parcus.Cache.Policy.{role_value}
use parcus.Proxy.Dialects.Parse.{
  role_of, has_keys, carried, plain, plain_content, message_of, parse_item, cons_message,
  parse_items,
}
use parcus.Proxy.Dialects.Serialize.{write_message, write_messages}

role_of-role_value : (r : Role) → role_of (some (str (role_value r))) ≡ some r
unfolding role_of role_value
role_of-role_value system = refl
role_of-role_value user = refl
role_of-role_value assistant = refl
role_of-role_value tool = refl

-- What is written for a plain text is read as that text.
plain_content-written :
    (roles : List Role) (r : Role) (text : Text)
    → contains r roles ≡ true
    → plain_content roles r
        (field (codes "role") (str (role_value r)) (field (codes "content") (str text) end))
      ≡ some text
unfolding plain_content has_keys get
plain_content-written roles r text e = rw e refl

contains-plain_content :
    (roles : List Role) (r : Role) (fs : Fields) (text : Text)
    → plain_content roles r fs ≡ some text
    → contains r roles ≡ true
unfolding plain_content
contains-plain_content roles r fs text h = ground arith

pub message_text-plain : (r : Role) (text : Text) → message_text (plain r text) ≡ text
unfolding message_text
message_text-plain r text = (classify_spans_correct text).1

abbrev as_written : Role → Text → Fields
as_written r text =
    field (codes "role") (str (role_value r)) (field (codes "content") (str text) end)

parse_item-as_written :
    (roles : List Role) (structured : Bool) (r : Role) (text : Text)
    → contains r roles ≡ true
    → parse_item roles structured (obj (as_written r text)) ≡ some (plain r text)
unfolding parse_item message_of get
parse_item-as_written roles structured r text e =
    rw (role_of-role_value r, parse_item)
      (rw (plain_content-written roles r text e, message_of) refl)

written_plain :
    (roles : List Role) (structured : Bool) (r : Role) (text : Text)
    → contains r roles ≡ true
    → parse_item roles structured (obj (write_message false (plain r text))) ≡ some (plain r text)
unfolding write_message
written_plain roles structured r text e =
    ap (λ t. parse_item roles structured (obj (as_written r t))) (message_text-plain r text)
    ∙ parse_item-as_written roles structured r text e

written_carried :
    (roles : List Role) (structured : Bool) (r : Role) (fs : Fields) (m : Message)
    → role_of (get (codes "role") fs) ≡ some r
    → message_of r fs roles structured ≡ some m
    → parse_item roles structured (obj fs) ≡ some m
unfolding parse_item
written_carried roles structured r fs m hr h = rw (hr, parse_item) h

read_cases :
    (roles : List Role) (structured : Bool) (r : Role) (fs : Fields) (m : Message)
    → message_of r fs roles structured ≡ some m
    → (m ≡ carried r fs)
      ⊎ ((text : Text) × (plain_content roles r fs ≡ some text) × (m ≡ plain r text))
unfolding message_of
read_cases roles structured r fs m h = elim (Option-cases (plain_content roles r fs)) [
  | inl e ↦ inl (ground arith)
  | inr (text, e) ↦ inr (text, e, ground arith)
]

-- A message that was read is written so that it is read again.
parse_item-written :
    (roles : List Role) (structured : Bool) (r : Role) (fs : Fields) (m : Message)
    → role_of (get (codes "role") fs) ≡ some r
    → message_of r fs roles structured ≡ some m
    → parse_item roles structured (obj (write_message false m)) ≡ some m
unfolding write_message
parse_item-written roles structured r fs m hr h = elim (read_cases roles structured r fs m h) [
  | inl e ↦ rw e (written_carried roles structured r fs (carried r fs) hr (h ∙ ap some e))
  | inr (text, e, q) ↦
      rw q (written_plain roles structured r text (contains-plain_content roles r fs text e))
]

reparse_item :
    (roles : List Role) (structured : Bool) (item : Value) (m : Message)
    → parse_item roles structured item ≡ some m
    → parse_item roles structured (obj (write_message false m)) ≡ some m
unfolding parse_item
reparse_item roles structured null m h = ground arith
reparse_item roles structured (bool b) m h = ground arith
reparse_item roles structured (num b t) m h = ground arith
reparse_item roles structured (str t) m h = ground arith
reparse_item roles structured (arr xs) m h = ground arith
reparse_item roles structured (obj fs) m h = elim (Option-cases (role_of (get (codes "role") fs))) [
  | inl e ↦ ground arith
  | inr (r, e) ↦ parse_item-written roles structured r fs m e (ground arith)
]

-- What a list of read messages is made of.
pub cons_message_inv :
    (o : Option Message) (os : Option (List Message)) (ms : List Message)
    → cons_message o os ≡ some ms
    → (m : Message) × (rest : List Message) × (o ≡ some m) × (os ≡ some rest) × (ms ≡ m ∷ rest)
cons_message_inv none os ms h = ground arith
cons_message_inv (some m) none ms h = ground arith
cons_message_inv (some m) (some rest) ms h = (m, rest, refl, refl, ground arith)

pub parse_items-written :
    (roles : List Role) (structured : Bool) (items : Items) (ms : List Message) (i : ℕ)
    → parse_items (parse_item roles structured) items ≡ some ms
    → parse_items (parse_item roles structured) (write_messages none i ms) ≡ some ms
unfolding parse_items write_messages
parse_items-written roles structured nil [] i h = refl
parse_items-written roles structured nil (m ∷ ms) i h = ground arith
parse_items-written roles structured (cons item rest) ms i h =
    let (m, tail, hm, hs, e) = cons_message_inv _ _ ms h in
    subst (λ xs. parse_items (parse_item roles structured) (write_messages none i xs) ≡ some xs)
      (sym e)
      (rw (reparse_item roles structured item m hm)
        (rw (parse_items-written roles structured rest tail (i + 1) hs) refl))

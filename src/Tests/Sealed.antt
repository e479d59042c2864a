-- ===== src/Tests/Sealed.antt =====
-- cache/encryption.py with a toy cipher that writes the key and the context before the text.
use mathlib.Core.List.{List, append_assoc}
use mathlib.Core.Path.{subst}
use parcus.Prelude.{
  leb, zero, suc, ◌+◌, lookup, ℕ, ◌≡◌, refl, ap, ◌∙◌, false, Option, none, some, [], ◌∷◌, ◌++◌,
  length, append_cancel, append_prefix, arith, nat_eq, list_eq, ◌==◌, if◌then◌else◌, Option-cases,
  inl, inr,
}
use parcus.Cache.Similarity.{Embedding, SimilarityCache, new_cache}
use parcus.Cache.Similarity.Snapshot.{Codec, Row, cipher_sealer, load}
use parcus.Cache.Similarity.Snapshot.Restart.{IsCodec, Call, run_new, new_cache-load_run}
use parcus.Cache.Similarity.Snapshot.Ciphers.{cipher_sealer-IsSealer}
use parcus.Cache.Encryption.Opens.{open_blob-seal_iff}
use parcus.Cache.Encryption.Store.Laws.{get-put_encrypted}
use parcus.Cache.Encryption.Store.{get, put}
use parcus.Cache.Encryption.Shredding.{get_after_bumps}
use parcus.Cache.Encryption.Providers.{
  static_provider, epoch_provider, MasterKeys, epoch_info, derived,
}
use parcus.Cache.Encryption.Memo.{static_provider-IsProvider}
use parcus.Model.{CachedResponse}
use parcus.Text.Decimal.{decimal}
use parcus.Cache.Encryption.Cipher.{
  new_cipher, all_key_len, Bytes, Aead, IsAuthentic, CacheCipher, seal, open_blob,
}
use parcus.Text.{Text, codes}
use parcus.Cache.Epoch.{bump, bump_all, epoch, upsert}
use parcus.Cache.Store as Plain

strip : Bytes → Bytes → Option Bytes
strip [] ys = some ys
strip (x ∷ xs) [] = none
strip (x ∷ xs) (y ∷ ys) = if x == y then strip xs ys else none

strip-append : (xs ys : Bytes) → strip xs (xs ++ ys) ≡ some ys
unfolding strip
strip-append [] ys = refl
strip-append (x ∷ xs) ys = ground (arith, strip-append xs ys)

strip-some : (xs ys zs : Bytes) → strip xs ys ≡ some zs → ys ≡ xs ++ zs
unfolding strip
strip-some [] ys zs h = ground arith
strip-some (x ∷ xs) [] zs h = absurd (ground arith)
strip-some (x ∷ xs) (y ∷ ys) zs h = ground (arith, strip-some xs ys zs)

abbrev frame : Bytes → Bytes
frame xs = length xs ∷ xs

frame_prefix : (xs ys s t : Bytes) → frame xs ++ s ≡ frame ys ++ t → xs ≡ ys
frame_prefix xs ys s t h = append_prefix xs ys s t (ground (arith, h)) (ground (arith, h))

strip-same :
    (j k a b p q : Bytes)
    → strip (frame j ++ frame b) (frame k ++ (frame a ++ p)) ≡ some q
    → (k ≡ j) × (a ≡ b)
strip-same j k a b p q e =
    let h : frame k ++ (frame a ++ p) ≡ frame j ++ (frame b ++ q) =
      strip-some (frame j ++ frame b) (frame k ++ (frame a ++ p)) q e
      ∙ append_assoc (frame j) (frame b) q in
    let key = frame_prefix k j (frame a ++ p) (frame b ++ q) h in
    let rest : frame j ++ (frame a ++ p) ≡ frame j ++ (frame b ++ q) =
      subst (λ i. frame i ++ (frame a ++ p) ≡ frame j ++ (frame b ++ q)) key h in
    (key, frame_prefix a b p q (append_cancel (frame j) (frame a ++ p) (frame b ++ q) rest))

strip-own : (k a p : Bytes) → strip (frame k ++ frame a) (frame k ++ (frame a ++ p)) ≡ some p
strip-own k a p =
    subst (λ b. strip (frame k ++ frame a) b ≡ some p) (append_assoc (frame k) (frame a) p)
      (strip-append (frame k ++ frame a) p)

abbrev toy : Aead
unfolding strip
toy = record {
  encrypt = λ k n p a. frame k ++ (frame a ++ p);
  decrypt = λ k n blob a. strip (frame k ++ frame a) blob;
}

strip-none :
    (j k a b p : Bytes)
    → ((k ≡ j) × (a ≡ b) → ⊥)
    → strip (frame j ++ frame b) (frame k ++ (frame a ++ p)) ≡ none
strip-none j k a b p other =
    elim (Option-cases (strip (frame j ++ frame b) (frame k ++ (frame a ++ p)))) [
      | inl e ↦ e
      | inr (q, e) ↦ absurd (other (strip-same j k a b p q e))
    ]

toy-IsAuthentic : IsAuthentic toy
unfolding toy
toy-IsAuthentic = record {
  opens = λ k n p a. strip-own k a p;
  wrong_key = λ k j n p a b other. strip-none j k a b p (λ h. other h.0);
  wrong_context = λ k j n p a b other. strip-none j k a b p (λ h. other h.1);
}

abbrev nonce : Bytes
nonce = 0 ∷ 1 ∷ 2 ∷ 3 ∷ 4 ∷ 5 ∷ 6 ∷ 7 ∷ 8 ∷ 9 ∷ 10 ∷ 11 ∷ []

abbrev old : CacheCipher
old = record { key = 1 ∷ []; previous_keys = [] }

abbrev rotated : CacheCipher
rotated = record { key = 2 ∷ []; previous_keys = (1 ∷ []) ∷ [] }

open_blob-seal_iff_example :
    open_blob toy rotated (codes "a") (seal toy old nonce (codes "a") (codes "hi"))
    ≡ some (codes "hi")
open_blob-seal_iff_example =
    open_blob-seal_iff toy toy-IsAuthentic old rotated nonce (codes "hi") (codes "a") (codes "a")
      refl

abbrev response : CachedResponse
response = record { status_code = 200; body = 7 ∷ 8 ∷ []; content_type = none }

get-put_encrypted_example :
    (get toy
      (static_provider old)
      false
      (4 + 9)
      (put toy (static_provider old) false 4 (tt, []) (codes "k") response 10 (codes "t") nonce).0
      (codes "k")
      (codes "t")).1
    ≡ some (some response)
get-put_encrypted_example =
    get-put_encrypted toy toy-IsAuthentic (static_provider old) (λ t. some (some old)) (λ s. Unit)
      (static_provider-IsProvider old) false tt [] 4 9 10 (codes "k") (codes "k") response
      (codes "t") nonce old tt refl refl

repeat : ℕ → ℕ → Bytes
repeat zero x = []
repeat (suc n) x = x ∷ repeat n x

sum : Bytes → ℕ
sum [] = 0
sum (x ∷ xs) = x + sum xs

abbrev head : Bytes → ℕ
head [] = 0
head (x ∷ xs) = x

abbrev toy_hkdf : Bytes → Text → Bytes
unfolding repeat sum
toy_hkdf m info = repeat 32 (sum info)

abbrev keys : MasterKeys
keys = record { master = []; previous_masters = []; shredded = [] }

abbrev t : Text
t = codes "t"

abbrev cipher_at : ℕ → CacheCipher
unfolding toy_hkdf decimal
cipher_at e = record { key = toy_hkdf [] (epoch_info t e); previous_keys = [] }

abbrev table : Plain.Table
unfolding seal toy cipher_at
table =
    (
      codes "k",
      record {
        response = record response {
          body = seal toy (cipher_at 0) nonce (codes "k") response.body;
        };
        expires_at = 9;
      },
    )
    ∷ []

get_after_bumps_example :
    (get toy
      (epoch_provider toy_hkdf keys (bump_all [] (t ∷ [])))
      false
      5
      ([], table)
      (codes "k")
      t).1
    ≡ some none
unfolding toy_hkdf derived new_cipher all_key_len repeat sum cipher_at epoch bump bump_all upsert
    table lookup decimal Plain.get
get_after_bumps_example =
    get_after_bumps toy_hkdf keys toy toy-IsAuthentic [] t (t ∷ []) (cipher_at 0) (cipher_at 1) []
      table 5 (codes "k") response nonce
      (λ m n q. let first : 2275 ≡ 2276 = ap head q in absurd (omega arith)) refl refl refl refl
      (λ k c q. absurd (cc q)) refl

-- Texts as their own vectors, which are packed as they are.
abbrev codec : Codec Text
codec = record { encode = some; decode = some }

codec-IsCodec : IsCodec codec
codec-IsCodec = record { packs = λ v. (v, refl, refl) }

abbrev embedding : Embedding Text ℕ
embedding = record {
  embed = some;
  cosine = λ v w. some (if v == w then 1 else 0);
  at_least = λ s t. leb t s;
}

abbrev remembered : List Call
remembered =
    record { nonce = nonce; text = codes "hi"; key = codes "k"; model = none; tenant = codes "t" }
    ∷ record { nonce = nonce; text = codes "ho"; key = codes "l"; model = none; tenant = codes "t" }
    ∷ []

abbrev after : SimilarityCache Text ℕ × (Unit {0} × List Row)
after = run_new codec (cipher_sealer toy (static_provider old)) 1 embedding 1 tt remembered

new_cache-load_run_example :
    (new_cache {V = Text} {Score = ℕ} 1 1
      (some (load codec (cipher_sealer toy (static_provider old)) 1 false after.1).1)).entries
    ≡ after.0.entries
new_cache-load_run_example =
    new_cache-load_run codec (cipher_sealer toy (static_provider old)) 1
      (λ t k b. open_blob toy old k b) (λ s. Unit) codec-IsCodec
      (cipher_sealer-IsSealer toy toy-IsAuthentic (static_provider old) (λ t. old) (λ s. Unit)
        (static_provider-IsProvider old))
      embedding 1 tt remembered tt (refl, (refl, tt))

-- ===== src/Lib.antt =====
-- parcus: a local proxy between an application and the providers of language models. It shortens
-- requests, caches answers, and keeps a memory and limits for each tenant. This library models the
-- parts that decide what becomes of a request.
--
-- The parts, with the files of the source below src/parcus/:
--   Model               model.py: the canonical request that every part works on
--   Json                values as Python's `json` module decodes them, and `json.dumps`
--   Spans               spans.py: the prose and the fenced code of a text
--   Invariants          invariants.py: the checks that a compressed request has to pass
--   Compress.Rewrite    what `LosslessCompressor.compress` and `FillerCompressor.compress` share
--   Compress.Lossless   compress/lossless.py
--   Compress.Filler     compress/filler.py
--   Compress.Sampling   compress/sampling.py: which calls run the check
--   Compress.Dedup      compress/dedup.py
--   Compress.Elision    compress/elision.py
--   Compress.Chain      compress/chain.py and compress/null.py
--   Compress.Learned    compress/learned.py
--   Tokens              tokenize.py
--   Quota               quota.py: a token bucket for each tenant
--   Tenant              tenant.py
--   Cache.Store         cache/sqlite_cache.py
--   Cache.Policy        cache/policy.py and cache/key.py
--   Cache.Epoch         cache/epoch.py
--   Cache.Seen          cache/seen.py
--   Cache.Strategy      cache/strategy.py
--   Cache.Encryption    cache/encryption.py: the cipher (Cipher), the providers of ciphers (Providers)
--                       and the encrypting cache (Store)
--   Cache.Contexts      cache/context_cache.py
--   Cache.Similarity    cache/similarity.py; cache/similarity_store.py (Snapshot)
--   Settings            config/settings.py, and `_build_cipher_provider` of cli.py
--   Memory.Compaction   memory/compaction.py
--   Memory.Provider     memory/provider.py
--   Memory.Terms        memory/terms.py
--   Memory.Summary      memory/summary.py
--   Memory.Retrieval    memory/retrieval.py
--   Memory.Persisted    memory/sqlite_store.py
--   Memory.Graph        memory/model.py, memory/store.py and memory/ingest.py
--   Proxy.Dialects      proxy/dialects.py: parsing (Parse, Gemini) and writing (Serialize)
--   Proxy.Usage         proxy/usage.py
--   Proxy.Engine        proxy/engine.py: routing, headers and the cache key; the guards (Admit), what
--                       the engine is given (Ports), `_apply_memory` (Memory), `_compress_request` and
--                       the statistics (Outbound), what it answers (Result), `_handle` up to the call
--                       of the upstream (Handle) and from the answer on (Finish), `prepare_stream`
--                       (Stream), the event that `handle` records (Event)
--   Proxy.Server        proxy/app.py: the routes and the headers of an answer
--   Redact              redact/redactor.py
--   Obs                 obs/sinks.py: the running totals (Totals) and the sinks (Sink); obs/store.py:
--                       the tables and their queries (Store)
-- Prelude and Text hold the shared helpers, with Python's string methods. Tests applies the
-- theorems to concrete values.
--
-- The parts meet in the canonical request. A parser of Proxy.Dialects builds it, with spans from
-- Spans; a pass of Compress takes it to another one, and Invariants compares the two;
-- Cache.Policy derives the cache's key from it, Cache.Strategy marks it, Memory.Compaction drops
-- old turns of it, and `serialize` writes it into the body that is sent on. The engine calls all
-- of them in turn; it knows the compressor, the caches and the memories by an interface, `Ports`,
-- whose methods take and return a state. Proxy.Server stands before it, and Obs behind: its event
-- is what a sink records. Where the code awaits (`_handle` the upstream, `ensure` the provider)
-- other calls may run; such a method is two functions, one up to the call and one from its answer
-- on.
--
-- How the code is rendered. A text is a list of code points. An object with state is a record
-- that an operation takes and returns; a `set` is a list. Where the code mutates a dict in place
-- the model returns the new one. Whether a pass returns the same object, which the code tests by
-- `is`, is the number of pieces that it changed. An exception is `none`. The clock is an
-- argument, in whole units. The floats of the rate limiter, of the settings, of the scores of
-- retrieval and of the sampler are exact: parts of a token, millionths, and numerators with a
-- denominator.
--
-- Parameters: the token counter, which may raise; `str.lower`; SHA-256; the patterns of the cache
-- policy; the redactor and its regular expressions; the memory and the summariser; `json.loads`,
-- `int` of a JSON number and the encoding as UTF-8; AES-GCM, HKDF and the key management service;
-- the embedder and the cosine with the order of the scores; the package tiktoken; the reducer of
-- the learned pass; the headers of the web framework; base64 and the files of keys; the packing
-- of vectors; the division and the rounding of the metrics, and the rows that `GROUP BY` lists.
--
-- Recursion is structural, but for the scan of a text for fences, which runs on fuel: one more
-- than the length of the text, which is enough since every fence takes six characters, and for
-- the digits of a number, which run on one more than the number.
--
-- Not modelled: the vectors of the memory graph and the retrieval by them, and the evaluation;
-- and what is input and output only, the upstream client, the command line, and the texts of the
-- log and of the metrics pages. How the settings are read from the environment is the settings
-- package's; the check of a request's method and the pages that it adds itself (/docs) are the web
-- framework's. The limits of a database are not modelled, nor are a body that is nested so deeply
-- that `json.loads` raises RecursionError, a text with a lone surrogate, which cannot be encoded
-- (the engine then goes without a key, or without a marker), and a memory provider that raises when
-- it makes a tenant's memory. The monotonic clock of the rate limiter and the clock of the caches
-- go together: one argument stands for both.
pub mod Prelude
pub mod Text
pub mod Json
pub mod Model
pub mod Obs
pub mod Tokens
pub mod Spans
pub mod Invariants
pub mod Compress
pub mod Quota
pub mod Tenant
pub mod Settings
pub mod Tests
pub mod Cache
pub mod Memory
pub mod Proxy
pub mod Redact

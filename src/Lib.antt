-- ===== src/Lib.antt =====
-- The masking engine of ZlauDeR (crates/zlauder-engine), a proxy that replaces personal data and
-- registered secrets in the requests to a language model by tokens, and puts the plaintext back in
-- the answers.
--
-- A request's texts are masked: the detectors report spans (detect.rs, secrets.rs), the policy
-- (config.rs) filters them and gives each an operator, the overlaps are resolved, and
-- `MaskEngine::apply` (lib.rs) splices tokens (token.rs) into the text, interns the plaintext in
-- the session store (store.rs) and records it in a manifest (manifest.rs). An answer's texts are
-- unmasked: each token is looked up in the manifest, then in the store, unless it is one of a
-- broker secret, or of an owner-reveal secret at the tool boundary.
--
-- The files, each with the code that it models:
--   Prelude       shared names, lists, byte strings, sorting, slices
--   Surface       surface.rs, and surface_tag of secrets.rs
--   Externals     blake3, AES-GCM and the Unicode case mappings, as parameters with named laws
--   Error         error.rs, and the result type
--   Token         token.rs; Token/Grammar holds the functions, the other children the lemmas
--   Store         store.rs; its children hold the lemmas
--   Manifest      manifest.rs
--   Config        config.rs: profiles, categories, operators, allow-list, reveal marker
--   Detect        detect.rs and detect_secrets of secrets.rs, with the records of cache.rs;
--                 Detect/Passes holds the passes and run_detection,
--                 Detect/Gate the plausibility gate
--   Engine        the operations of MaskEngine in lib.rs: Engine/Apply (apply, with the store
--                 that it leaves after an error), Engine/Chars
--                 (snap_to_char_boundary, mask_value), Engine/Bypass (user_bypass_segments),
--                 Engine/Unmask (unmask_inner, its callers, reveal_audit),
--                 Engine/Cache (cache.rs), Engine/Mask (mask, mask_user_bypass,
--                 detect_and_cache), Engine/Mask/Prewarm (prewarm_batch)
--   Proxy         the crate zlauder-proxy: Proxy/Split and Proxy/Sse (sse.rs), Proxy/Walk (the
--                 walk of walk.rs), Proxy/Body (mask_request of walk.rs),
--                 Proxy/Wire (the types of a request), Proxy/Unmasked (unmask_value)
--   Broker        broker.rs; Broker/Resolve holds broker_resolve_pointers of lib.rs
--   Json          the JSON values that are walked
--   Secrets       secrets.rs: compile_secrets and secrets_fingerprint
--   Ml            MlConfig of config.rs and compute_ml_fp of lib.rs; Ml/Slot holds MlRuntime and the
--                 ml_ methods of MaskEngine in lib.rs, as functions on the slot
--   Tests         a toy digest and cipher, sample data, and an instance of each theorem
--
-- A text is the list of its UTF-8 bytes, and offsets are byte offsets, as in the source. A
-- definition keeps the name of its function. Fallible code returns `Result`; code that changes the
-- store takes it and returns it. A hash map is an association list. A nonce of the cipher is an
-- argument, as is the time. Scores are finite `f32` values that are not negative, counted in units
-- of 2^-149; the arithmetic on them is a parameter that rounds, and a NaN score is not modelled. The
-- minimal score of a recognizer is any `f32`, by its bits. The counters of the recognizer slot wrap
-- at 2^64. The loops are structural recursion; `snap_up` has the distance to the end of the text as
-- its fuel, and `user_bypass_segments` the length of the text, which suffice, since each round
-- passes a byte.
--
-- `mask` calls itself on the segments of a user message, and its fuel bounds how deep; a depth of
-- one suffices. The locks of the engine are left out: a call runs by itself.
--
-- serde_json is a parameter of `mask_request`; the walk takes the nonces of each text by the number
-- of texts that were masked before it.
--
-- Not modelled: serde and the parsing of configuration files; the fingerprint of the policy; the
-- inference backends (ml.rs); the regular expressions of recognizers.rs; the rest of the proxy, its
-- monitor, the hooks, the secret providers and the state directory.
pub mod Broker
pub mod Config
pub mod Detect
pub mod Engine
pub mod Error
pub mod Externals
pub mod Json
pub mod Manifest
pub mod Ml
pub mod Prelude
pub mod Proxy
pub mod Secrets
pub mod Store
pub mod Surface
pub mod Tests
pub mod Token

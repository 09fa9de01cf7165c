-- ===== src/Node/Request/Scope.antt =====
-- What a request that was validated, and one that was authorized, is bound to
-- (packages/agent-local-node-protocol/ameme_agent_local_node_protocol/protocol.py).
use ameme.Base.{
  string_eq, ℕ, ◌≤◌, ◌≡◌, refl, String, true, false, List, [], ◌∷◌, ◌==◌, ◌||◌, not, ltb, length,
  ok, >>=-returns, on_return, on_check, raise_if, ||-eq-false, not-eq-false, &&-eq-true,
  raise_if-passes, ltb-eq-false,
}
use mathlib.Core.Path.{subst}
use ameme.Json.{Json}
use ameme.Json.Access.{at_key, is_text}
use ameme.Node.Codec.{Codec}
use ameme.Node.Checks.{
  schema_unsupported, canonical_bytes, digest_json, exact_keys, identifier, texts_eq,
}
use ameme.Node.Payload.{validate_payload}
use ameme.Node.Request.{
  Control, Request, request_keys, validate_control, validate_binding, validate_request,
  protocol_version,
}

texts_eq-path : (xs ys : List String) → texts_eq xs ys ≡ true → xs ≡ ys
unfolding texts_eq
texts_eq-path [] [] h = refl
texts_eq-path [] (y ∷ ys) h = cc h
texts_eq-path (x ∷ xs) [] h = cc h
texts_eq-path (x ∷ xs) (y ∷ ys) h =
    let (first, rest) = &&-eq-true (x == y) (texts_eq xs ys) h in
    cc ((string_eq.same_iff x y).0 first, texts_eq-path xs ys rest)

-- The control part of a request against its document.
pub record IsBound (x : Codec) (r : Request) : Type 0 where
  pub scopes :
      validate_payload x r.control.operation r.payload
      ≡ ok (r.control.spaces, r.control.memory_types)
  pub digest : digest_json x r.payload ≡ ok r.control.payload_digest
  pub size : (bytes : List ℕ) × (canonical_bytes x r.document ≡ ok bytes) × (length bytes ≤ 65536)

validate_binding-IsBound :
    (x : Codec) (request : Json) (c : Control) (payload : Json) {u : Unit {0}}
    → validate_binding x request c payload ≡ ok u
    → (validate_payload x c.operation payload ≡ ok (c.spaces, c.memory_types))
      × (digest_json x payload ≡ ok c.payload_digest)
      × ((bytes : List ℕ) × (canonical_bytes x request ≡ ok bytes) × (length bytes ≤ 65536))
unfolding validate_binding
validate_binding-IsBound x request c payload h =
    let (asked, found, h) = >>=-returns (validate_payload x c.operation payload) _ h in
    let mismatch = not (texts_eq c.spaces asked.0) || not (texts_eq c.memory_types asked.1) in
    let (_, same, h) = >>=-returns (raise_if mismatch _) _ h in
    let (digest, digested, h) = >>=-returns (digest_json x payload) _ h in
    let (_, equal, h) = >>=-returns (raise_if (not (c.payload_digest == digest)) _) _ h in
    let (bytes, written, h) = >>=-returns (canonical_bytes x request) _ h in
    let (spaces, types) =
      ||-eq-false (not (texts_eq c.spaces asked.0)) (not (texts_eq c.memory_types asked.1))
        (raise_if-passes mismatch _ same) in
    let spaces' = texts_eq-path c.spaces asked.0 (not-eq-false _ spaces) in
    let types' = texts_eq-path c.memory_types asked.1 (not-eq-false _ types) in
    let fits : ltb 65536 (length bytes) ≡ false = raise_if-passes _ _ h in
    let named : c.payload_digest ≡ digest =
      (string_eq.same_iff c.payload_digest digest).0 (not-eq-false _ (raise_if-passes _ _ equal)) in
    (
      rw (spaces', types') found,
      rw named digested,
      (bytes, written, ltb-eq-false 65536 (length bytes) fits),
    )

-- A request that is validated is the document that came in; its spaces and types of memory are those that its
-- payload asks for under its operation, its digest is that of the payload, and its canonical bytes are at most 65536.
pub validate_request-IsBound :
    (x : Codec) (request : Json) (r : Request)
    → validate_request x request ≡ ok r
    → IsBound x r × (r.document ≡ request)
unfolding validate_request
validate_request-IsBound x request r h = on_return (exact_keys request_keys request) _ h (λ fs _ h.
    on_check (not (is_text protocol_version (at_key "protocol_version" fs))) schema_unsupported _ h
      (λ _ h. on_return (identifier (at_key "request_id" fs)) _ h (λ id _ h.
        on_return (validate_control (at_key "control" fs)) _ h (λ c _ h.
          on_return (validate_binding x request c (at_key "payload" fs)) _ h (λ _ bound h.
            let same : record {
              document = request;
              request_id = id;
              control = c;
              payload = at_key "payload" fs;
            }
                ≡ r =
              cc h in
            let (scopes, digest, size) =
              validate_binding-IsBound x request c (at_key "payload" fs) bound in
            subst (λ r. IsBound x r × (r.document ≡ request)) same
              (record { scopes = scopes; digest = digest; size = size }, refl))))))

-- ===== src/Channel/Frames/Parts.antt =====
-- What holds of the parts of a frame that passed their checks (`_proof`, `_verify_proof`, `_application_bytes`,
-- `_decoded_application` and the digest of packages/agent-local-node-protocol/ameme_agent_local_node_protocol/channel.py).
use ameme.Base.{
  string_eq, nat_eq, ℕ, ◌≤◌, ◌≡◌, refl, arith, String, ◌+s◌, Bool, true, false, Option, none, some,
  [], ◌∷◌, ◌++◌, ◌==◌, ◌&&◌, ◌||◌, not, leb, ltb, length, is_empty, if◌then◌else◌, ok, err,
  on_return, on_check, ok-injective, not-eq-false, ||-eq-false, ltb-eq-false, sym, ap, ◌∙◌,
}
use ameme.Base.Int.{pos, negsuc}
use ameme.Base.Bytes.{Bytes}
use ameme.Json.{Json, Fields, null, bool, int, real, str, arr, obj, canonical_json}
use ameme.Json.Access.{at_key, is_text}
use ameme.Node.Codec.{Codec}
use ameme.Node.Checks.{Checked, is_plain, canonical_bytes, invalid_request}
use ameme.Channel.Secrets.{Secrets}
use ameme.Channel.Checks.{
  ChannelCode, channel_auth_failed, channel_sequence_invalid, channel_payload_invalid, ChannelError,
  channel, let_through, text_where, is_tagged, digest_text, nonce_text, idempotency_ref,
  sequence_number, without_proof, sha256_bytes, proof_of, verify_proof,
}
use ameme.Channel.Frames.{application_bytes, decoded, decoded_application, frame_application}

pub if_ok :
    {A : Type 0} (b : Bool) (a d : A) (c : ChannelError)
    → (if b then ok a else err c) ≡ ok d
    → (b ≡ true) × (a ≡ d)
if_ok true a d c h = (refl, ok-injective a d h)
if_ok false a d c h = cc h

if_err :
    {A : Type 0} (b : Bool) (a d : A) (c : ChannelError)
    → (if b then err c else ok a) ≡ ok d
    → (a ≡ d) × (b ≡ false)
if_err true a d c h = cc h
if_err false a d c h = (ok-injective a d h, refl)

pub let_through-ok : {A : Type 0} (m : Checked A) (a : A) → let_through m ≡ ok a → m ≡ ok a
let_through-ok (ok b) a h = ap ok (ok-injective b a h)
let_through-ok (err c) a h = cc h

not_empty-length : (b : Bytes) → is_empty b ≡ false → 1 ≤ length b
not_empty-length [] h = cc h
not_empty-length (y ∷ ys) h = omega arith

pub application_bytes-bounds :
    (maximum : ℕ) (b d : Bytes)
    → application_bytes maximum b ≡ ok d
    → (b ≡ d) × (1 ≤ length b) × (length b ≤ maximum)
unfolding application_bytes
application_bytes-bounds maximum b d h =
    let (same, fits) =
      if_err (is_empty b || ltb maximum (length b)) b d (channel channel_payload_invalid) h in
    let (some_bytes, short) = ||-eq-false (is_empty b) (ltb maximum (length b)) fits in
    (same, not_empty-length b some_bytes, ltb-eq-false maximum (length b) short)

-- A text that passes a test is the value that was tested.
pub text_where-same :
    (c : ChannelCode) (test : String → Bool) (v : Json) (s : String)
    → text_where c test v ≡ ok s
    → v ≡ str s
text_where-same c test (str r) s h = ap str (if_ok (test r) r s (channel c) h).1
text_where-same c test null s h = cc h
text_where-same c test (bool b) s h = cc h
text_where-same c test (int n) s h = cc h
text_where-same c test (real r) s h = cc h
text_where-same c test (arr vs) s h = cc h
text_where-same c test (obj fs) s h = cc h

pub nonce_text-same : (v : Json) (s : String) → nonce_text v ≡ ok s → v ≡ str s
unfolding nonce_text
nonce_text-same v s h = text_where-same _ _ v s h

pub idempotency_ref-same : (v : Json) (s : String) → idempotency_ref v ≡ ok s → v ≡ str s
unfolding idempotency_ref
idempotency_ref-same v s h = text_where-same _ _ v s h

digest_text-same : (v : Json) (s : String) → digest_text v ≡ ok s → v ≡ str s
unfolding digest_text
digest_text-same v s h = text_where-same _ _ v s h

pub is_text-same : (s : String) (v : Json) → is_text s v ≡ true → v ≡ str s
is_text-same s (str r) h = ap str (sym ((string_eq.same_iff s r).0 h))
is_text-same s null h = cc h
is_text-same s (bool b) h = cc h
is_text-same s (int n) h = cc h
is_text-same s (real r) h = cc h
is_text-same s (arr vs) h = cc h
is_text-same s (obj fs) h = cc h

pub sequence_number-same :
    (v : Json) (n : ℕ)
    → sequence_number v ≡ ok n
    → (v ≡ int (pos n)) × (1 ≤ n) × (n ≤ 9223372036854775807)
unfolding sequence_number
sequence_number-same (int (pos k)) n h =
    let (fits, same) =
      if_ok (leb 1 k && leb k 9223372036854775807) k n (channel channel_sequence_invalid) h in
    (ap (λ i. int (pos i)) same, ground (arith, fits, same), ground (arith, fits, same))
sequence_number-same (int (negsuc k)) n h = absurd (cc h)
sequence_number-same null n h = absurd (cc h)
sequence_number-same (bool b) n h = absurd (cc h)
sequence_number-same (str s) n h = absurd (cc h)
sequence_number-same (real r) n h = absurd (cc h)
sequence_number-same (arr vs) n h = absurd (cc h)
sequence_number-same (obj fs) n h = absurd (cc h)

module _ (x : Codec) (y : Secrets) where
  pub canonical_bytes-plain :
      (v : Json) (b : Bytes)
      → let_through (canonical_bytes x v) ≡ ok b
      → (is_plain v ≡ true) × (b ≡ x.encode (canonical_json v))
  unfolding canonical_bytes
  canonical_bytes-plain v b h =
      on_check (not (is_plain v)) invalid_request _ (let_through-ok (canonical_bytes x v) b h)
        (λ plain h. (not-eq-false (is_plain v) plain, sym (ok-injective _ b h)))

  -- A proof is the HMAC of the label, a zero and the canonical text.
  proof_of-same :
      (key : Bytes) (label proof : String) (fs : Fields)
      → proof_of x y key label fs ≡ ok proof
      → proof ≡ "hmac_" +s y.hmac_hex key (x.encode label ++ 0 ∷ x.encode (canonical_json (obj fs)))
  unfolding proof_of
  proof_of-same key label proof fs h =
      on_return (let_through (canonical_bytes x (obj fs))) _ h (λ b written h.
        sym (ok-injective _ proof h)
        ∙ ap (λ c. "hmac_" +s y.hmac_hex key (x.encode label ++ 0 ∷ c))
            (canonical_bytes-plain (obj fs) b written).1)

  -- A document whose proof is verified gives the HMAC of the rest of it.
  pub verify_proof-same :
      (key : Bytes) (label : String) (fs : Fields)
      → verify_proof x y key label fs ≡ ok tt
      → at_key "proof" fs
        ≡ str (
            "hmac_"
            +s y.hmac_hex key
                (x.encode label ++ 0 ∷ x.encode (canonical_json (obj (without_proof fs)))))
  unfolding verify_proof
  verify_proof-same key label fs h =
      on_return (text_where channel_auth_failed (is_tagged 5 "hmac_") (at_key "proof" fs)) _ h
        (λ proof given h.
          on_return (proof_of x y key label (without_proof fs)) _ h (λ expected made h.
            text_where-same _ _ (at_key "proof" fs) proof given
            ∙ ap str (
                (string_eq.same_iff proof expected).0
                  (if_ok (proof == expected) tt tt (channel channel_auth_failed) h).0
                ∙ proof_of-same key label expected (without_proof fs) made)))

  -- The text of an application in a frame, what it decodes to, and the digest that the frame gives of it.
  pub record IsApplication (maximum : ℕ) (fs : Fields) (application : Bytes) : Type 0 where
    pub text : String
    pub given : at_key "application_b64" fs ≡ str text
    pub decodes : y.b64decode text ≡ some application
    pub digest : at_key "application_digest" fs ≡ str ("sha256_" +s x.sha256_hex application)
    pub not_empty : 1 ≤ length application
    pub bounded : length application ≤ maximum

  decoded-same :
      (maximum : ℕ) (o : Option Bytes) (b : Bytes)
      → decoded maximum o ≡ ok b
      → (o ≡ some b) × (1 ≤ length b) × (length b ≤ maximum)
  unfolding decoded
  decoded-same maximum none b h = absurd (cc h)
  decoded-same maximum (some d) b h =
      let (same, filled, short) = application_bytes-bounds maximum d b h in
      (ap some same, rw (sym same) filled, rw (sym same) short)

  decoded_application-same :
      (maximum : ℕ) (v : Json) (b : Bytes)
      → decoded_application y maximum v ≡ ok b
      → (s : String) × (v ≡ str s)
        × (y.b64decode s ≡ some b)
        × (1 ≤ length b)
        × (length b ≤ maximum)
  unfolding decoded_application
  decoded_application-same maximum (str s) b h =
      let (decodes, filled, short) = decoded-same maximum (y.b64decode s) b h in
      (s, refl, decodes, filled, short)
  decoded_application-same maximum null b h = absurd (cc h)
  decoded_application-same maximum (bool c) b h = absurd (cc h)
  decoded_application-same maximum (int n) b h = absurd (cc h)
  decoded_application-same maximum (real r) b h = absurd (cc h)
  decoded_application-same maximum (arr vs) b h = absurd (cc h)
  decoded_application-same maximum (obj fs) b h = absurd (cc h)

  pub frame_application-IsApplication :
      (maximum : ℕ) (fs : Fields) (b : Bytes)
      → frame_application x y maximum fs ≡ ok b
      → IsApplication maximum fs b
  unfolding frame_application sha256_bytes
  frame_application-IsApplication maximum fs b h =
      on_return (decoded_application y maximum (at_key "application_b64" fs)) _ h (λ d read h.
        on_return (digest_text (at_key "application_digest" fs)) _ h (λ digest named h.
          on_check (not (digest == sha256_bytes x y d)) (channel channel_payload_invalid) _ h
            (λ matched h.
              let same : d ≡ b = ok-injective d b h in
              let (s, given, decodes, filled, short) =
                decoded_application-same maximum (at_key "application_b64" fs) b
                  (read ∙ ap ok same) in
              record {
                text = s;
                given = given;
                decodes = decodes;
                digest =
                    digest_text-same (at_key "application_digest" fs) digest named
                    ∙ ap str (
                        (string_eq.same_iff digest (sha256_bytes x y d)).0
                          (not-eq-false (digest == sha256_bytes x y d) matched)
                        ∙ ap (sha256_bytes x y) same);
                not_empty = filled;
                bounded = short;
              })))

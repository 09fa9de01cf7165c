-- ===== src/Channel/Frames/Fresh.antt =====
-- The request frames that are taken (`parse_request_frame` of
-- packages/agent-local-node-protocol/ameme_agent_local_node_protocol/channel.py).
use ameme.Channel.Checks.{channel_auth_failed}
use ameme.Base.{length}
use ameme.Base.{leb}
use ameme.Base.{Outcome}
use ameme.Base.{
  string_eq, nat_eq, ℕ, ◌≡◌, ◌≢◌, refl, String, Bool, true, false, List, ◌==◌, ◌&&◌, ◌||◌, not, ok,
  err, if◌then◌else◌, on_return, on_check, ok-injective, not-eq-false, ||-eq-false, sym, ap, ◌∙◌,
}
use mathlib.Core.Path.{subst}
use ameme.Base.Sets.{contains, add, contains-add}
use ameme.Base.Bytes.{Bytes}
use ameme.Json.{Json, Fields, int, str, obj, canonical_json}
use ameme.Base.Int.{pos}
use ameme.Base.{◌≤◌, arith, ◌+s◌, ◌++◌, ◌∷◌, &&-eq-true}
use ameme.Channel.Pairing.{channel_version}
use ameme.Channel.Frames.Parts.{
  IsApplication, is_text-same, nonce_text-same, idempotency_ref-same, sequence_number-same,
  verify_proof-same, frame_application-IsApplication,
}
use ameme.Json.Access.{at_key, is_text}
use ameme.Node.Codec.{Codec}
use ameme.Node.Checks.{Violation}
use ameme.Node.Request.{Request}
use ameme.Node.Lines.{parse_strict_json_line, parse_request_line}
use ameme.Channel.Secrets.{Secrets}
use ameme.Channel.Checks.{
  ChannelCode, invalid_channel_message, channel_binding_failed, channel_sequence_invalid,
  channel_replay, channel_payload_invalid, ChannelError, channel, recode, exact, nonce_text,
  idempotency_ref, sequence_number, secret_key, without_proof, verify_proof,
}
use ameme.Channel.Frames.{
  request_frame_keys, is_framed, Taken, frame_application, parse_request_frame,
}

-- The document that a line of a request frame holds, and the nonce in it; both are of the line alone.
pub record IsFrame (x : Codec) (line : Bytes) (document : Fields) (nonce : String) : Type 0 where
  pub value : Json
  pub parsed :
      recode {A = Json} invalid_channel_message (parse_strict_json_line x 786432 line) ≡ ok value
  pub keyed : exact request_frame_keys value ≡ ok document
  pub noted : nonce_text (at_key "nonce" document) ≡ ok nonce

-- What holds of a request frame that is taken.
pub record IsTaken (x : Codec) (y : Secrets) (line key : Bytes) (session_id : String) (expected : ℕ)
    (seen : List String) (t : Taken Request) : Type 0 where
  pub nonce : String
  pub frame : IsFrame x line t.document nonce
  pub kind : at_key "message_type" t.document ≡ str "request"
  pub session : at_key "session_id" t.document ≡ str session_id
  pub number : at_key "sequence" t.document ≡ int (pos expected)
  pub positive : 1 ≤ expected
  pub marked : at_key "nonce" t.document ≡ str nonce
  pub fresh : contains nonce seen ≡ false
  pub proven :
      at_key "proof" t.document
      ≡ str (
          "hmac_"
          +s y.hmac_hex key (
              x.encode "request-frame"
              ++ 0 ∷ x.encode (canonical_json (obj (without_proof t.document)))))
  pub body : IsApplication x y 65536 t.document t.application
  pub request : parse_request_line x t.application ≡ ok t.message
  pub slot : at_key "idempotency_ref" t.document ≡ str t.message.control.idempotency_slot
  pub kept : t.seen_nonces ≡ add nonce seen

-- A recoded call that returns returned before.
pub recode-ok :
    {A : Type 0} (c : ChannelCode) (m : Outcome Violation A) (a : A) → recode c m ≡ ok a → m ≡ ok a
recode-ok c (ok b) a h = ap ok (ok-injective b a h)
recode-ok c (err d) a h = cc h

if_returns :
    (b : Bool) (key k : Bytes) (c : ChannelError) → (if b then ok key else err c) ≡ ok k → k ≡ key
if_returns true key k c h = sym (ok-injective key k h)
if_returns false key k c h = cc h

secret_key-same : (key k : Bytes) → secret_key key ≡ ok k → k ≡ key
unfolding secret_key
secret_key-same key k h =
    if_returns (leb 32 (length key) && leb (length key) 256) key k (channel channel_auth_failed) h

is_framed-kind :
    (kind : String) (fs : Fields) → is_framed kind fs ≡ true → at_key "message_type" fs ≡ str kind
unfolding is_framed
is_framed-kind kind fs h =
    let (front, _) =
      &&-eq-true
        (is_text channel_version (at_key "channel_protocol" fs)
          && is_text kind (at_key "message_type" fs))
        _ h in
    is_text-same kind (at_key "message_type" fs)
      (&&-eq-true (is_text channel_version (at_key "channel_protocol" fs)) _ front).1

expected_number :
    (v : Json) (n expected : ℕ)
    → sequence_number v ≡ ok n
    → not (n == expected) ≡ false
    → (v ≡ int (pos expected)) × (1 ≤ expected)
expected_number v n expected numbered in_turn =
    let same = (nat_eq.same_iff n expected).0 (not-eq-false (n == expected) in_turn) in
    let (is_it, positive, _) = sequence_number-same v n numbered in
    (is_it ∙ ap (λ k. int (pos k)) same, omega (arith, positive, same))

-- A request frame that is taken has the session and the sequence number that were expected, a nonce that was not seen,
-- and for its proof the HMAC under the key of the label, a zero byte and the canonical text of the rest of the frame.
-- Its application is what its base64 text decodes to, 1 to 65536 bytes that have the SHA-256 digest the frame gives and
-- are a valid request whose slot the frame names; and its nonce is the only one that is added to those seen.
pub parse_request_frame-IsTaken :
    (x : Codec) (y : Secrets) (line key : Bytes) (session_id : String) (expected : ℕ)
    (seen : List String) (t : Taken Request)
    → parse_request_frame x y line key session_id expected seen ≡ ok t
    → IsTaken x y line key session_id expected seen t
unfolding parse_request_frame
parse_request_frame-IsTaken x y line key session_id expected seen t h =
    on_return (recode invalid_channel_message (parse_strict_json_line x 786432 line)) _ h
      (λ value parsed h. on_return (exact request_frame_keys value) _ h (λ document keyed h.
        let here = is_text session_id (at_key "session_id" document) in
        on_check (not (is_framed "request" document) || not here) (channel channel_binding_failed) _
          h
          (λ bound h.
            on_return (sequence_number (at_key "sequence" document)) _ h (λ number numbered h.
              on_check (not (number == expected)) (channel channel_sequence_invalid) _ h
                (λ in_turn h. on_return (nonce_text (at_key "nonce" document)) _ h (λ nonce noted h.
                  on_check (contains nonce seen) (channel channel_replay) _ h (λ fresh h.
                    on_return (secret_key key) _ h (λ k secret h.
                      on_return (verify_proof x y k "request-frame" document) _ h (λ _ proven h.
                        on_return (frame_application x y 65536 document) _ h (λ body decoded h.
                          on_return (recode channel_payload_invalid (parse_request_line x body)) _ h
                            (λ request asked h.
                              on_return (idempotency_ref (at_key "idempotency_ref" document)) _ h
                                (λ slot named h.
                                  on_check (not (slot == request.control.idempotency_slot))
                                    (channel channel_binding_failed) _ h
                                    (λ matched h.
                                      subst (IsTaken x y line key session_id expected seen)
                                        (ok-injective _ t h)
                                        (record {
                                          nonce = nonce;
                                          frame = record {
                                            value = value;
                                            parsed = parsed;
                                            keyed = keyed;
                                            noted = noted;
                                          };
                                          kind = is_framed-kind "request" document (
                                              not-eq-false (is_framed "request" document)
                                                (||-eq-false (not (is_framed "request" document))
                                                  (not here) bound).0);
                                          session =
                                              is_text-same session_id (at_key "session_id" document)
                                                (not-eq-false here
                                                  (||-eq-false (not (is_framed "request" document))
                                                    (not here) bound).1);
                                          number =
                                              (expected_number (at_key "sequence" document) number
                                                expected numbered in_turn).0;
                                          positive =
                                              (expected_number (at_key "sequence" document) number
                                                expected numbered in_turn).1;
                                          marked =
                                              nonce_text-same (at_key "nonce" document) nonce noted;
                                          fresh = fresh;
                                          proven =
                                              verify_proof-same x y key "request-frame" document (
                                                subst
                                                  (λ k.
                                                    verify_proof x y k "request-frame" document
                                                    ≡ ok tt)
                                                  (secret_key-same key k secret) proven);
                                          body =
                                              frame_application-IsApplication x y 65536 document
                                                body decoded;
                                          request =
                                              recode-ok channel_payload_invalid
                                                (parse_request_line x body) request asked;
                                          slot =
                                              idempotency_ref-same
                                                (at_key "idempotency_ref" document) slot named
                                              ∙ ap str (
                                                  (string_eq.same_iff slot
                                                      request.control.idempotency_slot).0
                                                    (not-eq-false
                                                      (slot == request.control.idempotency_slot)
                                                      matched));
                                          kept = refl;
                                        }))))))))))))))

nonce_of-one :
    (x : Codec) (line : Bytes) (d e : Fields) (n k : String)
    → IsFrame x line d n
    → IsFrame x line e k
    → n ≡ k
nonce_of-one x line d e n k p q =
    let values = ok-injective p.value q.value (sym p.parsed ∙ q.parsed) in
    let documents =
      ok-injective d e (sym p.keyed ∙ ap (exact request_frame_keys) values ∙ q.keyed) in
    ok-injective n k (sym p.noted ∙ ap (λ fs. nonce_text (at_key "nonce" fs)) documents ∙ q.noted)

-- A line that was taken as a request frame is not taken again against the nonces that are then seen, under any key,
-- session and sequence number.
pub parse_request_frame-replay :
    (x : Codec) (y : Secrets) (line key other_key : Bytes) (session_id other_id : String)
    (expected number : ℕ) (seen : List String) (t u : Taken Request)
    → parse_request_frame x y line key session_id expected seen ≡ ok t
    → parse_request_frame x y line other_key other_id number t.seen_nonces ≢ ok u
parse_request_frame-replay x y line key other_key session_id other_id expected number seen t u h
      again =
    let first = parse_request_frame-IsTaken x y line key session_id expected seen t h in
    let second =
      parse_request_frame-IsTaken x y line other_key other_id number t.seen_nonces u again in
    let same =
      nonce_of-one x line t.document u.document first.nonce second.nonce first.frame second.frame in
    let kept = ap (contains second.nonce) first.kept ∙ contains-add first.nonce second.nonce seen in
    let here = (string_eq.same_iff first.nonce second.nonce).1 same in cc (second.fresh, kept, here)

-- ===== src/Channel/Frames/Sealed.antt =====
-- The request frames that are built (`build_request_frame` of
-- packages/agent-local-node-protocol/ameme_agent_local_node_protocol/channel.py).
use ameme.Base.{ap}
use ameme.Base.{ℕ, ◌≤◌, ◌≡◌, arith, String, true, ◌&&◌, leb, length, ◌∙◌, ap, ok, on_return}
use ameme.Base.Int.{pos}
use ameme.Base.Bytes.{Bytes}
use ameme.Json.{Json, int, str, obj}
use ameme.Node.Codec.{Codec}
use ameme.Node.Checks.{is_plain, canonical_bytes}
use ameme.Node.Request.{Request}
use ameme.Node.Lines.{parse_request_line}
use ameme.Channel.Secrets.{Secrets}
use ameme.Channel.Checks.{
  channel, channel_sequence_invalid, channel_payload_invalid, recode, let_through,
  channel_identifier, sequence_number, nonce_text, idempotency_ref, secret_key, sha256_bytes,
  proof_of, sealed,
}
use ameme.Channel.Frames.{application_bytes, request_document, build_request_frame}
use ameme.Channel.Frames.Fresh.{recode-ok}
use ameme.Channel.Frames.Parts.{if_ok, application_bytes-bounds, canonical_bytes-plain}

-- What holds of a line and a number that a frame was built for.
pub record IsBuilt (x : Codec) (line : Bytes) (number : ℕ) : Type 0 where
  pub not_empty : 1 ≤ length line
  pub bounded : length line ≤ 65536
  pub request : Request
  pub valid : parse_request_line x line ≡ ok request
  pub positive : 1 ≤ number
  pub safe : number ≤ 9007199254740991

sequence_number-bounds : (n k : ℕ) → sequence_number (int (pos n)) ≡ ok k → (n ≡ k) × (1 ≤ n)
unfolding sequence_number
sequence_number-bounds n k h =
    let (fits, same) =
      if_ok (leb 1 n && leb n 9223372036854775807) n k (channel channel_sequence_invalid) h in
    (same, ground (arith, fits))

-- Only safe numbers have a proof: the document of a frame is hashed by its canonical bytes.
request_document-number :
    (session nonce slot digest body : String) (n : ℕ)
    → is_plain (obj (request_document session n nonce slot digest body)) ≡ true
    → n ≤ 9007199254740991
unfolding request_document is_plain
request_document-number session nonce slot digest body n h = ground (arith, h)

-- A frame is built only for a line of 1 to 65536 bytes that is a valid request, with a sequence number from 1 to
-- 2 ^ 53 - 1: the numbers above it, which `sequence_number` accepts up to 2 ^ 63 - 1, have no frame.
pub build_request_frame-IsBuilt :
    (x : Codec) (y : Secrets) (line key frame : Bytes) (session_id nonce : Json) (n : ℕ)
    → build_request_frame x y line key session_id (int (pos n)) nonce ≡ ok frame
    → IsBuilt x line n
unfolding build_request_frame sealed proof_of
build_request_frame-IsBuilt x y line key frame session_id nonce n h =
    on_return (application_bytes 65536 line) _ h (λ body sized h.
      on_return (recode channel_payload_invalid (parse_request_line x body)) _ h (λ request asked h.
        on_return (channel_identifier session_id) _ h (λ session _ h.
          on_return (sequence_number (int (pos n))) _ h (λ number numbered h.
            on_return (nonce_text nonce) _ h (λ nonce' _ h.
              on_return (idempotency_ref (str request.control.idempotency_slot)) _ h (λ slot _ h.
                on_return (secret_key key) _ h (λ k _ h.
                  let document =
                    request_document session number nonce' slot (sha256_bytes x y body)
                      (y.b64encode body) in
                  on_return (proof_of x y k "request-frame" document) _ h (λ proof proven _.
                    on_return (let_through (canonical_bytes x (obj document))) _ proven
                      (λ bytes written _.
                        let (same_line, some_bytes, short) =
                          application_bytes-bounds 65536 line body sized in
                        let (same_number, positive) = sequence_number-bounds n number numbered in
                        let plain = (canonical_bytes-plain x y (obj document) bytes written).0 in
                        record {
                          not_empty = some_bytes;
                          bounded = short;
                          request = request;
                          valid =
                              ap (parse_request_line x) same_line
                              ∙ recode-ok channel_payload_invalid (parse_request_line x body)
                                  request asked;
                          positive = positive;
                          safe = rw same_number (
                              request_document-number session nonce' slot (sha256_bytes x y body)
                                (y.b64encode body) number plain);
                        })))))))))

-- ===== src/Channel/Tests.antt =====
-- Runs of the channel on small frames, and its theorems at inputs that meet their conditions.
use ameme.Base.{
  string_eq, ◌≡◌, ◌≢◌, refl, ◌+s◌, true, Option, none, some, [], ◌∷◌, ok, nat_beq, if◌then◌else◌,
}
use ameme.Base.Int.{pos}
use ameme.Base.Bytes.{Bytes}
use ameme.Json.{Json, Fields, int, str, obj, field, end}
use ameme.Node.Codec.{Codec}
use ameme.Node.Request.{Request, protocol_version}
use ameme.Node.Tests.{sixty_four, request_document, request}
use ameme.Channel.Secrets.{Secrets}
use ameme.Channel.Frames.{Taken, build_request_frame, parse_request_frame}
use ameme.Channel.Frames.Fresh.{IsTaken, parse_request_frame-IsTaken, parse_request_frame-replay}
use ameme.Channel.Frames.Sealed.{IsBuilt, build_request_frame-IsBuilt}

abbrev frame_fields : Fields
frame_fields = field "channel_protocol" (str "ameme.agent-local-node.channel.v1") (
    field "message_type" (str "request") (
      field "session_id" (str "session_1") (
        field "sequence" (int (pos 1)) (
          field "nonce" (str ("nonce_" +s sixty_four)) (
            field "idempotency_ref" (str ("idem_" +s sixty_four)) (
              field "application_protocol" (str protocol_version) (
                field "application_digest" (str ("sha256_" +s sixty_four)) (
                  field "application_b64" (str "Ag==")
                    (field "proof" (str ("hmac_" +s sixty_four)) end)))))))))

-- The line 1 holds the frame, every other line the request.
abbrev read : Bytes → Option Json
read [] = none
read (b ∷ bs) = if nat_beq b 1 then some (obj frame_fields) else some request_document

abbrev codec : Codec
codec = record {
  encode = λ s. 1 ∷ [];
  loads = read;
  sha256_hex = λ b. sixty_four;
  has_offset = λ s. some true;
}

abbrev secrets : Secrets
secrets = record {
  hmac_hex = λ k b. sixty_four;
  hmac_digest = λ k b. k;
  b64encode = λ b. "Ag==";
  b64decode = λ s. some (2 ∷ []);
  is_unspecified = λ s. none;
}

abbrev eight : Bytes
eight = 1 ∷ 2 ∷ 3 ∷ 4 ∷ 5 ∷ 6 ∷ 7 ∷ 8 ∷ []

abbrev session_key : Bytes
session_key =
    1 ∷ 2 ∷ 3 ∷ 4 ∷ 5 ∷ 6 ∷ 7 ∷ 8 ∷ 1 ∷ 2 ∷ 3 ∷ 4 ∷ 5 ∷ 6 ∷ 7 ∷ 8 ∷ 1 ∷ 2 ∷ 3 ∷ 4 ∷ 5 ∷ 6 ∷ 7 ∷ 8
    ∷ eight

abbrev taken : Taken Request
taken = record {
  document = frame_fields;
  application = 2 ∷ [];
  message = request;
  seen_nonces = ("nonce_" +s sixty_four) ∷ [];
}

frame-is_taken : parse_request_frame codec secrets (1 ∷ []) session_key "session_1" 1 [] ≡ ok taken
unfolding parse_request_frame
frame-is_taken = refl

parse_request_frame-IsTaken_example :
    IsTaken codec secrets (1 ∷ []) session_key "session_1" 1 [] taken
parse_request_frame-IsTaken_example =
    parse_request_frame-IsTaken codec secrets (1 ∷ []) session_key "session_1" 1 [] taken
      frame-is_taken

-- The same frame under the next number and another session.
parse_request_frame-replay_example :
    parse_request_frame codec secrets (1 ∷ []) session_key "session_2" 2 taken.seen_nonces
    ≢ ok taken
parse_request_frame-replay_example =
    parse_request_frame-replay codec secrets (1 ∷ []) session_key session_key "session_1"
      "session_2" 1 2 [] taken taken frame-is_taken

frame-is_built :
    build_request_frame codec secrets
      (2 ∷ [])
      session_key
      (str "session_1")
      (int (pos 1))
      (str ("nonce_" +s sixty_four))
    ≡ ok (1 ∷ [])
unfolding build_request_frame
frame-is_built = refl

build_request_frame-IsBuilt_example : IsBuilt codec (2 ∷ []) 1
build_request_frame-IsBuilt_example =
    build_request_frame-IsBuilt codec secrets (2 ∷ []) session_key (1 ∷ []) (str "session_1")
      (str ("nonce_" +s sixty_four)) 1 frame-is_built

-- ===== src/Node/Tests.antt =====
-- Runs of the protocol on a small request, and its theorems at inputs that meet their conditions.
use ameme.Base.{string_eq, ◌≡◌, refl, String, ◌+s◌, true, some, [], ◌∷◌, ok}
use ameme.Json.{Json, str, arr, obj, nil, cons, end, field}
use ameme.Node.Codec.{Codec}
use ameme.Node.Request.{Request, protocol_version, validate_request, authorize_request}
use ameme.Node.Request.Scope.{IsBound, validate_request-IsBound}
use ameme.Node.Request.Authorized.{Covers, authorize_request-Covers}
use ameme.Node.Ledger.{accept, fingerprint_of, replay}
use ameme.Node.Ledger.Trace.{accept_all, entry_of, first_entry, verdict_of, accept-verdict}
use ameme.Node.Lines.{parse_strict_json_line}
use ameme.Node.Lines.Accepted.{IsLine, parse_strict_json_line-IsLine}

abbrev pub sixty_four : String
sixty_four = "aaaaaaaaaaaaaaaaaaaaaaaaaaaaaaaaaaaaaaaaaaaaaaaaaaaaaaaaaaaaaaaa"

abbrev pub asked : Json
asked = obj (
    field "event_id" (str "evt_1")
      (field "space" (str "home") (field "memory_type" (str "event") end)))

abbrev pub request_with : String → Json
request_with digest = obj (
    field "protocol_version" (str protocol_version) (
      field "request_id" (str "req_1") (
        field "control"
          (obj (
            field "caller_id" (str "agent") (
              field "grant_id" (str "grant_1") (
                field "purpose" (str "recall") (
                  field "spaces" (arr (cons (str "home") nil)) (
                    field "memory_types" (arr (cons (str "event") nil)) (
                      field "operation" (str "get_event") (
                        field "idempotency_slot" (str ("idem_" +s sixty_four))
                          (field "payload_digest" (str ("sha256_" +s digest)) end)))))))))
          (field "payload" asked end))))

abbrev pub request_document : Json
request_document = request_with sixty_four

-- A codec whose every text has the same bytes and whose every line holds the request.
abbrev pub codec : Codec
codec = record {
  encode = λ s. 1 ∷ [];
  loads = λ b. some request_document;
  sha256_hex = λ b. sixty_four;
  has_offset = λ s. some true;
}

abbrev pub request : Request
request = record {
  document = request_document;
  request_id = "req_1";
  control = record {
    caller_id = "agent";
    grant_id = "grant_1";
    purpose = "recall";
    spaces = "home" ∷ [];
    memory_types = "event" ∷ [];
    operation = "get_event";
    idempotency_slot = "idem_" +s sixty_four;
    payload_digest = "sha256_" +s sixty_four;
  };
  payload = asked;
}

request-is_valid : validate_request codec request_document ≡ ok request
unfolding validate_request
request-is_valid = refl

validate_request-IsBound_example : IsBound codec request × (request.document ≡ request_document)
validate_request-IsBound_example =
    validate_request-IsBound codec request_document request request-is_valid

abbrev grant : Json
grant = obj (
    field "caller_id" (str "agent") (
      field "grant_id" (str "grant_1") (
        field "purposes" (arr (cons (str "recall") nil)) (
          field "spaces" (arr (cons (str "home") (cons (str "work") nil))) (
            field "memory_types" (arr (cons (str "event") nil))
              (field "state" (str "active") end))))))

request-is_granted : authorize_request codec request_document grant ≡ ok request
unfolding authorize_request
request-is_granted = refl

authorize_request-Covers_example :
    IsBound codec request × Covers grant request.control × (request.document ≡ request_document)
authorize_request-Covers_example =
    authorize_request-Covers codec request_document grant request request-is_granted

line-is_read : parse_strict_json_line codec 16 (123 ∷ 125 ∷ 10 ∷ []) ≡ ok request_document
unfolding parse_strict_json_line
line-is_read = refl

parse_strict_json_line-IsLine_example : IsLine codec 16 (123 ∷ 125 ∷ 10 ∷ []) request_document
parse_strict_json_line-IsLine_example =
    parse_strict_json_line-IsLine codec 16 (123 ∷ 125 ∷ 10 ∷ []) request_document line-is_read

request-has_entry :
    entry_of codec request_document ≡ some ("idem_" +s sixty_four, "sha256_" +s sixty_four)
unfolding entry_of validate_request fingerprint_of
request-has_entry = refl

-- The second time that a request comes it is a replay.
accept-verdict_example :
    (accept codec request_document (accept_all codec (request_document ∷ []) [])).1 ≡ ok replay
unfolding verdict_of first_entry validate_request fingerprint_of
accept-verdict_example =
    accept-verdict codec (request_document ∷ []) request_document ("idem_" +s sixty_four)
      ("sha256_" +s sixty_four) request-has_entry

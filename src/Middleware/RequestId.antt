-- ===== src/Middleware/RequestId.antt =====
-- app/middleware/requestid.go: `RequestID`. The identifier is the value that the request, its response and
-- its log lines carry; a new one is the text of a random UUID.
use wordotron_api.Prelude.{ℕ, ◌||◌, length, ltb, if◌then◌else◌}
use wordotron_api.Text.{GoString, is_empty}

abbrev pub max_inbound_request_id_len : ℕ
max_inbound_request_id_len = 64

-- From the X-Request-ID header, and a new identifier.
unfoldable pub request_id : GoString → GoString → GoString
request_id header fresh =
    if is_empty header || ltb max_inbound_request_id_len (length header) then fresh else header

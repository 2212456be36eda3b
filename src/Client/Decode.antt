-- ===== src/Client/Decode.antt =====
-- src/api/CameraSDKClient.cpp, `http_post`: what it makes of the exchange with the camera's service.
use Prim.Native.String.{◌++◌}
use lib_stereo_camera.Common.{
  ◌≡◌, refl, arith, String, List, [], ◌∷◌, lookup, string_discrete, Option, none, some, ℤ, pos,
  ◌>>=◌,
}
use lib_stereo_camera.Types.{
  ResponseCode, success, error, not_ready, already_init, invalid_param, unavailable,
}
use lib_stereo_camera.Client.{Json, Response, object, no_member, string, integer}
use lib_stereo_camera.Json.{JsonOps, IsJson, FitsInt, at-members_of, natural}
use lib_stereo_camera.Admin.{response_json, response_code}

-- How an exchange by libcurl ends: no handle could be made, it failed with the library's text, or a reply
-- came.
pub data Exchange : Type 0 where
  no_curl : Exchange
  failed received : String → Exchange

-- The `Response` that is returned. The cast of the code makes a `ResponseCode` of any number, so the code
-- is kept as the number.
pub record Decoded (R : Type 0) : Type 0 where
  pub code : ℤ
  pub message : String
  pub detail : Json R

-- `make_response(ResponseCode::Error, message)`
unfoldable pub error_response : {R : Type 0} → String → Decoded R
error_response message = record { code = pos 1; message = message; detail = object no_member }

-- `value("detail", json::object())`, of an object
unfoldable pub detail_of : {R : Type 0} → Option (Json R) → Json R
detail_of none = object no_member
detail_of (some detail) = detail

-- The `catch`, on the text of the exception.
unfoldable pub caught : {R : Type 0} → String → Option (Decoded R) → Decoded R
unfolding error_response
caught what none = error_response ("Parse error: " ++ what)
caught what (some d) = d

module _ {R : Type 0} (lib : JsonOps R) where
  -- The body of the `try`; none is a throw.
  unfoldable pub decode_text : String → Option (Decoded R)
  unfolding detail_of
  decode_text text = lib.parse text >>= (λ j. lib.value_int "code" (pos 1) j >>= (λ code.
      lib.value_text "message" "" j >>= (λ message.
        some (record { code = code; message = message; detail = detail_of (lib.at "detail" j) }))))

  -- `http_post` after the exchange; `what` is the text of the exception that the reply may cause.
  unfoldable pub decode_reply : (String → String) → Exchange → Decoded R
  unfolding decode_text caught error_response
  decode_reply what no_curl = error_response "CURL not initialized"
  decode_reply what (failed text) = error_response text
  decode_reply what (received text) = caught (what text) (decode_text text)

module _ {R : Type 0} {lib : JsonOps R} (json : IsJson lib) where
  response_code-FitsInt : (c : ResponseCode) → FitsInt (pos (response_code c))
  unfolding response_code
  response_code-FitsInt success = omega arith
  response_code-FitsInt error = omega arith
  response_code-FitsInt not_ready = omega arith
  response_code-FitsInt already_init = omega arith
  response_code-FitsInt invalid_param = omega arith
  response_code-FitsInt unavailable = omega arith

  members-response_json :
      (resp : Response R)
      → (lib.at "code" (response_json resp) ≡ some (integer (pos (response_code resp.code))))
        × (lib.at "message" (response_json resp) ≡ some (string resp.message))
        × (lib.at "detail" (response_json resp) ≡ some resp.detail)
  unfolding response_json lookup string_discrete
  members-response_json resp =
      let ms : List (String × Json R) =
        ("code", natural (response_code resp.code))
        ∷ ("message", string resp.message)
        ∷ ("detail", resp.detail)
        ∷ [] in
      (
        at-members_of json "code" ms refl,
        at-members_of json "message" ms refl,
        at-members_of json "detail" ms refl,
      )

  -- If the library reads back what it dumped of a response, as the node's own servers write it, the client
  -- returns the code's number, the message and the detail of that response.
  pub response_read :
      (dump : Json R → String) (what : String → String) (resp : Response R)
      → lib.parse (dump (response_json resp)) ≡ some (response_json resp)
      → decode_reply lib what (received (dump (response_json resp))) ≡ record {
        code = pos (response_code resp.code);
        message = resp.message;
        detail = resp.detail;
      }
  unfolding decode_reply decode_text caught detail_of
  response_read dump what resp parsed =
      let (code, message, detail) = members-response_json resp in
      rw (
        parsed,
        json.value_int_found "code" (pos 1) (response_json resp) (response_code-FitsInt resp.code)
            code,
        json.value_text_found "message" "" (response_json resp) message,
        detail,
      )

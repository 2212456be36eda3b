-- ===== src/Examples/Replies.antt =====
-- A run of `http_post` of src/api/CameraSDKClient.cpp, on a reply that the node's own servers write.
use lib_stereo_camera.Common.{ℕ, ◌≡◌, refl, String, pos, string_discrete}
use lib_stereo_camera.Types.{not_ready}
use lib_stereo_camera.Client.{Json, Response, make_response_with, string}
use lib_stereo_camera.Client.Decode.{decode_reply, received, response_read}
use lib_stereo_camera.Admin.{response_json, response_code}
use lib_stereo_camera.Examples.Settings.{library, library-IsJson}

abbrev waiting : Response ℕ
waiting = make_response_with not_ready "camera opens" (string "cam1")

abbrev dump : Json ℕ → String
dump j = "{r}"

abbrev what : String → String
what text = "syntax error"

response_read_example :
    decode_reply
      (library "{r}" (response_json waiting))
      what
      (received (dump (response_json waiting)))
    ≡ record {
      code = pos (response_code waiting.code);
      message = waiting.message;
      detail = waiting.detail;
    }
unfolding string_discrete
response_read_example =
    response_read (library-IsJson "{r}" (response_json waiting)) dump what waiting refl

-- ===== src/Admin/Refused.antt =====
-- src/api/AdminServer.cpp: the requests that reach no handler.
use Prim.Native.String
use lib_stereo_camera.Common.{
  ℕ, ◌≡◌, refl, ap, ◌∙◌, if◌then◌else◌, arith, String, List, [], ◌∷◌, Bool, true, false, Option,
  none, some, contains, string_discrete,
}
use lib_stereo_camera.Client.{Json, Replies, null, make_response}
use lib_stereo_camera.Types.{error}
use lib_stereo_camera.Json.{JsonOps, IsJson}
use lib_stereo_camera.Parameters.{Fresh}
use lib_stereo_camera.Sessions.Status.{Node}
use lib_stereo_camera.Admin.{is_object, read_body, invalid_body, response_json}
use lib_stereo_camera.Admin.Route.{
  dispatch, route, route_read, answer, route_set_parameter, route_get_parameter,
}

-- The commands that `route` knows.
abbrev pub commands : List String
commands =
    "init" ∷ "dispose" ∷ "connect" ∷ "disconnect" ∷ "check_status" ∷ "start_capture"
    ∷ "stop_capture" ∷ "set_parameter" ∷ "get_parameter" ∷ []

-- What is answered to a command that is not known, by whether the body could be read.
abbrev pub refusal : {R : Type 0} → String → Option (Json R × String) → Json R
refusal cmd none = invalid_body
refusal cmd (some b) = response_json (make_response error (String.◌++◌ "Unknown command: " cmd))

module _ {R : Type 0} (lib : JsonOps R) (fresh : Fresh R) (reply : Replies R)
    (percent : ℕ → ℕ → R) where
  read_body-none :
      (body : String) → is_object body ≡ false → read_body lib body ≡ some (null, "default")
  unfolding read_body
  read_body-none body o = rw o refl

  -- A request for a parameter whose body does not start with a brace ends the process: `value` throws
  -- on the null that stands for the body, and nothing catches it.
  pub parameter_request_throws :
      IsJson lib
      → (sets : Bool) (body : String) (n : Node R) → is_object body ≡ false
      → route lib fresh reply percent (if sets then "set_parameter" else "get_parameter") body n
        ≡ none
  unfolding route route_read dispatch route_set_parameter route_get_parameter string_discrete
  parameter_request_throws json true body n o =
      ap (λ b. route_read lib fresh reply percent "set_parameter" b n) (read_body-none body o)
      ∙ rw (json.value_text_null "name" "") refl
  parameter_request_throws json false body n o =
      ap (λ b. route_read lib fresh reply percent "get_parameter" b n) (read_body-none body o)
      ∙ rw (json.value_text_null "name" "") refl

  dispatch-unknown :
      (cmd client_id : String) (j : Json R) (n : Node R)
      → contains string_discrete cmd commands ≡ false
      → dispatch lib fresh reply percent cmd client_id j n
        ≡ some (make_response error (String.◌++◌ "Unknown command: " cmd), n)
  unfolding dispatch contains
  dispatch-unknown cmd client_id j n c = ground (arith, c)

  -- A command that is not one of the nine is answered with an error, or with that of an invalid body,
  -- and nothing changes.
  pub unknown_command_refused :
      (cmd body : String) (n : Node R)
      → contains string_discrete cmd commands ≡ false
      → route lib fresh reply percent cmd body n ≡ some (refusal cmd (read_body lib body), n)
  unfolding route route_read answer
  unknown_command_refused cmd body n c = go (read_body lib body)
    where
      go :
          (b : Option (Json R × String))
          → route_read lib fresh reply percent cmd b n ≡ some (refusal cmd b, n)
      go none = refl
      go (some (j, client_id)) = rw (dispatch-unknown cmd client_id j n c) refl

-- ===== src/Server/Topics.antt =====
-- src/data/WSServer.cpp: the messages by which a client subscribes, and a pass of `client_loop`.
use lib_stereo_camera.Common.{
  ℕ, String, List, [], ◌∷◌, Bool, true, false, Option, none, some, if◌then◌else◌, ◌&&◌, ◌==◌, Assoc,
  string_discrete, is_yes, add_missing, erase_value,
}
use lib_stereo_camera.Types.{DataBundle}
use lib_stereo_camera.Buffer.{DataBuffer, active_slots}
use lib_stereo_camera.Server.{WssClient, send_slots, leave}

-- What a wait of ten milliseconds brings: nothing, a frame that cannot be read, or a frame.
pub data Incoming : Type 0 where
  nothing broken : Incoming
  frame : ℕ → List ℕ → Incoming

abbrev is_nil : {A : Type 0} → List A → Bool
is_nil [] = true
is_nil (x ∷ xs) = false

-- The JSON library's part: `parse` gives none where it throws, `action` is `j.value("action", "")`, none
-- where that throws, `has_topics` is `j.contains("topics")`, and `topics` is `j["topics"]`, an item none if
-- it is not a text, which throws when it is read.
module _ {J : Type 0} (parse : List ℕ → Option J) (action : J → Option String)
    (has_topics : J → Bool) (topics : J → List (Option String)) where
  -- The loop of `subscribe`, with whether it got to the end.
  unfoldable pub subscribe_all : List (Option String) → List String → List String × Bool
  subscribe_all [] subs = (subs, true)
  subscribe_all (none ∷ ts) subs = (subs, false)
  subscribe_all (some t ∷ ts) subs = subscribe_all ts (add_missing string_discrete (t ∷ []) subs)

  unfoldable pub unsubscribe_all : List (Option String) → List String → List String × Bool
  unsubscribe_all [] subs = (subs, true)
  unsubscribe_all (none ∷ ts) subs = (subs, false)
  unsubscribe_all (some t ∷ ts) subs = unsubscribe_all ts (erase_value string_discrete t subs)

  -- The body of the `try`.
  unfoldable pub try_message : List ℕ → List String → List String × Bool
  unfolding subscribe_all unsubscribe_all
  try_message payload subs = elim (parse payload) [
    | none ↦ (subs, false)
    | some j ↦ elim (action j) [
      | none ↦ (subs, false)
      | some a ↦
          if is_yes (string_discrete a "subscribe") && has_topics j
          then subscribe_all (topics j) subs
          else if is_yes (string_discrete a "unsubscribe") && has_topics j
          then unsubscribe_all (topics j) subs
          else (subs, true)
    ]
  ]

  -- What was done before a throw stays; the `catch` then subscribes to everything.
  unfoldable pub on_message : List ℕ → List String → List String
  unfolding try_message
  on_message payload subs =
      let (after, done) = try_message payload subs in
      if done then after else add_missing string_discrete ("all" ∷ []) after

  -- A text frame that is not empty is a message.
  unfoldable pub on_frame : ℕ → List ℕ → WssClient → WssClient
  unfolding on_message
  on_frame opcode [] c = c
  on_frame opcode (byte ∷ bytes) c =
      if opcode == 1
      then record c { subscriptions = on_message (byte ∷ bytes) c.subscriptions }
      else c

  -- The second half of a pass: a client without subscriptions is sent nothing.
  unfoldable pub send_pass : Assoc String DataBundle → DataBuffer → WssClient × ℕ → WssClient × ℕ
  send_pass encoded_stereo buffer s =
      if is_nil s.0.subscriptions
      then s
      else send_slots encoded_stereo buffer (active_slots buffer) s

  -- One pass of `client_loop`; a client that leaves does not come back to the loop.
  unfoldable pub client_pass :
      Incoming → Assoc String DataBundle → DataBuffer → WssClient × ℕ → WssClient × ℕ
  client_pass nothing encoded_stereo buffer s = send_pass encoded_stereo buffer s
  client_pass broken encoded_stereo buffer s = (leave s.0, s.1)
  client_pass (frame opcode payload) encoded_stereo buffer s =
      if opcode == 8
      then (leave s.0, s.1)
      else send_pass encoded_stereo buffer (on_frame opcode payload s.0, s.1)

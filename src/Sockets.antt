-- ===== src/Sockets.antt =====
-- `start` and `stop` of src/data/DataPublisher.cpp and src/data/LoopbackSubscriber.cpp, and
-- `publish_shutdown`: the ZMQ sockets of the channels.
pub mod Closed
use lib_stereo_camera.Common.{
  ℕ, ◌+◌, ◌≡◌, refl, arith, both_branches, List, [], ◌∷◌, ◌++◌, map, String, Bool, true, false,
  Option, none, some, if◌then◌else◌, Assoc,
}
use lib_stereo_camera.Handles.{
  Handle, Event, opens, closes, zmq_ctx, zmq_socket, opens_of, closes_of, opens_of-append,
  closes_of-append, AllClosed,
}

-- The members that `start` and `stop` change: the context and whether it is owned, the sockets by
-- channel, and whether the thread runs. A channel stands once, as the endpoints are a map.
pub record ZmqSockets : Type 0 where
  pub ctx : Option ℕ
  pub owns_ctx : Bool
  pub sockets : Assoc String ℕ
  pub running : Bool
  pub log : List Event

unfoldable pub no_sockets : ZmqSockets
no_sockets = record { ctx = none; owns_ctx = false; sockets = []; running = false; log = [] }

-- The shared context if there is one, or a new one.
unfoldable pub take_ctx : Option ℕ → ℕ → ZmqSockets → ZmqSockets
take_ctx (some shared) fresh s = record s { ctx = some shared; owns_ctx = false }
take_ctx none fresh s = record s {
  ctx = some fresh;
  owns_ctx = true;
  log = s.log ++ opens (zmq_ctx fresh) ∷ [];
}

-- The publisher's loop over its endpoints. `socket` is the socket made for a channel, and `binds` tells
-- whether it can be bound.
unfoldable pub bind_sockets :
    (String → ℕ) → (String → Bool) → Assoc String String → ZmqSockets → ZmqSockets
bind_sockets socket binds [] s = s
bind_sockets socket binds ((channel, endpoint) ∷ es) s = bind_sockets socket binds es (
    if binds endpoint
    then record s {
      sockets = s.sockets ++ (channel, socket channel) ∷ [];
      log = s.log ++ opens (zmq_socket (socket channel)) ∷ [];
    }
    else record s {
      log =
          s.log ++ opens (zmq_socket (socket channel)) ∷ closes (zmq_socket (socket channel)) ∷ [];
    })

-- The subscriber's loop, which does not test whether a socket connects.
unfoldable pub connect_sockets : (String → ℕ) → Assoc String String → ZmqSockets → ZmqSockets
connect_sockets socket [] s = s
connect_sockets socket ((channel, endpoint) ∷ es) s = connect_sockets socket es (record s {
  sockets = s.sockets ++ (channel, socket channel) ∷ [];
  log = s.log ++ opens (zmq_socket (socket channel)) ∷ [];
})

unfoldable pub start_publisher :
    Option ℕ → ℕ → (String → ℕ) → (String → Bool) → Assoc String String → ZmqSockets → ZmqSockets
unfolding take_ctx bind_sockets
start_publisher shared fresh socket binds endpoints s =
    if s.running
    then s
    else record (bind_sockets socket binds endpoints (take_ctx shared fresh s)) { running = true }

unfoldable pub start_subscriber :
    Option ℕ → ℕ → (String → ℕ) → Assoc String String → ZmqSockets → ZmqSockets
unfolding take_ctx connect_sockets
start_subscriber shared fresh socket endpoints s =
    if s.running
    then s
    else record (connect_sockets socket endpoints (take_ctx shared fresh s)) { running = true }

unfoldable pub close_all : Assoc String ℕ → List Event
close_all [] = []
close_all ((channel, n) ∷ ss) = closes (zmq_socket n) ∷ close_all ss

unfoldable pub close_owned : Option ℕ → Bool → List Event
close_owned (some n) true = closes (zmq_ctx n) ∷ []
close_owned (some n) false = []
close_owned none owns = []

-- `stop` of either class.
unfoldable pub stop_sockets : ZmqSockets → ZmqSockets
unfolding close_all close_owned
stop_sockets s = record {
  ctx = none;
  owns_ctx = s.owns_ctx;
  sockets = [];
  running = false;
  log = (s.log ++ close_all s.sockets) ++ close_owned s.ctx s.owns_ctx;
}

-- `publish_shutdown`: what is sent, on each socket.
unfoldable pub publish_shutdown : ZmqSockets → List (ℕ × String)
publish_shutdown s =
    map (λ b. (b.1, "{\"event\":\"server_shutdown\",\"message\":\"Service restarting\"}")) s.sockets

-- ===== src/Sockets/Closed.antt =====
-- src/data/DataPublisher.cpp and src/data/LoopbackSubscriber.cpp: after `stop` nothing that `start` opened is
-- open.
use lib_stereo_camera.Common.{
  ℕ, ◌+◌, ◌≡◌, refl, arith, both_branches, [], ◌∷◌, ◌++◌, String, Bool, true, false, Option, none,
  some, Assoc,
}
use lib_stereo_camera.Sockets.{
  ZmqSockets, no_sockets, take_ctx, bind_sockets, connect_sockets, start_publisher,
  start_subscriber, close_all, close_owned, stop_sockets,
}
use lib_stereo_camera.Handles.{
  Handle, opens, closes, zmq_socket, opens_of, closes_of, opens_of-append, closes_of-append,
  AllClosed,
}

-- What is open is what the object holds.
record Holds (s : ZmqSockets) : Type 0 where
  balance :
      (h : Handle)
      → opens_of h s.log
        ≡ closes_of h s.log
          + closes_of h (close_all s.sockets)
          + closes_of h (close_owned s.ctx s.owns_ctx)

close_all-append :
    (h : Handle) (ss : Assoc String ℕ) (channel : String) (n : ℕ)
    → closes_of h (close_all (ss ++ (channel, n) ∷ []))
      ≡ closes_of h (close_all ss) + closes_of h (closes (zmq_socket n) ∷ [])
unfolding closes_of close_all
close_all-append h [] channel n = omega arith
close_all-append h ((c, m) ∷ ss) channel n = omega (arith, close_all-append h ss channel n)

kept-Holds :
    (s : ZmqSockets) (channel : String) (n : ℕ)
    → Holds s
    → Holds (record s {
      sockets = s.sockets ++ (channel, n) ∷ [];
      log = s.log ++ opens (zmq_socket n) ∷ [];
    })
unfolding closes_of opens_of
kept-Holds s channel n holds = record {
  balance = λ h. omega (
    arith,
    holds.balance h,
    opens_of-append h s.log (opens (zmq_socket n) ∷ []),
    closes_of-append h s.log (opens (zmq_socket n) ∷ []),
    close_all-append h s.sockets channel n,
  );
}

closed-Holds :
    (s : ZmqSockets) (n : ℕ)
    → Holds s
    → Holds (record s { log = s.log ++ opens (zmq_socket n) ∷ closes (zmq_socket n) ∷ [] })
unfolding closes_of opens_of
closed-Holds s n holds = record {
  balance = λ h.
      let events = opens (zmq_socket n) ∷ closes (zmq_socket n) ∷ [] in
      omega
        (arith, holds.balance h, opens_of-append h s.log events, closes_of-append h s.log events);
}

bind_sockets-Holds :
    (socket : String → ℕ) (binds : String → Bool) (es : Assoc String String) (s : ZmqSockets)
    → Holds s
    → Holds (bind_sockets socket binds es s)
unfolding bind_sockets
bind_sockets-Holds socket binds [] s holds = holds
bind_sockets-Holds socket binds ((channel, endpoint) ∷ es) s holds =
    bind_sockets-Holds socket binds es _ (
      both_branches Holds (binds endpoint) (kept-Holds s channel (socket channel) holds)
        (closed-Holds s (socket channel) holds))

connect_sockets-Holds :
    (socket : String → ℕ) (es : Assoc String String) (s : ZmqSockets)
    → Holds s
    → Holds (connect_sockets socket es s)
unfolding connect_sockets
connect_sockets-Holds socket [] s holds = holds
connect_sockets-Holds socket ((channel, endpoint) ∷ es) s holds =
    connect_sockets-Holds socket es _ (kept-Holds s channel (socket channel) holds)

take_ctx-Holds : (shared : Option ℕ) (fresh : ℕ) → Holds (take_ctx shared fresh no_sockets)
unfolding take_ctx no_sockets closes_of opens_of close_all close_owned
take_ctx-Holds (some n) fresh = record { balance = λ h. omega arith }
take_ctx-Holds none fresh = record { balance = λ h. omega arith }

opens_of-close_all : (h : Handle) (ss : Assoc String ℕ) → opens_of h (close_all ss) ≡ 0
unfolding opens_of close_all
opens_of-close_all h [] = refl
opens_of-close_all h ((c, n) ∷ ss) = omega (arith, opens_of-close_all h ss)

opens_of-close_owned :
    (h : Handle) (ctx : Option ℕ) (owns : Bool) → opens_of h (close_owned ctx owns) ≡ 0
unfolding opens_of close_owned
opens_of-close_owned h none owns = refl
opens_of-close_owned h (some n) true = refl
opens_of-close_owned h (some n) false = refl

stop_sockets-AllClosed : (s : ZmqSockets) → Holds s → AllClosed (stop_sockets s).log
unfolding stop_sockets
stop_sockets-AllClosed s holds h = omega (
  arith,
  holds.balance h,
  opens_of-append h (s.log ++ close_all s.sockets) (close_owned s.ctx s.owns_ctx),
  closes_of-append h (s.log ++ close_all s.sockets) (close_owned s.ctx s.owns_ctx),
  opens_of-append h s.log (close_all s.sockets),
  closes_of-append h s.log (close_all s.sockets),
  opens_of-close_all h s.sockets,
  opens_of-close_owned h s.ctx s.owns_ctx,
)

-- Whichever sockets bind, the publisher's `stop` after `start` has closed what `start` opened, each handle
-- as often as it was opened, and so has the subscriber's, with a context that is shared or their own.
pub stopped_sockets_closed :
    (shared : Option ℕ) (fresh : ℕ) (socket : String → ℕ) (binds : String → Bool)
    (endpoints : Assoc String String)
    → let after_publisher =
        stop_sockets (start_publisher shared fresh socket binds endpoints no_sockets) in
      let after_subscriber =
        stop_sockets (start_subscriber shared fresh socket endpoints no_sockets) in
      AllClosed after_publisher.log × AllClosed after_subscriber.log
unfolding start_publisher start_subscriber no_sockets
stopped_sockets_closed shared fresh socket binds endpoints =
    let start = take_ctx-Holds shared fresh in
    let bound = bind_sockets-Holds socket binds endpoints _ start in
    let connected = connect_sockets-Holds socket endpoints _ start in
    (
      stop_sockets-AllClosed _ (record { balance = bound.balance }),
      stop_sockets-AllClosed _ (record { balance = connected.balance }),
    )

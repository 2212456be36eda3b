-- ===== src/Handles.antt =====
-- What the servers and sockets hold of the system: contexts, sockets and TLS sessions, each by a number
-- that the call which opened it gave. A component writes down what it opens and closes.
use lib_stereo_camera.Common.{
  ℕ, ◌+◌, ◌≡◌, refl, arith, List, [], ◌∷◌, ◌++◌, Bool, false, if◌then◌else◌, ◌==◌, Option, none,
  some,
}

pub data Handle : Type 0 where
  ssl_ctx fd ssl zmq_ctx zmq_socket : ℕ → Handle

-- A client's TLS session and socket.
pub record ClientHandles : Type 0 where
  pub session : ℕ
  pub socket : ℕ

pub data Event : Type 0 where
  opens closes : Handle → Event

-- Whether two handles are the same.
abbrev pub same : Handle → Handle → Bool
same (ssl_ctx a) (ssl_ctx b) = a == b
same (fd a) (fd b) = a == b
same (ssl a) (ssl b) = a == b
same (zmq_ctx a) (zmq_ctx b) = a == b
same (zmq_socket a) (zmq_socket b) = a == b
same _ _ = false

abbrev pub opens_one : Handle → Event → ℕ
opens_one h (opens g) = if same h g then 1 else 0
opens_one h (closes g) = 0

abbrev pub closes_one : Handle → Event → ℕ
closes_one h (opens g) = 0
closes_one h (closes g) = if same h g then 1 else 0

-- How often a handle was opened, and closed.
unfoldable pub opens_of : Handle → List Event → ℕ
opens_of h [] = 0
opens_of h (e ∷ es) = opens_one h e + opens_of h es

unfoldable pub closes_of : Handle → List Event → ℕ
closes_of h [] = 0
closes_of h (e ∷ es) = closes_one h e + closes_of h es

pub opens_of-append :
    (h : Handle) (xs ys : List Event) → opens_of h (xs ++ ys) ≡ opens_of h xs + opens_of h ys
unfolding opens_of
opens_of-append h [] ys = omega arith
opens_of-append h (x ∷ xs) ys = omega (arith, opens_of-append h xs ys)

pub closes_of-append :
    (h : Handle) (xs ys : List Event) → closes_of h (xs ++ ys) ≡ closes_of h xs + closes_of h ys
unfolding closes_of
closes_of-append h [] ys = omega arith
closes_of-append h (x ∷ xs) ys = omega (arith, closes_of-append h xs ys)

-- Every handle has been closed as often as it was opened.
abbrev pub AllClosed : List Event → Type 0
AllClosed log = (h : Handle) → opens_of h log ≡ closes_of h log

-- What is closed of a socket, or of a context, that may be there.
unfoldable pub close_fd : Option ℕ → List Event
close_fd none = []
close_fd (some n) = closes (fd n) ∷ []

unfoldable pub close_ctx : Option ℕ → List Event
close_ctx none = []
close_ctx (some x) = closes (ssl_ctx x) ∷ []

-- A handle that is opened and kept, or closed at once.
pub opens_of-kept :
    (h g : Handle) (log : List Event)
    → opens_of h (log ++ opens g ∷ []) ≡ opens_of h log + closes_one h (closes g)
unfolding opens_of
opens_of-kept h g log = omega (arith, opens_of-append h log (opens g ∷ []))

pub closes_of-kept :
    (h g : Handle) (log : List Event) → closes_of h (log ++ opens g ∷ []) ≡ closes_of h log
unfolding closes_of
closes_of-kept h g log = omega (arith, closes_of-append h log (opens g ∷ []))

pub opens_of-close_fd : (h : Handle) (o : Option ℕ) → opens_of h (close_fd o) ≡ 0
unfolding opens_of close_fd
opens_of-close_fd h none = refl
opens_of-close_fd h (some n) = refl

pub opens_of-close_ctx : (h : Handle) (o : Option ℕ) → opens_of h (close_ctx o) ≡ 0
unfolding opens_of close_ctx
opens_of-close_ctx h none = refl
opens_of-close_ctx h (some n) = refl

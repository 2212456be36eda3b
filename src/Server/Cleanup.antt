-- ===== src/Server/Cleanup.antt =====
-- src/data/WSServer.cpp: `accept_loop`, which removes the clients that are gone and adds new ones, and
-- the callback of src/main.cpp for when all are gone.
use lib_stereo_camera.Common.{
  ℕ, zero, suc, ◌+◌, ◌≡◌, refl, arith, List, [], ◌∷◌, ◌++◌, Bool, true, false, not, ◌&&◌,
  if◌then◌else◌, length, ◌==◌, length-append, filter, ap, ◌∙◌, sym, append-nil,
}
use lib_stereo_camera.Buffer.{DataBuffer, clear}
use lib_stereo_camera.Server.{WssClient, new_client, leave}

-- The clients of `class WSServer`.
pub record WsServer : Type 0 where
  pub clients : List WssClient
  pub had_clients : Bool

unfoldable pub new_server : WsServer
new_server = record { clients = []; had_clients = false }

abbrev pub is_empty : List WssClient → Bool
is_empty [] = true
is_empty (c ∷ cs) = false

-- The loop over the clients that erases those that are not active. Their threads are ended before.
unfoldable pub erase_inactive : List WssClient → List WssClient
erase_inactive [] = []
erase_inactive (c ∷ cs) = let rest = erase_inactive cs in if c.active then c ∷ rest else rest

-- The clean-up under the lock, and whether it saw the last client go.
unfoldable pub cleanup : WsServer → WsServer × Bool
unfolding erase_inactive
cleanup s =
    let left = erase_inactive s.clients in
    let all_disconnected = s.had_clients && is_empty left in
    (
      record { clients = left; had_clients = if all_disconnected then false else s.had_clients },
      all_disconnected,
    )

-- The callback that `main` sets.
unfoldable pub on_all_disconnected : DataBuffer → DataBuffer
on_all_disconnected buffer2 = clear buffer2

unfoldable pub add_client : WsServer → WsServer
unfolding new_client
add_client s = record { clients = s.clients ++ new_client ∷ []; had_clients = true }

-- One pass of `accept_loop`: whether a client came in time and got through the two handshakes is
-- decided outside.
unfoldable pub accept_pass : Bool → WsServer × DataBuffer → WsServer × DataBuffer
unfolding cleanup on_all_disconnected add_client
accept_pass came (s, buffer2) =
    let (cleaned, all_disconnected) = cleanup s in
    (
      if came then add_client cleaned else cleaned,
      if all_disconnected then on_all_disconnected buffer2 else buffer2,
    )

unfoldable pub count_active : List WssClient → ℕ
count_active [] = 0
count_active (c ∷ cs) = if c.active then suc (count_active cs) else count_active cs

unfoldable pub client_count : WsServer → ℕ
client_count s = count_active s.clients

-- The `client_loop` of the client at a place ends.
unfoldable pub leave_at : ℕ → List WssClient → List WssClient
leave_at i [] = []
leave_at zero (c ∷ cs) = leave c ∷ cs
leave_at (suc i) (c ∷ cs) = c ∷ leave_at i cs

-- What happens to the list of clients: a pass of the loop, with the buffer as it then is, and the end
-- of a client's loop.
pub data Event : Type 0 where
  accepts : Bool → DataBuffer → Event
  goes : ℕ → Event

unfoldable pub happen : Event → WsServer → WsServer
happen (accepts came buffer2) s = (accept_pass came (s, buffer2)).0
happen (goes i) s = record s { clients = leave_at i s.clients }

unfoldable pub happen_all : List Event → WsServer → WsServer
happen_all [] s = s
happen_all (e ∷ es) s = happen_all es (happen e s)

-- Between passes `had_clients_` tells whether the list has a client, active or not.
abbrev Tracked : WsServer → Type 0
Tracked s = s.had_clients ≡ not (is_empty s.clients)

is_empty-leave_at : (i : ℕ) (cs : List WssClient) → is_empty (leave_at i cs) ≡ is_empty cs
unfolding leave_at
is_empty-leave_at i [] = refl
is_empty-leave_at zero (c ∷ cs) = refl
is_empty-leave_at (suc i) (c ∷ cs) = refl

is_empty-append : (cs : List WssClient) (c : WssClient) → is_empty (cs ++ c ∷ []) ≡ false
is_empty-append [] c = refl
is_empty-append (d ∷ cs) c = refl

is_empty-count : (cs : List WssClient) → is_empty cs ≡ (length cs == 0)
is_empty-count [] = refl
is_empty-count (c ∷ cs) = ground arith

erase_inactive-filter : (cs : List WssClient) → erase_inactive cs ≡ filter (λ c. c.active) cs
unfolding erase_inactive filter
erase_inactive-filter [] = refl
erase_inactive-filter (c ∷ cs) = ground (arith, erase_inactive-filter cs)

length-erase_inactive : (cs : List WssClient) → length (erase_inactive cs) ≡ count_active cs
unfolding erase_inactive count_active
length-erase_inactive [] = refl
length-erase_inactive (c ∷ cs) = ground (arith, length-erase_inactive cs)

count-erase_inactive : (cs : List WssClient) → count_active (erase_inactive cs) ≡ count_active cs
unfolding erase_inactive count_active
count-erase_inactive [] = refl
count-erase_inactive (c ∷ cs) = ground (arith, count-erase_inactive cs)

count-add : (cs : List WssClient) → count_active (cs ++ new_client ∷ []) ≡ suc (count_active cs)
unfolding count_active new_client
count-add [] = refl
count-add (c ∷ cs) = ground (arith, count-add cs)

erase_inactive-empty :
    (cs : List WssClient) → is_empty cs ≡ true → is_empty (erase_inactive cs) ≡ true
unfolding erase_inactive
erase_inactive-empty [] e = refl
erase_inactive-empty (c ∷ cs) e = ground arith

accept_pass-Tracked :
    (came : Bool) (buffer2 : DataBuffer) (s : WsServer)
    → Tracked s
    → Tracked (accept_pass came (s, buffer2)).0
unfolding accept_pass cleanup add_client
accept_pass-Tracked true buffer2 s t =
    ground (arith, is_empty-append (erase_inactive s.clients) new_client)
accept_pass-Tracked false buffer2 s t = ground (arith, erase_inactive-empty s.clients)

happen-Tracked : (e : Event) (s : WsServer) → Tracked s → Tracked (happen e s)
unfolding happen
happen-Tracked (accepts came buffer2) s t = accept_pass-Tracked came buffer2 s t
happen-Tracked (goes i) s t = ground (arith, is_empty-leave_at i s.clients)

happen_all-Tracked : (es : List Event) (s : WsServer) → Tracked s → Tracked (happen_all es s)
unfolding happen_all
happen_all-Tracked [] s t = t
happen_all-Tracked (e ∷ es) s t = happen_all-Tracked es (happen e s) (happen-Tracked e s t)

active_facts :
    (cs : List WssClient)
    → (is_empty (erase_inactive cs) ≡ (count_active cs == 0))
      × (length (erase_inactive cs) ≡ count_active cs)
      × (count_active (erase_inactive cs) ≡ count_active cs)
      × (count_active (erase_inactive cs ++ new_client ∷ []) ≡ suc (count_active cs))
      × (length (erase_inactive cs ++ new_client ∷ []) ≡ suc (count_active cs))
active_facts cs = ground (
  arith,
  is_empty-count (erase_inactive cs),
  length-erase_inactive cs,
  count-erase_inactive cs,
  count-add (erase_inactive cs),
  length-append (erase_inactive cs) (new_client ∷ []),
)

counts :
    (came : Bool) (buffer2 : DataBuffer) (s : WsServer)
    → Tracked s
    → let r = accept_pass came (s, buffer2) in
      (r.1 ≡ (if not (is_empty s.clients) && client_count s == 0 then clear buffer2 else buffer2))
      × (client_count r.0 ≡ client_count s + (if came then 1 else 0))
      × (length r.0.clients ≡ client_count r.0)
unfolding accept_pass cleanup add_client on_all_disconnected client_count
counts true buffer2 s t = ground (arith, active_facts s.clients)
counts false buffer2 s t = ground (arith, active_facts s.clients)

-- What the next pass does to a server whose flag is right.
accept_pass_lem :
    (came : Bool) (buffer2 : DataBuffer) (s : WsServer)
    → Tracked s
    → let r = accept_pass came (s, buffer2) in
      (r.1 ≡ (if not (is_empty s.clients) && client_count s == 0 then clear buffer2 else buffer2))
      × (r.0.clients ≡ filter (λ c. c.active) s.clients ++ (if came then new_client ∷ [] else []))
      × (client_count r.0 ≡ client_count s + (if came then 1 else 0))
      × (length r.0.clients ≡ client_count r.0)
unfolding accept_pass cleanup add_client
accept_pass_lem true buffer2 s t =
    let (cleared, counted, whole) = counts true buffer2 s t in
    (cleared, ap (λ cs. cs ++ new_client ∷ []) (erase_inactive-filter s.clients), counted, whole)
accept_pass_lem false buffer2 s t =
    let (cleared, counted, whole) = counts false buffer2 s t in
    (
      cleared,
      erase_inactive-filter s.clients ∙ sym (append-nil (filter (λ c. c.active) s.clients)),
      counted,
      whole,
    )

-- After any passes of the loop and any ends of clients' loops, from the server's start: when there
-- are clients and none is active, the next pass clears the second buffer, and otherwise it leaves
-- it; the pass keeps the active clients as they are, in order, and removes the others, and the client
-- that came is added at the end, so that all clients are active.
pub cleared_when_all_gone :
    (es : List Event) (came : Bool) (buffer2 : DataBuffer)
    → let s = happen_all es new_server in
      let r = accept_pass came (s, buffer2) in
      (r.1 ≡ (if not (is_empty s.clients) && client_count s == 0 then clear buffer2 else buffer2))
      × (r.0.clients ≡ filter (λ c. c.active) s.clients ++ (if came then new_client ∷ [] else []))
      × (client_count r.0 ≡ client_count s + (if came then 1 else 0))
      × (length r.0.clients ≡ client_count r.0)
unfolding new_server
cleared_when_all_gone es came buffer2 =
    accept_pass_lem came buffer2 (happen_all es new_server) (happen_all-Tracked es new_server refl)

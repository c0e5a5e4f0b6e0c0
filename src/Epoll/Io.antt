-- ===== src/Epoll/Io.antt =====
-- Reading and writing on a connection: `HandleRecive`, `Reciver`, `Sender`, `EnableReadWrite` and
-- `HandleRequest` of 8.11/epollServer.2/epollServer.hpp.
use my_linux.Base.{
  ℕ, suc, Bool, true, false, not, Option, none, some, List, [], ◌∷◌, ◌++◌, ltb, min, if◌then◌else◌,
  length, take, drop,
}
use my_linux.Text.{Bytes}
use my_linux.Protocol.Json.{Json}
use my_linux.Protocol.Message.{Request, Response}
use my_linux.Epoll.Requests.{received_text, Handled, handled, thrown, out_of_fuel}
use my_linux.Epoll.Requests
use my_linux.Epoll.Connections.{mod_event, excepter}
use my_linux.Epoll.{
  Mask, listener, client, Connection, again, intr, other, Received, received, recv_failed, Sent,
  sent, done, bad_function_call, uncaught, over_read, diverged, M, ◌>>=◌, ◌>>◌, pure, fail, load,
  store,
}

unfoldable pub set_recvs : List Received → M (Unit {0})
set_recvs rest s = done tt (record s { recvs = rest })

unfoldable pub set_sends : List Sent → M (Unit {0})
set_sends rest s = done tt (record s { sends = rest })

-- `conn->_inbuffer += buffer`: the statement before it, `buffer[n] == 0;`, stores nothing, so the
-- text ends at the first NUL of what was received or, behind it, of what the array held.
unfoldable pub append_received : ℕ → Bytes → Bytes → M (Unit {0})
unfolding load store
append_received p bytes stale = do
  conn ← load p
  elim (received_text bytes stale) [
    | none ↦ fail over_read
    | some text ↦ store p (record conn { inbuffer = conn.inbuffer ++ text })
  ]

-- `while (conn->_events & EPOLLET)`
unfoldable pub while_edge : ℕ → M Bool → M Bool
unfolding load
while_edge p on = do conn ← load p; if conn.events.edge then on else pure true

-- The loop of `HandleRecive` over the results of `recv`, which takes 1023 bytes at most.
unfoldable pub recive_loop : ℕ → List Received → M Bool
unfolding set_recvs append_received while_edge excepter
recive_loop p [] = do set_recvs []; pure true
recive_loop p (received [] stale ∷ rest) = do set_recvs rest; excepter p; pure false
recive_loop p (received (c ∷ cs) stale ∷ rest) =
    let on = recive_loop p rest in
    do set_recvs rest; append_received p (take 1023 (c ∷ cs)) stale; while_edge p on
recive_loop p (recv_failed again ∷ rest) = do set_recvs rest; pure true
recive_loop p (recv_failed intr ∷ rest) =
    let on = recive_loop p rest in do set_recvs rest; while_edge p on
recive_loop p (recv_failed other ∷ rest) = do set_recvs rest; excepter p; pure false

unfoldable pub handle_recive : ℕ → M Bool
unfolding recive_loop
handle_recive p s = recive_loop p s.recvs s

unfoldable pub enable_read_write : ℕ → Bool → Bool → M Bool
unfolding load store mod_event
enable_read_write p readable writeable = do
  conn ← load p
  store p (record conn { events = mask })
  mod_event conn.fd mask
  where
    mask : Mask
    mask = record {
      readable = readable;
      writable = writeable;
      edge = true;
      err = false;
      hup = false;
    }

-- `_outbuffer.erase(0, n)` after `n` bytes went out.
unfoldable pub take_out : ℕ → Connection → ℕ → M (Unit {0})
unfolding store
take_out p conn n = do
  store p (record conn { outbuffer = drop n conn.outbuffer })
  λ s. done tt (record s { output = (conn.fd, take n conn.outbuffer) ∷ s.output })

-- The loop of `Sender` over the results of `send`; a result of 0 is handled as a failure. The
-- result is `flag`.
unfoldable pub send_loop : ℕ → List Sent → M Bool
unfolding load set_sends take_out while_edge excepter
send_loop p [] = do set_sends []; pure true
send_loop p (sent count errno ∷ rest) =
    let on = send_loop p rest in
    do
      set_sends rest
      conn ← load p
      let n = min count (length conn.outbuffer)
      if ltb 0 n
          then (do
            take_out p conn n
            elim (drop n conn.outbuffer) [ [] ↦ pure true | _ ∷ _ ↦ while_edge p on ])
          else elim errno [
            | again ↦ pure true
            | intr ↦ while_edge p on
            | other ↦ do excepter p; pure false
          ]

unfoldable pub sender : ℕ → M (Unit {0})
unfolding send_loop enable_read_write
sender p = do
  flag ← λ s. send_loop p s.sends s
  if not flag then pure tt else do
    conn ← load p
    _ ← enable_read_write p true (elim conn.outbuffer [ [] ↦ false | _ ∷ _ ↦ true ])
    pure tt

-- `conn->_sender(conn)`; the listening connection has a null callback.
unfoldable pub call_sender : ℕ → M (Unit {0})
unfolding load sender
call_sender p = do
  conn ← load p
  elim conn.role [ listener ↦ fail bad_function_call | client ↦ sender p ]

module _ (json : Json) (func : Request → Option Response) where
  unfoldable pub handle_request : ℕ → M (Unit {0})
  unfolding load store
  handle_request p = do
    conn ← load p
    elim (Requests.handle_request json func (suc (length conn.inbuffer)) conn.inbuffer
        conn.outbuffer) [
          | handled i o ↦ store p (record conn { inbuffer = i; outbuffer = o })
          | thrown ↦ fail uncaught
          | out_of_fuel ↦ fail diverged
        ]

  unfoldable pub reciver : ℕ → M (Unit {0})
  unfolding handle_recive handle_request load call_sender
  reciver p = do
    ok ← handle_recive p
    if not ok then pure tt else do
      handle_request p
      conn ← load p
      elim conn.outbuffer [ [] ↦ pure tt | _ ∷ _ ↦ call_sender p ]

-- ===== src/Http/Task.antt =====
-- src/http.rs: `http` and `handle_connection`. The picoserve server is a parameter: what it does
-- to the store with the socket it is given, and its result.
use ra6m3_rtic.Prelude.{ℕ, Option, none, some, List, [], ◌∷◌, Result, ok, err}
use ra6m3_rtic.Smoltcp.{Smoltcp}
use ra6m3_rtic.PollShare.{World, M, pure, ◌>>=◌}
use ra6m3_rtic.Future.{Schedule}
use ra6m3_rtic.Socket.Types.{Error, AcceptError, new}
use ra6m3_rtic.Socket.Tcp.{accept}
use ra6m3_rtic.Socket.Io.{ServeError, bad_request, read_timeout, write_timeout, read, write}

-- What `handle_connection` logs.
pub data Log : Type 0 where
  handled_requests : ℕ → Log
  serve_bad_request serve_read_timeout serve_write_timeout : Log
  serve_read_error serve_write_error : Error → Log

-- The `match` of `handle_connection`.
unfoldable pub log_served : Result ℕ ServeError → Log
log_served (ok handled_requests_count) = handled_requests handled_requests_count
log_served (err bad_request) = serve_bad_request
log_served (err (read e)) = serve_read_error e
log_served (err (write e)) = serve_write_error e
log_served (err read_timeout) = serve_read_timeout
log_served (err write_timeout) = serve_write_timeout

-- One connection as the world around the task makes it: what happens while `accept` waits, and
-- what `Server::serve` does with the socket.
pub record Connection (smol : Smoltcp) : Type 0 where
  pub waiting : Schedule smol
  pub serve : M smol (Result ℕ ServeError)

module _ (smol : Smoltcp) where
  -- After `accept`: `unwrap` panics on an error; a task that waits gets no further.
  abbrev pub after_accept :
      M smol (Result ℕ ServeError)
      → M smol (List Log)
      → Option (Option (Result (Unit {0}) AcceptError) × World smol)
      → Option (List Log × World smol)
  after_accept serve rest none = none
  after_accept serve rest (some (none, w)) = some ([], w)
  after_accept serve rest (some (some (err _), w)) = none
  after_accept serve rest (some (some (ok _), w)) =
      (do r ← serve; logs ← rest; pure (log_served r ∷ logs)) w

  -- The loop of `http`, over the connections; `port` is the endpoint 80.
  unfoldable pub http :
      smol.SocketHandle
      → smol.IpListenEndpoint
      → smol.Waker
      → List (Connection smol)
      → M smol (List Log)
  unfolding new
  http handle port cx [] w = some ([], w)
  http handle port cx (c ∷ cs) w =
      after_accept c.serve (http handle port cx cs)
        (accept smol (new {smol = smol} handle) port cx c.waiting w)

-- ===== src/Tests/SessionTests.antt =====
-- Connections of a few requests.
use foxhttp.Prelude.{◌≡◌, refl, true, false, List, [], ◌∷◌, arith}
use foxhttp.Server.Session.{
  SessionLimits, Session, new_session, start, response, request_read, read_failed,
  operation_aborted, chain_answered, answer_written, idle_expires, header_expires, header_handler,
  run,
}
use foxhttp.Server.Session.Limits.{Inv, session_limited}
use foxhttp.Server.Session.Script.{exchanges, answered, stays_open, Outcome, run-exchanges}
use foxhttp.Server.Session.Ssl.{SslEvent, handshake_expires, handshake_handler, connection}

abbrev two_requests : SessionLimits
two_requests = record { enable_keep_alive = true; max_requests_per_connection = 2 }

abbrev opened : Session
opened = start (new_session two_requests)

three_of : answered two_requests 0 (true ∷ true ∷ true ∷ []) ≡ response true ∷ response true ∷ []
unfolding answered
three_of = refl

session_limited_example :
    Inv (run (request_read false ∷ idle_expires ∷ chain_answered true ∷ answer_written ∷ []) opened)
session_limited_example =
    session_limited two_requests
      (request_read false ∷ idle_expires ∷ chain_answered true ∷ answer_written ∷ []) (omega arith)

run-exchanges_example :
    Outcome
      (run (exchanges (true ∷ true ∷ true ∷ [])) opened)
      opened
      (response true ∷ response true ∷ [])
      false
unfolding start answered stays_open
run-exchanges_example = run-exchanges (true ∷ true ∷ true ∷ []) opened refl (omega arith)

-- One exchange with late events of the handshake, and a read that the header timer cuts off.
abbrev cut : List SslEvent
cut =
    connection (request_read false)
    ∷ handshake_expires
    ∷ connection (chain_answered true)
    ∷ handshake_handler
    ∷ connection answer_written
    ∷ connection header_expires
    ∷ connection header_handler
    ∷ connection (read_failed operation_aborted)
    ∷ connection answer_written
    ∷ []

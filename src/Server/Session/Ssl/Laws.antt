-- ===== src/Server/Session/Ssl/Laws.antt =====
-- The loop of a TLS session against that of a plain one.
use foxhttp.Prelude.{◌≡◌, refl, true, false, List, [], ◌∷◌}
use foxhttp.Server.Session.{
  SessionLimits, ended, Session, operation_aborted, Event, request_read, read_failed,
}
use foxhttp.Server.Session.Ssl.{
  SslSession, start_ssl, SslEvent, handshake_completes, handshake_expires, handshake_handler,
  connection, is_created, on_timeout_handshake, begin_read_ssl, handshake_ends, read_fails_ssl,
  resume_ssl, step_connection, step_ssl, run_ssl,
}

-- Events that upgrade nothing.
abbrev pub IsPlain : SslEvent → Type 0
IsPlain (connection (request_read true)) = ⊥
IsPlain _ = Unit

-- The events that a plain session has as well.
abbrev pub of_connection : List SslEvent → List Event
of_connection [] = []
of_connection (connection e ∷ es) = e ∷ of_connection es
of_connection (e ∷ es) = of_connection es

-- A session whose handshake is done, and whose handshake timer can do nothing any more.
record Settled (s : SslSession) : Type 0 where
  off : s.handshake_timer.pending ≡ false
  unqueued : s.handshake_timer.queued ≡ 0
  live : is_created s.session.phase ≡ false

abbrev IsHandshake : SslEvent → Type 0
IsHandshake (connection e) = ⊥
IsHandshake _ = Unit

-- When the timer expires just before the handshake is done, its handler, which runs behind it, makes
-- the read of the first request end the session without an answer.
pub late_handshake_handler :
    (lim : SessionLimits)
    → (let t =
          run_ssl
            (handshake_expires
              ∷ handshake_completes
              ∷ handshake_handler
              ∷ connection (read_failed operation_aborted)
              ∷ [])
            (start_ssl lim) in
        (t.session.phase ≡ ended) × (t.session.sent ≡ []))
unfolding run_ssl step_ssl start_ssl handshake_ends begin_read_ssl on_timeout_handshake
    step_connection resume_ssl read_fails_ssl
late_handshake_handler lim = (refl, refl)

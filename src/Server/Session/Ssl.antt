-- ===== src/Server/Session/Ssl.antt =====
-- `SslSession` (src/server/ssl_session.cpp): a TLS handshake, and behind it a loop of its own. It keeps
-- its state in the fields that `Session` has too, most of them those of `SessionBase`.
pub mod Laws
pub mod Unfinished
use foxhttp.Prelude.{
  ℕ, ◌+◌, ◌%◌, ◌^◌, Bool, true, false, ◌&&◌, ◌||◌, not, List, [], ◌∷◌, ◌++◌, arith, ltb, ◌==◌,
  if◌then◌else◌,
}
use foxhttp.Server.Session.{
  SessionLimits, Timer, idle_timer_of_none, arm, cancel, expire, take_handler, not_aborted,
  header_timeout, body_timeout, handshake_timeout, Phase, created, reading, handling, writing,
  writing_timeout, handed_over, ended, Session, response, timed_out, new_session, arm_idle_timer,
  arm_header_timer, on_activity, cancel_header_timer, ReadError, operation_aborted, end_of_stream,
  read_error, Event, request_read, read_failed, chain_answered, chain_threw, answer_written,
  answer_lost, idle_expires, header_expires, body_expires, idle_handler, header_handler,
  body_handler, is_over, handle,
}

pub record SslSession : Type 0 where
  pub session : Session
  pub handshake_timer : Timer

-- `start` up to the handshake.
unfoldable pub start_ssl : SessionLimits → SslSession
start_ssl limits = record {
  session = arm_idle_timer (new_session limits);
  handshake_timer = arm idle_timer_of_none;
}

pub data SslEvent : Type 0 where
  handshake_completes handshake_expires handshake_handler : SslEvent
  handshake_fails : ReadError → SslEvent
  connection : Event → SslEvent

abbrev pub is_created : Phase → Bool
is_created created = true
is_created _ = false

-- The handler of the handshake timer sets the reason also when it comes late.
unfoldable pub on_timeout_handshake : SslSession → SslSession
on_timeout_handshake s =
    if ltb 0 s.handshake_timer.queued
    then record {
      session = record s.session { read_abort = handshake_timeout };
      handshake_timer = take_handler s.handshake_timer;
    }
    else s

-- The socket is shut down where the timer cut the handshake off.
unfoldable pub handshake_breaks : ReadError → SslSession → SslSession
handshake_breaks operation_aborted s = elim s.session.read_abort [
  | handshake_timeout ↦ record {
    session = record s.session { phase = ended; socket_shut = true };
    handshake_timer = cancel s.handshake_timer;
  }
  | _ ↦ record {
    session = record s.session { phase = ended };
    handshake_timer = cancel s.handshake_timer;
  }
]
handshake_breaks _ s = record {
  session = record s.session { phase = ended };
  handshake_timer = cancel s.handshake_timer;
}

-- The head of the loop.
unfoldable pub begin_read_ssl : Session → Session
begin_read_ssl s = record (arm_header_timer s) { read_abort = not_aborted; phase = reading }

unfoldable pub handshake_ends : SslSession → SslSession
unfolding begin_read_ssl
handshake_ends s = record {
  session = begin_read_ssl (on_activity s.session);
  handshake_timer = cancel s.handshake_timer;
}

-- A read that a timer cancelled is answered 408; one that fails otherwise ends the session.
unfoldable pub read_fails_ssl : ReadError → Session → Session
read_fails_ssl operation_aborted s =
    let why = s.read_abort in
    let t = record (cancel_header_timer s) { read_abort = not_aborted } in
    elim why [
      | header_timeout ↦ record t {
        sent = s.sent ++ timed_out header_timeout ∷ [];
        phase = writing_timeout;
      }
      | body_timeout ↦ record t {
        sent = s.sent ++ timed_out body_timeout ∷ [];
        phase = writing_timeout;
      }
      | handshake_timeout ↦ record t { phase = ended }
      | not_aborted ↦ record t { phase = ended }
    ]
read_fails_ssl end_of_stream s = record (cancel_header_timer s) { phase = ended }
read_fails_ssl read_error s = record (cancel_header_timer s) { phase = ended }

-- An upgrade hands the stream to a `WssSession` and leaves the timers to the destructor.
unfoldable pub read_completes_ssl : Bool → Session → Session
read_completes_ssl upgrade s = record (on_activity (cancel_header_timer s)) {
  phase = if upgrade then handed_over else handling;
}

unfoldable pub chain_answers_ssl : Bool → Session → Session
chain_answers_ssl keep_alive s = record s {
  keep_alive = keep_alive;
  sent = s.sent ++ response keep_alive ∷ [];
  phase = writing;
}

unfoldable pub chain_throws_ssl : Session → Session
chain_throws_ssl s = record s { errors = s.errors + 1; phase = ended }

unfoldable pub write_fails_ssl : Session → Session
write_fails_ssl s = record s { socket_shut = true; phase = ended }

abbrev pub keep_open_ssl : SessionLimits → Bool → ℕ → Bool
keep_open_ssl lim keep_alive served =
    (lim.enable_keep_alive && keep_alive)
    && ((lim.max_requests_per_connection == 0) || ltb served lim.max_requests_per_connection)

unfoldable pub write_completes_ssl : Session → Session
unfolding begin_read_ssl
write_completes_ssl s =
    let served = (s.requests_served + 1) % 2 ^ 64 in
    let counted = record s { requests_served = served } in
    if not (keep_open_ssl s.limits s.keep_alive served)
    then record counted { socket_shut = true; phase = ended }
    else begin_read_ssl (on_activity counted)

-- What `run` does when the operation behind the handshake that it waits for has ended.
unfoldable pub resume_ssl : Phase → Event → Session → Session
unfolding read_fails_ssl read_completes_ssl chain_answers_ssl chain_throws_ssl write_completes_ssl
    write_fails_ssl
resume_ssl reading (request_read upgrade) s = read_completes_ssl upgrade s
resume_ssl reading (read_failed e) s = read_fails_ssl e s
resume_ssl handling (chain_answered keep_alive) s = chain_answers_ssl keep_alive s
resume_ssl handling chain_threw s = chain_throws_ssl s
resume_ssl writing answer_written s = write_completes_ssl s
resume_ssl writing answer_lost s = write_fails_ssl s
resume_ssl writing_timeout answer_written s = record s { phase = ended }
resume_ssl writing_timeout answer_lost s = record s { phase = ended }
resume_ssl phase e s = s

unfoldable pub on_timeout_idle_ssl : Session → Session
on_timeout_idle_ssl s = record s { socket_shut = true }

-- `cancel` of the lowest layer ends a pending read with `operation_aborted`: a later event.
unfoldable pub on_timeout_header_ssl : Session → Session
on_timeout_header_ssl s = record s { read_abort = header_timeout }

unfoldable pub on_timeout_body_ssl : Session → Session
on_timeout_body_ssl s = record s { read_abort = body_timeout }

-- The timers are those of `SessionBase`; their handlers call the functions of this class.
unfoldable pub step_connection : Event → Session → Session
unfolding resume_ssl on_timeout_idle_ssl on_timeout_header_ssl on_timeout_body_ssl
step_connection idle_expires s = record s { idle_timer = expire s.idle_timer }
step_connection header_expires s = record s { header_timer = expire s.header_timer }
step_connection body_expires s = record s { body_timer = expire s.body_timer }
step_connection idle_handler s =
    handle s.idle_timer (on_timeout_idle_ssl (record s { idle_timer = take_handler s.idle_timer }))
      s
step_connection header_handler s =
    handle s.header_timer
      (on_timeout_header_ssl (record s { header_timer = take_handler s.header_timer })) s
step_connection body_handler s =
    handle s.body_timer (on_timeout_body_ssl (record s { body_timer = take_handler s.body_timer }))
      s
step_connection e s = resume_ssl s.phase e s

unfoldable pub step_ssl : SslEvent → SslSession → SslSession
unfolding on_timeout_handshake handshake_ends handshake_breaks step_connection
step_ssl handshake_completes s = if is_created s.session.phase then handshake_ends s else s
step_ssl (handshake_fails e) s = if is_created s.session.phase then handshake_breaks e s else s
step_ssl handshake_expires s = record s { handshake_timer = expire s.handshake_timer }
step_ssl handshake_handler s = on_timeout_handshake s
step_ssl (connection e) s = record s { session = step_connection e s.session }

unfoldable pub run_ssl : List SslEvent → SslSession → SslSession
unfolding step_ssl
run_ssl [] s = s
run_ssl (e ∷ es) s = run_ssl es (if is_over s.session.phase then s else step_ssl e s)

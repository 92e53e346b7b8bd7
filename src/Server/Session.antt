-- ===== src/Server/Session.antt =====
-- `Session` and `SessionBase` (src/server/session.cpp, src/server/session_base.cpp): one connection,
-- in the build with coroutines. What the network, the timers and the middleware chain do next is an
-- event; an event that the session is not waiting for changes nothing.
pub mod Limits
pub mod Script
pub mod Ssl
use foxhttp.Prelude.{
  ℕ, zero, suc, ◌+◌, ◌-◌, ◌*◌, ◌/◌, ◌%◌, ◌^◌, ◌≤◌, ◌<◌, ◌≡◌, refl, sym, ap, ◌∙◌, subst, ◌≢◌, ◌↔◌,
  ◌⊎◌, inl, inr, Bool, true, false, ◌&&◌, ◌||◌, not, Option, none, some, List, [], ◌∷◌, ◌++◌, map,
  append-nil, append_assoc, arith, ltb, leb, ◌==◌, if◌then◌else◌, ltb→lt, lt→ltb, leb→le, le→leb,
  ==_iff, ==_refl, ne→==, tests, Bool-cases, Option-cases, Result, ok, err, Result-cases, length,
  get_elem?, take, drop, is_empty, keep, length-append, take-append-drop, length-drop,
  take-length-append, drop-length-append, drop-add, drop-past, All, All-append, Bytes, codes, same,
  find, has, starts_with, Lacks, same_iff, same_refl, find-append, find-eq-none, find-lt-length,
  find-Lacks, find_split, drop_at, lookup, insert, lookup-insert, is_empty_of_lookup, lookup-nil,
  getlines, begin_line, has_suffix, is_space, is_alnum, hex_value, hex_digit, stream_hex, stoi_hex,
  hex_value-hex_digit, getlines-append, getlines-one, between, join, IsLine, getlines-join,
  drop_behind, is_empty-append, ne_of_same, to_string,
}

-- The part of `SessionLimits` that the loop reads. 0 requests stand for no limit.
pub record SessionLimits : Type 0 where
  pub enable_keep_alive : Bool
  pub max_requests_per_connection : ℕ

-- A `steady_timer`: the wait that is pending, and the completed waits whose handler has not run yet,
-- which a cancellation does not reach.
pub record Timer : Type 0 where
  pub pending : Bool
  pub queued : ℕ

abbrev pub idle_timer_of_none : Timer
idle_timer_of_none = record { pending = false; queued = 0 }

-- `expires_after` gives up the pending wait, `async_wait` starts another.
abbrev pub arm : Timer → Timer
arm t = record t { pending = true }

abbrev pub cancel : Timer → Timer
cancel t = record t { pending = false }

abbrev pub expire : Timer → Timer
expire t = if t.pending then record { pending = false; queued = t.queued + 1 } else t

abbrev pub take_handler : Timer → Timer
take_handler t = record t { queued = t.queued - 1 }

pub data ReadAbortReason : Type 0 where
  not_aborted header_timeout body_timeout handshake_timeout : ReadAbortReason

-- What `run` is waiting for.
pub data Phase : Type 0 where
  created reading handling writing writing_timeout ended handed_over : Phase

-- What the session writes: the response of the chain, or the answer 408 for a reason.
pub data Answer : Type 0 where
  response : Bool → Answer
  timed_out : ReadAbortReason → Answer

pub record Session : Type 0 where
  pub limits : SessionLimits
  pub phase : Phase
  pub read_abort : ReadAbortReason
  pub idle_timer : Timer
  pub header_timer : Timer
  pub body_timer : Timer
  pub keep_alive : Bool
  pub requests_served : ℕ
  pub sent : List Answer
  pub socket_shut : Bool
  pub errors : ℕ

abbrev pub new_session : SessionLimits → Session
new_session limits = record {
  limits = limits;
  phase = created;
  read_abort = not_aborted;
  idle_timer = idle_timer_of_none;
  header_timer = idle_timer_of_none;
  body_timer = idle_timer_of_none;
  keep_alive = true;
  requests_served = 0;
  sent = [];
  socket_shut = false;
  errors = 0;
}

abbrev pub arm_idle_timer : Session → Session
arm_idle_timer s = record s { idle_timer = arm s.idle_timer }

abbrev pub cancel_idle_timer : Session → Session
cancel_idle_timer s = record s { idle_timer = cancel s.idle_timer }

abbrev pub arm_header_timer : Session → Session
arm_header_timer s = record s { header_timer = arm s.header_timer }

abbrev pub cancel_header_timer : Session → Session
cancel_header_timer s = record s { header_timer = cancel s.header_timer }

abbrev pub cancel_body_timer : Session → Session
cancel_body_timer s = record s { body_timer = cancel s.body_timer }

abbrev pub on_activity : Session → Session
on_activity s = arm_idle_timer (cancel_idle_timer s)

-- The head of the loop.
abbrev pub begin_read : Session → Session
begin_read s = record (arm_header_timer s) { read_abort = not_aborted; phase = reading }

unfoldable pub start : Session → Session
start s = begin_read (arm_idle_timer s)

-- How a read fails: cancelled, the end of the stream, or another error.
pub data ReadError : Type 0 where
  operation_aborted end_of_stream read_error : ReadError

-- The answer 408, for a read that a timer cancelled.
abbrev pub write_timeout_answer : Session → Session
write_timeout_answer s = elim s.read_abort [
  | header_timeout ↦ record s {
    read_abort = not_aborted;
    phase = writing_timeout;
    sent = s.sent ++ timed_out header_timeout ∷ [];
  }
  | body_timeout ↦ record s {
    read_abort = not_aborted;
    phase = writing_timeout;
    sent = s.sent ++ timed_out body_timeout ∷ [];
  }
  | _ ↦ record s { read_abort = not_aborted; phase = ended }
]

unfoldable pub read_fails : ReadError → Session → Session
read_fails operation_aborted s = write_timeout_answer (cancel_header_timer s)
read_fails end_of_stream s = record (cancel_header_timer s) { phase = ended }
read_fails read_error s = record (cancel_header_timer s) { phase = ended }

-- A request has come; an upgrade hands the socket over to a `WsSession`.
unfoldable pub read_completes : Bool → Session → Session
read_completes upgrade s =
    let t = on_activity (cancel_header_timer s) in
    if upgrade
    then record (cancel_body_timer (cancel_header_timer (cancel_idle_timer t))) {
      phase = handed_over;
    }
    else record t { phase = handling }

-- The chain has answered; the flag is that of `res_.keep_alive()`.
unfoldable pub chain_answers : Bool → Session → Session
chain_answers keep_alive s = record s {
  phase = writing;
  keep_alive = keep_alive;
  sent = s.sent ++ response keep_alive ∷ [];
}

-- An exception that leaves the chain ends the coroutine.
unfoldable pub chain_throws : Session → Session
chain_throws s = record s { phase = ended; errors = s.errors + 1 }

abbrev pub keep_open : SessionLimits → Bool → ℕ → Bool
keep_open lim keep_alive served =
    lim.enable_keep_alive
    && (keep_alive
        && ((lim.max_requests_per_connection == 0) || ltb served lim.max_requests_per_connection))

unfoldable pub write_completes : Session → Session
write_completes s =
    let served = (s.requests_served + 1) % 2 ^ 64 in
    let t = record s { requests_served = served } in
    if keep_open s.limits s.keep_alive served
    then begin_read (on_activity t)
    else record t { phase = ended; socket_shut = true }

unfoldable pub write_fails : Session → Session
write_fails s = record s { phase = ended; socket_shut = true }

unfoldable pub on_timeout_idle : Session → Session
on_timeout_idle s = record s { socket_shut = true }

-- `cancel` of the socket ends a pending read with `operation_aborted`: a later event.
unfoldable pub on_timeout_header : Session → Session
on_timeout_header s = record s { read_abort = header_timeout }

unfoldable pub on_timeout_body : Session → Session
on_timeout_body s = record s { read_abort = body_timeout }

pub data Event : Type 0 where
  request_read : Bool → Event
  read_failed : ReadError → Event
  chain_answered : Bool → Event
  chain_threw answer_written answer_lost : Event
  idle_expires header_expires body_expires : Event
  idle_handler header_handler body_handler : Event

abbrev pub is_over : Phase → Bool
is_over ended = true
is_over handed_over = true
is_over _ = false

-- What `run` does when the operation that it waits for has ended.
unfoldable pub resume : Phase → Event → Session → Session
unfolding read_completes read_fails chain_answers chain_throws write_completes write_fails
resume reading (request_read upgrade) s = read_completes upgrade s
resume reading (read_failed e) s = read_fails e s
resume handling (chain_answered keep_alive) s = chain_answers keep_alive s
resume handling chain_threw s = chain_throws s
resume writing answer_written s = write_completes s
resume writing answer_lost s = write_fails s
resume writing_timeout answer_written s = record s { phase = ended }
resume writing_timeout answer_lost s = record s { phase = ended }
resume phase e s = s

-- The handler of a wait that has ended.
abbrev pub handle : Timer → Session → Session → Session
handle t without s = if ltb 0 t.queued then without else s

unfoldable pub step : Event → Session → Session
unfolding resume on_timeout_idle on_timeout_header on_timeout_body
step idle_expires s = record s { idle_timer = expire s.idle_timer }
step header_expires s = record s { header_timer = expire s.header_timer }
step body_expires s = record s { body_timer = expire s.body_timer }
step idle_handler s =
    handle s.idle_timer (on_timeout_idle (record s { idle_timer = take_handler s.idle_timer })) s
step header_handler s =
    handle s.header_timer
      (on_timeout_header (record s { header_timer = take_handler s.header_timer })) s
step body_handler s =
    handle s.body_timer (on_timeout_body (record s { body_timer = take_handler s.body_timer })) s
step e s = resume s.phase e s

-- A session that is over is destroyed with its timers, and nothing reaches it any more.
unfoldable pub run : List Event → Session → Session
unfolding step
run [] s = s
run (e ∷ es) s = run es (if is_over s.phase then s else step e s)

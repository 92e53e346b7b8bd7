-- ===== src/Server/Session/Limits.antt =====
-- What holds of a session after whatever the network, the timers and the chain did.
use foxhttp.Prelude.{
  ◌^◌, ◌≤◌, ◌<◌, ◌≡◌, refl, ◌≢◌, ◌⊎◌, inl, inr, Bool, true, false, List, [], ◌∷◌, arith, Bool-cases,
}
use foxhttp.Server.Session.{
  SessionLimits, Timer, header_timeout, body_timeout, Phase, created, reading, handling, writing,
  writing_timeout, ended, handed_over, Session, new_session, start, ReadError, operation_aborted,
  end_of_stream, read_error, read_fails, read_completes, chain_answers, chain_throws,
  write_completes, write_fails, on_timeout_idle, on_timeout_header, on_timeout_body, Event,
  request_read, read_failed, chain_answered, chain_threw, answer_written, answer_lost, idle_expires,
  header_expires, body_expires, idle_handler, header_handler, body_handler, is_over, resume, step,
  run,
}

-- A wait that will end, or has ended and will be handled.
abbrev pub IsLive : Timer → Type 0
IsLive t = (t.pending ≡ true) ⊎ (0 < t.queued)

abbrev pub serves : Phase → Bool
serves reading = true
serves handling = true
serves writing = true
serves _ = false

abbrev pub reads : Phase → Bool
reads reading = true
reads _ = false

pub record Inv (s : Session) : Type 0 where
  pub representable : s.limits.max_requests_per_connection < 2 ^ 64
  pub within :
      0 < s.limits.max_requests_per_connection
      → s.requests_served ≤ s.limits.max_requests_per_connection
  pub below :
      serves s.phase ≡ true
      → 0 < s.limits.max_requests_per_connection
      → s.requests_served < s.limits.max_requests_per_connection
  pub single : s.limits.enable_keep_alive ≡ false → s.requests_served ≤ 1
  pub first : serves s.phase ≡ true → s.limits.enable_keep_alive ≡ false → s.requests_served ≡ 0
  -- Nothing arms the body timer.
  pub no_body_wait : s.body_timer.pending ≡ false
  pub no_body_handler : s.body_timer.queued ≡ 0
  pub no_body_abort : s.read_abort ≢ body_timeout
  -- A read is always limited in time, a session by the idle timer.
  pub read_limited : reads s.phase ≡ true → IsLive s.header_timer ⊎ (s.read_abort ≡ header_timeout)
  pub idle_limited : is_over s.phase ≡ false → IsLive s.idle_timer ⊎ (s.socket_shut ≡ true)

start-Inv :
    (lim : SessionLimits) → lim.max_requests_per_connection < 2 ^ 64 → Inv (start (new_session lim))
unfolding start
start-Inv lim m = ground arith

read_completes-Inv : (u : Bool) (s : Session) → s.phase ≡ reading → Inv s → Inv (read_completes u s)
unfolding read_completes
read_completes-Inv u s p v = ground arith

read_fails-Inv : (e : ReadError) (s : Session) → s.phase ≡ reading → Inv s → Inv (read_fails e s)
unfolding read_fails
read_fails-Inv operation_aborted s p v = ground arith
read_fails-Inv end_of_stream s p v = ground arith
read_fails-Inv read_error s p v = ground arith

chain_answers-Inv : (k : Bool) (s : Session) → s.phase ≡ handling → Inv s → Inv (chain_answers k s)
unfolding chain_answers
chain_answers-Inv k s p v = ground arith

chain_throws-Inv : (s : Session) → Inv s → Inv (chain_throws s)
unfolding chain_throws
chain_throws-Inv s v = ground arith

write_completes-Inv : (s : Session) → s.phase ≡ writing → Inv s → Inv (write_completes s)
unfolding write_completes
write_completes-Inv s p v = ground arith

write_fails-Inv : (s : Session) → Inv s → Inv (write_fails s)
unfolding write_fails
write_fails-Inv s v = ground arith

over-Inv : (s : Session) → Inv s → Inv (record s { phase = ended })
over-Inv s v = ground arith

resume-Inv : (p : Phase) (e : Event) (s : Session) → s.phase ≡ p → Inv s → Inv (resume p e s)
unfolding resume
resume-Inv reading (request_read upgrade) s p v = read_completes-Inv upgrade s p v
resume-Inv reading (read_failed e) s p v = read_fails-Inv e s p v
resume-Inv handling (chain_answered k) s p v = chain_answers-Inv k s p v
resume-Inv handling chain_threw s p v = chain_throws-Inv s v
resume-Inv writing answer_written s p v = write_completes-Inv s p v
resume-Inv writing answer_lost s p v = write_fails-Inv s v
resume-Inv writing_timeout answer_written s p v = over-Inv s v
resume-Inv writing_timeout answer_lost s p v = over-Inv s v
resume-Inv created e s p v = v
resume-Inv ended e s p v = v
resume-Inv handed_over e s p v = v
resume-Inv phase e s p v = v

step-Inv : (e : Event) (s : Session) → Inv s → Inv (step e s)
unfolding step on_timeout_idle on_timeout_header on_timeout_body
step-Inv idle_expires s v = ground arith
step-Inv header_expires s v = ground arith
step-Inv body_expires s v = ground arith
step-Inv idle_handler s v = ground arith
step-Inv header_handler s v = ground arith
step-Inv body_handler s v = ground arith
step-Inv e s v = resume-Inv s.phase e s refl v

run-Inv : (es : List Event) (s : Session) → Inv s → Inv (run es s)
unfolding run
run-Inv [] s v = v
run-Inv (e ∷ es) s v = elim (Bool-cases (is_over s.phase)) [
  | inl o ↦ rw (run, o) (run-Inv es s v)
  | inr l ↦ rw (run, l) (run-Inv es (step e s) (step-Inv e s v))
]

-- Whatever happens on a connection, it completes no more responses than the limit allows, and one at
-- most without keep-alive; while a request is read, the header timer is running or has cut the read
-- off, and until the session is over the idle timer is running or has shut the socket down. The body
-- timer never runs, and no read is cut off for the body.
pub session_limited :
    (lim : SessionLimits) (es : List Event)
    → lim.max_requests_per_connection < 2 ^ 64
    → Inv (run es (start (new_session lim)))
session_limited lim es m = run-Inv es (start (new_session lim)) (start-Inv lim m)

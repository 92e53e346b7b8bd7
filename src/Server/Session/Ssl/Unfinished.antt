-- ===== src/Server/Session/Ssl/Unfinished.antt =====
-- A TLS session whose handshake is not done.
use foxhttp.Prelude.{◌≡◌, refl, ◌⊎◌, inl, inr, List, [], ◌∷◌, arith, Bool-cases, All}
use foxhttp.Server.Session.{SessionLimits, created, ended, operation_aborted, Event, is_over}
use foxhttp.Server.Session.Ssl.{
  SslSession, start_ssl, SslEvent, handshake_completes, handshake_expires, handshake_handler,
  handshake_fails, connection, on_timeout_handshake, handshake_breaks, resume_ssl, step_connection,
  step_ssl, run_ssl,
}

abbrev pub IsUnfinished : SslEvent → Type 0
IsUnfinished handshake_completes = ⊥
IsUnfinished _ = Unit

-- A session whose handshake is not done.
record Silent (s : SslSession) : Type 0 where
  before : (s.session.phase ≡ created) ⊎ (s.session.phase ≡ ended)
  nothing_sent : s.session.sent ≡ []
  nothing_served : s.session.requests_served ≡ 0

step_connection-Silent :
    (e : Event) (s : SslSession)
    → Silent s
    → Silent (record s { session = step_connection e s.session })
unfolding step_connection resume_ssl
step_connection-Silent e s v = ground arith

step_ssl-Silent :
    (e : SslEvent) (s : SslSession) → IsUnfinished e → Silent s → Silent (step_ssl e s)
unfolding step_ssl on_timeout_handshake handshake_breaks
step_ssl-Silent handshake_completes s u v = elim u [ ]
step_ssl-Silent (handshake_fails operation_aborted) s u v = ground arith
step_ssl-Silent (handshake_fails e) s u v = ground arith
step_ssl-Silent handshake_expires s u v = ground arith
step_ssl-Silent handshake_handler s u v = ground arith
step_ssl-Silent (connection e) s u v = step_connection-Silent e s v

run_ssl-Silent :
    (es : List SslEvent) (s : SslSession) → All IsUnfinished es → Silent s → Silent (run_ssl es s)
unfolding run_ssl
run_ssl-Silent [] s u v = v
run_ssl-Silent (e ∷ es) s u v = elim (Bool-cases (is_over s.session.phase)) [
  | inl o ↦ rw (run_ssl, o) (run_ssl-Silent es s u.1 v)
  | inr l ↦ rw (run_ssl, l) (run_ssl-Silent es (step_ssl e s) u.1 (step_ssl-Silent e s u.0 v))
]

-- Without a finished handshake a TLS session sends nothing and serves no request, whatever happens.
pub unfinished_handshake :
    (lim : SessionLimits) (es : List SslEvent)
    → All IsUnfinished es
    → ((run_ssl es (start_ssl lim)).session.sent ≡ [])
      × ((run_ssl es (start_ssl lim)).session.requests_served ≡ 0)
unfolding start_ssl
unfinished_handshake lim es u =
    let v =
      run_ssl-Silent es (start_ssl lim) u
        (record { before = inl refl; nothing_sent = refl; nothing_served = refl }) in
    (v.nothing_sent, v.nothing_served)

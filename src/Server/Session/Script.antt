-- ===== src/Server/Session/Script.antt =====
-- A connection without failures, against the exchanges that HTTP keep-alive lets it serve.
use foxhttp.Prelude.{
  ℕ, zero, ◌+◌, ◌%◌, ◌^◌, ◌<◌, ◌≡◌, refl, sym, ap, ◌∙◌, subst, inl, inr, Bool, true, false, List,
  [], ◌∷◌, ◌++◌, suc, ◌-◌, ◌&&◌, ◌||◌, not, ◌==◌, ltb, map, take, is_empty, append-nil,
  append_assoc, arith, if◌then◌else◌, Bool-cases, length,
}
use foxhttp.Server.Session.{
  SessionLimits, not_aborted, header_timeout, reading, ended, Session, keep_open, Answer, response,
  timed_out, read_completes, chain_answers, write_completes, Event, request_read, read_failed,
  chain_answered, answer_written, header_expires, header_handler, operation_aborted, is_over,
  resume, step, run, read_fails, on_timeout_header,
}

-- The events of exchanges whose responses allow or forbid keep-alive.
abbrev pub exchanges : List Bool → List Event
exchanges [] = []
exchanges (k ∷ ks) = request_read false ∷ chain_answered k ∷ answer_written ∷ exchanges ks

-- The responses up to the first that forbids keep-alive.
abbrev pub polite : List Bool → List Bool
polite [] = []
polite (true ∷ ks) = true ∷ polite ks
polite (false ∷ ks) = false ∷ []

-- How many of the next `n` responses may follow one more on a connection that carried `served`: none
-- without keep-alive, all of them without a limit, and else what the limit leaves.
abbrev pub further : SessionLimits → ℕ → ℕ → ℕ
further lim served n =
    if not lim.enable_keep_alive
    then 0
    else if lim.max_requests_per_connection == 0
    then n
    else lim.max_requests_per_connection - (served + 1)

-- The answers that the limits promise.
unfoldable pub answered : SessionLimits → ℕ → List Bool → List Answer
answered lim served ks = map response (take (suc (further lim served (length ks))) (polite ks))

abbrev pub all_true : List Bool → Bool
all_true [] = true
all_true (k ∷ ks) = k && all_true ks

-- Whether the connection is open behind them: keep-alive is enabled, each of them allows it, and the
-- limit is not reached.
unfoldable pub stays_open : SessionLimits → ℕ → List Bool → Bool
stays_open lim served ks =
    is_empty ks
    || (lim.enable_keep_alive
        && (all_true ks
            && ((lim.max_requests_per_connection == 0)
                || ltb (served + length ks) lim.max_requests_per_connection)))

abbrev nothing : List Bool
nothing = []

take-nil : (n : ℕ) → take n nothing ≡ nothing
take-nil zero = refl
take-nil (suc n) = refl

answered-nil : (lim : SessionLimits) (n : ℕ) → answered lim n [] ≡ []
unfolding answered
answered-nil lim n = refl

stays_open-nil : (lim : SessionLimits) (n : ℕ) → stays_open lim n [] ≡ true
unfolding stays_open
stays_open-nil lim n = refl

answered-kept :
    (lim : SessionLimits) (n : ℕ) (k : Bool) (ks : List Bool)
    → keep_open lim k (n + 1) ≡ true
    → answered lim n (k ∷ ks) ≡ response k ∷ answered lim (n + 1) ks
unfolding answered
answered-kept lim n false ks e = absurd (ground arith)
answered-kept lim n true ks e =
    let more : further lim n (suc (length ks)) ≡ suc (further lim (n + 1) (length ks)) =
      ground arith in
    ap (λ m. response true ∷ map response (take m (polite ks))) more

answered-last :
    (lim : SessionLimits) (n : ℕ) (k : Bool) (ks : List Bool)
    → keep_open lim k (n + 1) ≡ false
    → answered lim n (k ∷ ks) ≡ response k ∷ []
unfolding answered
answered-last lim n false ks e =
    ap (λ r. response false ∷ map response r) (take-nil (further lim n (suc (length ks))))
answered-last lim n true ks e =
    let none_left : further lim n (suc (length ks)) ≡ 0 = ground arith in
    ap (λ m. response true ∷ map response (take m (polite ks))) none_left

stays_open-kept :
    (lim : SessionLimits) (n : ℕ) (k : Bool) (ks : List Bool)
    → keep_open lim k (n + 1) ≡ true
    → stays_open lim n (k ∷ ks) ≡ stays_open lim (n + 1) ks
unfolding stays_open
stays_open-kept lim n k [] e = ground arith
stays_open-kept lim n k (x ∷ ks) e = ground arith

stays_open-last :
    (lim : SessionLimits) (n : ℕ) (k : Bool) (ks : List Bool)
    → keep_open lim k (n + 1) ≡ false
    → stays_open lim n (k ∷ ks) ≡ false
unfolding stays_open
stays_open-last lim n k ks e = ground arith

run_over : (es : List Event) (s : Session) → is_over s.phase ≡ true → run es s ≡ s
unfolding run
run_over [] s o = refl
run_over (e ∷ es) s o = rw (run, o) (run_over es s o)

-- One exchange, from the start of its read.
abbrev exchanged : Bool → Session → Session
exchanged k s = write_completes (chain_answers k (read_completes false s))

run-exchange :
    (k : Bool) (es : List Event) (s : Session)
    → s.phase ≡ reading
    → run (request_read false ∷ chain_answered k ∷ answer_written ∷ es) s ≡ run es (exchanged k s)
unfolding run step resume read_completes chain_answers
run-exchange k es s p = rw (run, p, run) refl

-- What is left of a session after a script: what it sent, and whether it waits for a request or has
-- shut its socket and ended.
pub record Outcome (s : Session) (before : Session) (answers : List Answer) (open_still : Bool)
    : Type 0 where
  pub sent : s.sent ≡ before.sent ++ answers
  pub phase : s.phase ≡ (if open_still then reading else ended)
  pub shut : s.socket_shut ≡ (if open_still then before.socket_shut else true)

record Continued (k : Bool) (s t : Session) : Type 0 where
  limits : t.limits ≡ s.limits
  phase : t.phase ≡ reading
  served : t.requests_served ≡ s.requests_served + 1
  sent : t.sent ≡ s.sent ++ response k ∷ []
  shut : t.socket_shut ≡ s.socket_shut

exchanged-Continued :
    (k : Bool) (s : Session)
    → s.requests_served + 1 < 2 ^ 64
    → keep_open s.limits k (s.requests_served + 1) ≡ true
    → Continued k s (exchanged k s)
unfolding read_completes chain_answers write_completes
exchanged-Continued k s b e =
    let w : (s.requests_served + 1) % 2 ^ 64 ≡ s.requests_served + 1 = omega arith in
    rw (write_completes, w, e)
      (record { limits = refl; phase = refl; served = refl; sent = refl; shut = refl })

exchanged-closed :
    (k : Bool) (s : Session)
    → s.requests_served + 1 < 2 ^ 64
    → keep_open s.limits k (s.requests_served + 1) ≡ false
    → Outcome (exchanged k s) s (response k ∷ []) false
unfolding read_completes chain_answers write_completes
exchanged-closed k s b e =
    let w : (s.requests_served + 1) % 2 ^ 64 ≡ s.requests_served + 1 = omega arith in
    rw (write_completes, w, e) (record { sent = refl; phase = refl; shut = refl })

Outcome-closed :
    (es : List Event) (s t : Session) (a : List Answer)
    → Outcome t s a false
    → Outcome (run es t) s a false
Outcome-closed es s t a o = rw (run_over es t (rw o.phase)) o

Outcome-continued :
    (k : Bool) (s t u : Session) (a : List Answer) (b : Bool)
    → Continued k s t
    → Outcome u t a b
    → Outcome u s (response k ∷ a) b
Outcome-continued k s t u a b c o = record {
  sent = o.sent ∙ rw (c.sent, append_assoc s.sent (response k ∷ []) a);
  phase = o.phase;
  shut = rw o.shut (rw c.shut);
}

Outcome-at :
    (u t : Session) (ks : List Bool) (lim : SessionLimits) (n : ℕ)
    → t.limits ≡ lim
    → t.requests_served ≡ n
    → Outcome u t
        (answered t.limits t.requests_served ks)
        (stays_open t.limits t.requests_served ks)
    → Outcome u t (answered lim n ks) (stays_open lim n ks)
Outcome-at u t ks lim n p q o =
    subst (λ l. Outcome u t (answered l n ks) (stays_open l n ks)) p
      (subst (λ m. Outcome u t (answered t.limits m ks) (stays_open t.limits m ks)) q o)

-- A connection without failures sends the responses of the chain in the order of the requests up to
-- the first that forbids keep-alive, and of these one alone where keep-alive is disabled, else no more
-- than the limit leaves, if there is one (but one at least). Then it waits for a request exactly if
-- none was made, or keep-alive is enabled, each response allows it and the limit is not reached;
-- otherwise it has shut the socket down and ended, and later requests are not read. The count of the
-- requests does not reach 2^64.
pub run-exchanges :
    (ks : List Bool) (s : Session)
    → s.phase ≡ reading
    → s.requests_served + length ks < 2 ^ 64
    → Outcome
        (run (exchanges ks) s)
        s
        (answered s.limits s.requests_served ks)
        (stays_open s.limits s.requests_served ks)
unfolding run
run-exchanges [] s p b =
    rw (answered-nil s.limits s.requests_served, stays_open-nil s.limits s.requests_served)
      (record { sent = sym (append-nil s.sent); phase = p; shut = refl })
run-exchanges (k ∷ ks) s p b =
    rw (run-exchange k (exchanges ks) s p)
      (elim (Bool-cases (keep_open s.limits k (s.requests_served + 1))) [
        | inl e ↦
            let c = exchanged-Continued k s (omega arith) e in
            let o = run-exchanges ks (exchanged k s) c.phase (omega (arith, c.served)) in
            rw
              (
                answered-kept s.limits s.requests_served k ks e,
                stays_open-kept s.limits s.requests_served k ks e,
              )
              (Outcome-continued k s (exchanged k s) _ _ _ c (
                Outcome-at _ (exchanged k s) ks s.limits (s.requests_served + 1) c.limits c.served
                  o))
        | inr e ↦
            rw
              (
                answered-last s.limits s.requests_served k ks e,
                stays_open-last s.limits s.requests_served k ks e,
              )
              (Outcome-closed (exchanges ks) s (exchanged k s) (response k ∷ [])
                (exchanged-closed k s (omega arith) e))
      ])

run-step :
    (e : Event) (es : List Event) (s : Session)
    → is_over s.phase ≡ false
    → run (e ∷ es) s ≡ run es (step e s)
unfolding run
run-step e es s l = rw (run, l)

abbrev cut_off : Session → Session
cut_off s = record s {
  header_timer = record { pending = false; queued = s.header_timer.queued };
  read_abort = header_timeout;
}

expired :
    (s : Session)
    → s.header_timer.pending ≡ true
    → step header_handler (step header_expires s) ≡ cut_off s
unfolding step on_timeout_header
expired s h = ground arith

abbrev answered_408 : Session → Session
answered_408 s = record (cut_off s) {
  read_abort = not_aborted;
  phase = ended;
  sent = s.sent ++ timed_out header_timeout ∷ [];
}

aborted :
    (s : Session)
    → s.phase ≡ reading
    → step answer_written (step (read_failed operation_aborted) (cut_off s)) ≡ answered_408 s
unfolding step resume read_fails
aborted s p = rw p

live_expired : (s : Session) → s.phase ≡ reading → is_over (step header_expires s).phase ≡ false
unfolding step
live_expired s p = rw p

live_aborted :
    (s : Session)
    → s.phase ≡ reading
    → is_over (step (read_failed operation_aborted) (cut_off s)).phase ≡ false
unfolding step resume read_fails
live_aborted s p = rw p

run_timeout :
    (s : Session) (es : List Event)
    → s.phase ≡ reading
    → s.header_timer.pending ≡ true
    → run (header_expires ∷ header_handler ∷ read_failed operation_aborted ∷ answer_written ∷ es) s
      ≡ run es (answered_408 s)
run_timeout s es p h =
    run-step header_expires _ s (rw p)
    ∙ run-step header_handler _ (step header_expires s) (live_expired s p)
    ∙ ap (run _) (expired s h)
    ∙ run-step (read_failed operation_aborted) _ (cut_off s) (rw p)
    ∙ run-step answer_written es _ (live_aborted s p)
    ∙ ap (run es) (aborted s p)

-- A read that the header timer cuts off is answered 408 and is the last: the session ends, sends
-- nothing more and counts no further request, whatever comes behind.
pub header_timeout_answered :
    (s : Session) (es : List Event)
    → s.phase ≡ reading
    → s.header_timer.pending ≡ true
    → let t =
        run
          (header_expires ∷ header_handler ∷ read_failed operation_aborted ∷ answer_written ∷ es)
          s in
      (t.sent ≡ s.sent ++ timed_out header_timeout ∷ [])
      × (t.phase ≡ ended)
      × (t.requests_served ≡ s.requests_served)
header_timeout_answered s es p h =
    rw (run_timeout s es p h, run_over es (answered_408 s) refl) (refl, refl, refl)

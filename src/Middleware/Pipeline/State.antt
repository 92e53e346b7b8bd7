-- ===== src/Middleware/Pipeline/State.antt =====
-- The state that a run of the pipeline keeps, and what it takes from the chain when it starts
-- (include/foxhttp/middleware/middleware_chain.hpp).
use foxhttp.Prelude.{ℕ, Bool, true, false, Option, List, ◌==◌, if◌then◌else◌, Bytes, codes}
use foxhttp.Middleware.Code.{Exchange, answer, MiddlewareResult, Exception, Middleware}

-- `unset` is the null pointer; a timer that fired or was cancelled is `spent`.
pub data Timer : Type 0 where
  unset pending spent : Timer

abbrev pub cancel_timer : Timer → Timer
cancel_timer unset = unset
cancel_timer _ = spent

abbrev pub is_unset : Timer → Bool
is_unset unset = true
is_unset _ = false

abbrev pub is_pending : Timer → Bool
is_pending pending = true
is_pending _ = false

pub record Stats : Type 0 where
  pub execution_count : ℕ
  pub error_count : ℕ
  pub timeout_count : ℕ

-- What `execute` and `execute_async` take from the chain when a run starts.
pub record Config (C : Type 0) : Type 0 where
  pub pipeline : List (Middleware C)
  pub error_handler : Option (Exception → Exchange C → Exchange C)
  pub timeout_handler : Option (Exchange C → Exchange C)
  pub global_timeout : ℕ
  pub statistics : Bool
  pub has_io_context : Bool
  pub has_callback : Bool

pub record Run (C : Type 0) : Type 0 where
  pub current_index : ℕ
  pub timed_out : Bool
  pub cancelled : Bool
  pub finished : Bool
  pub paused : Bool
  pub execution_start : ℕ
  pub now : ℕ
  pub global_timer : Timer
  pub middleware_timer : Timer
  pub timer_owner : ℕ
  pub exchange : Exchange C
  pub stats : ℕ → Stats
  pub registered : Bool
  pub invoked : List ℕ
  pub completions : List (MiddlewareResult × Bytes)

abbrev pub answer_timeout : {C : Type 0} → Exchange C → Exchange C
answer_timeout = answer 504 (codes "text/plain") (codes "Request timeout")

abbrev pub bump : {A : Type 0} → (ℕ → A) → ℕ → (A → A) → ℕ → A
bump f i g j = if j == i then g (f j) else f j

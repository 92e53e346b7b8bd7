-- ===== src/Middleware/Code.antt =====
-- What a middleware is (src/middleware/middleware.cpp): its code, seen through the calls it makes
-- while it runs, and its attributes. `C` is the request context.
use foxhttp.Prelude.{ℕ, Bool, true, Option, none, some, List, [], ◌++◌, Bytes, codes, insert}

pub record Response : Type 0 where
  pub status : ℕ
  pub headers : List (Bytes × Bytes)
  pub body : Bytes

-- What a middleware reads and writes.
pub record Exchange (C : Type 0) : Type 0 where
  pub ctx : C
  pub res : Response

abbrev pub set_header : Bytes → Bytes → Response → Response
set_header name value res = record res { headers = insert name value res.headers }

-- `res.result(status); res.set(field::content_type, content_type); res.body() = body;`
abbrev pub answer : {C : Type 0} → ℕ → Bytes → Bytes → Exchange C → Exchange C
answer status content_type body x = record x {
  res = record (set_header (codes "Content-Type") content_type x.res) {
    status = status;
    body = body;
  };
}

pub data MiddlewareResult : Type 0 where
  continue stop error timeout : MiddlewareResult

-- `core::MiddlewareException` carries a code; other exceptions do not.
pub record Exception : Type 0 where
  pub what : Bytes
  pub code : Option ℕ

-- The body of an `operator()`: writes to context and response, time that passes, calls of `next`
-- and of the completion callback, a throw, and tests on what was read.
pub data Code (C : Type 0) : Type 0 where
  done : Code C
  throw : Exception → Code C
  write : (Exchange C → Exchange C) → Code C → Code C
  wait : ℕ → Code C → Code C
  next : Code C → Code C
  callback : MiddlewareResult → Bytes → Code C → Code C
  decide : (Exchange C → Bool) → Code C → Code C → Code C

-- `MiddlewarePriority`, with its numbers moved up by 1000.
pub data Priority : Type 0 where
  lowest low normal high highest : Priority

abbrev pub rank : Priority → ℕ
rank lowest = 0
rank low = 900
rank normal = 1000
rank high = 1100
rank highest = 2000

pub record Middleware (C : Type 0) : Type 0 where
  pub name : Bytes
  pub priority : Priority
  pub should_execute : Exchange C → Bool
  pub timeout : ℕ
  pub sync : Code C
  pub async : Code C

module _ {C : Type 0} where
  -- The default four-argument `operator()`: the three-argument one, then the callback, with an
  -- exception turned into an error result.
  unfoldable pub default_async : Code C → Code C
  default_async done = callback continue [] done
  default_async (throw e) = callback error e.what done
  default_async (write f k) = write f (default_async k)
  default_async (wait d k) = wait d (default_async k)
  default_async (next k) = next (default_async k)
  default_async (callback r m k) = callback r m (default_async k)
  default_async (decide t a b) = decide t (default_async a) (default_async b)

  -- A class that overrides the three-argument `operator()` only.
  abbrev pub sync_only : Bytes → Priority → Code C → Middleware C
  sync_only name priority code = record {
    name = name;
    priority = priority;
    should_execute = λ _. true;
    timeout = 0;
    sync = code;
    async = default_async code;
  }

  -- `ConditionalMiddleware`.
  unfoldable pub conditional : Middleware C → (Exchange C → Bool) → Middleware C
  conditional mw condition = record {
    name = codes "Conditional(" ++ (mw.name ++ codes ")");
    priority = mw.priority;
    should_execute = condition;
    timeout = mw.timeout;
    sync = decide condition mw.sync (next done);
    async = decide condition mw.async (next (callback continue [] done));
  }

  -- `FunctionalMiddleware`, with functions that may be absent.
  unfoldable pub functional :
      Bytes → Code C → Option (Code C) → Option (Exchange C → Bool) → Priority → ℕ → Middleware C
  functional name sync_func async_func condition priority limit = record {
    name = name;
    priority = priority;
    should_execute = elim condition [ none ↦ λ _. true | some p ↦ p ];
    timeout = limit;
    sync = sync_func;
    async = elim async_func [ none ↦ default_async sync_func | some f ↦ f ];
  }

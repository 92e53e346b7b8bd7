-- ===== src/Middleware/Chain.antt =====
-- The list of middlewares that `MiddlewareChain` keeps (src/middleware/middleware_chain.cpp).
pub mod Laws
use foxhttp.Prelude.{
  ℕ, zero, suc, ◌+◌, ◌-◌, ◌*◌, ◌/◌, ◌%◌, ◌^◌, ◌≤◌, ◌<◌, ◌≡◌, refl, sym, ap, ◌∙◌, subst, ◌≢◌, ◌↔◌,
  ◌⊎◌, inl, inr, Bool, true, false, ◌&&◌, ◌||◌, not, Option, none, some, List, [], ◌∷◌, ◌++◌, map,
  append-nil, append_assoc, arith, ltb, leb, ◌==◌, if◌then◌else◌, ltb→lt, lt→ltb, leb→le, le→leb,
  ==_iff, ==_refl, ne→==, tests, Bool-cases, Option-cases, Result, ok, err, Result-cases, length,
  get_elem?, take, drop, is_empty, keep, length-append, take-append-drop, length-drop,
  take-length-append, drop-length-append, drop-add, drop-past, All, All-append, Bytes, codes, same,
  find, has, starts_with, Lacks, same_iff, same_refl, find-append, find-eq-none, find-lt-length,
  find-Lacks, find_split, drop_at, lookup, insert, lookup-insert, is_empty_of_lookup, lookup-nil,
}
use foxhttp.Prelude.Sort.{sort_by}
use foxhttp.Middleware.Code.{Middleware, rank, Exchange, Exception}

pub record Chain (C : Type 0) : Type 0 where
  pub mws : List (Middleware C)
  pub auto_sort_by_priority : Bool
  pub statistics_enabled : Bool
  pub error_handler : Option (Exception → Exchange C → Exchange C)
  pub timeout_handler : Option (Exchange C → Exchange C)
  pub global_timeout : ℕ
  pub paused : Bool

module _ {C : Type 0} where
  abbrev pub new_chain : Chain C
  new_chain = record {
    mws = [];
    auto_sort_by_priority = true;
    statistics_enabled = true;
    error_handler = none;
    timeout_handler = none;
    global_timeout = 0;
    paused = false;
  }

  abbrev pub by_priority : Middleware C → Middleware C → Bool
  by_priority a b = ltb (rank a.priority) (rank b.priority)

  unfoldable pub sort_middlewares_by_priority : Chain C → Chain C
  sort_middlewares_by_priority c = record c { mws = sort_by by_priority c.mws }

  abbrev pub push_back : Chain C → Middleware C → Chain C
  push_back c mw = record c { mws = c.mws ++ mw ∷ [] }

  unfoldable pub use_one : Chain C → Middleware C → Chain C
  unfolding sort_middlewares_by_priority
  use_one c mw =
      if c.auto_sort_by_priority
      then sort_middlewares_by_priority (push_back c mw)
      else push_back c mw

  unfoldable pub use_all : Chain C → List (Middleware C) → Chain C
  unfolding sort_middlewares_by_priority
  use_all c mws =
      let all = record c { mws = c.mws ++ mws } in
      if c.auto_sort_by_priority then sort_middlewares_by_priority all else all

  unfoldable pub insert_at : Chain C → ℕ → Middleware C → Chain C
  insert_at c index mw =
      if leb (length c.mws) index
      then push_back c mw
      else record c { mws = take index c.mws ++ mw ∷ drop index c.mws }

  unfoldable pub insert_by_priority : Chain C → Middleware C → Chain C
  unfolding sort_middlewares_by_priority
  insert_by_priority c mw = sort_middlewares_by_priority (push_back c mw)

  -- `std::remove_if` and `erase`.
  unfoldable pub remove : Chain C → Bytes → Chain C
  remove c middleware_name = record c {
    mws = keep (λ mw. not (same mw.name middleware_name)) c.mws;
  }

  unfoldable pub clear : Chain C → Chain C
  clear c = record c { mws = [] }

  abbrev pub set_error_handler : Chain C → Option (Exception → Exchange C → Exchange C) → Chain C
  set_error_handler c handler = record c { error_handler = handler }

  abbrev pub set_timeout_handler : Chain C → Option (Exchange C → Exchange C) → Chain C
  set_timeout_handler c handler = record c { timeout_handler = handler }

  abbrev pub set_global_timeout : Chain C → ℕ → Chain C
  set_global_timeout c limit = record c { global_timeout = limit }

  abbrev pub enable_statistics : Chain C → Bool → Chain C
  enable_statistics c enable = record c { statistics_enabled = enable }

  abbrev pub pause : Chain C → Chain C
  pause c = record c { paused = true }

  abbrev pub resume : Chain C → Chain C
  resume c = record c { paused = false }

  unfoldable pub size : Chain C → ℕ
  size c = length c.mws

  unfoldable pub get_middleware_names : Chain C → List Bytes
  get_middleware_names c = map (λ mw. mw.name) c.mws

-- ===== src/Middleware/RateLimit.antt =====
-- `RateLimitMiddleware` of include/foxhttp/middleware/advanced/rate_limit_middleware.hpp. The clock
-- is an argument; a bucket that was never used starts at 0.
pub mod Laws
use foxhttp.Prelude.{
  ℕ, zero, suc, ◌+◌, ◌-◌, ◌*◌, ◌/◌, ◌%◌, ◌^◌, ◌≤◌, ◌<◌, ◌≡◌, refl, sym, ap, ◌∙◌, subst, ◌≢◌, ◌↔◌,
  ◌⊎◌, inl, inr, Bool, true, false, ◌&&◌, ◌||◌, not, Option, none, some, List, [], ◌∷◌, ◌++◌, map,
  append-nil, append_assoc, arith, ltb, leb, ◌==◌, if◌then◌else◌, ltb→lt, lt→ltb, leb→le, le→leb,
  ==_iff, ==_refl, ne→==, tests, Bool-cases, Option-cases, Result, ok, err, Result-cases, length,
  get_elem?, take, drop, is_empty, keep, length-append, take-append-drop, length-drop,
  take-length-append, drop-length-append, drop-add, drop-past, All, All-append, Bytes, codes, same,
  find, has, starts_with, Lacks, same_iff, same_refl, find-append, find-eq-none, find-lt-length,
  find-Lacks, find_split, drop_at, lookup, insert, lookup-insert, is_empty_of_lookup, lookup-nil,
  to_string,
}
use foxhttp.Middleware.Code.{Code, done, write, next, Exchange, answer, set_header, Response}

pub record Bucket : Type 0 where
  pub count : ℕ
  pub start : ℕ

pub record RateLimiter : Type 0 where
  pub max_requests : ℕ
  pub window : ℕ
  pub buckets : List (Bytes × Bucket)

abbrev pub new_limiter : ℕ → ℕ → RateLimiter
new_limiter max_requests window = record {
  max_requests = max_requests;
  window = window;
  buckets = [];
}

-- `buckets_[key]`, which makes an unused bucket where there is none.
abbrev pub bucket_of : Bytes → RateLimiter → Bucket
bucket_of key l = elim (lookup key l.buckets) [
  | none ↦ record { count = 0; start = 0 }
  | some b ↦ b
]

abbrev pub set_bucket : Bytes → Bucket → RateLimiter → RateLimiter
set_bucket key b l = record l { buckets = insert key b l.buckets }

-- The tests of `is_limited` on one bucket.
unfoldable pub hit : ℕ → ℕ → Bucket → ℕ → Bucket × Bool
hit max_requests window b now =
    if b.start == 0
    then (record { count = 1; start = now }, false)
    else if leb (b.start + window) now
    then (record { count = 1; start = now }, false)
    else if leb max_requests b.count
    then (b, true)
    else (record b { count = b.count + 1 }, false)

unfoldable pub is_limited : RateLimiter → Bytes → ℕ → RateLimiter × Bool
unfolding hit
is_limited l key now =
    let (b, limited) = hit l.max_requests l.window (bucket_of key l) now in
    (set_bucket key b l, limited)

-- The key of a request: that of the extractor, or the forwarded address and the path.
unfoldable pub make_key : {C : Type 0} → Option (C → Bytes) → (C → Bytes) → (C → Bytes) → C → Bytes
make_key (some extractor) forwarded_for path ctx = extractor ctx
make_key none forwarded_for path ctx =
    (if is_empty (forwarded_for ctx) then codes "unknown" else forwarded_for ctx)
    ++ (codes "|" ++ path ctx)

-- `{"error":"rate_limited"}`
abbrev pub limited_body : Bytes
limited_body =
    codes "{"
    ++ (34 ∷ codes "error" ++ (34 ∷ codes ":" ++ (34 ∷ codes "rate_limited" ++ (34 ∷ codes "}"))))

abbrev pub answer_limited : {C : Type 0} → ℕ → Exchange C → Exchange C
answer_limited window x =
    let y = answer 429 (codes "application/json") limited_body x in
    record y { res = set_header (codes "Retry-After") (to_string window) y.res }

-- The `operator()`, for the outcome of `is_limited`.
unfoldable pub rate_limit_code : {C : Type 0} → ℕ → Bool → Code C
rate_limit_code window true = write (answer_limited window) done
rate_limit_code window false = next done

-- ===== src/Middleware/RateLimit/Laws.antt =====
-- How many requests of a key the rate limiter lets through in one window.
use foxhttp.Prelude.{
  ℕ, suc, ◌+◌, ◌-◌, ◌≤◌, ◌<◌, ◌≡◌, refl, ◌≢◌, ◌⊎◌, inl, inr, true, false, List, [], ◌∷◌, arith, leb,
  ◌==◌, if◌then◌else◌, Bool-cases, length, All, Bytes, same, same_iff, same_refl, lookup-insert,
}
use foxhttp.Middleware.RateLimit.{Bucket, RateLimiter, bucket_of, set_bucket, hit, is_limited}

-- The number of requests with this key, at these times, that the limiter lets through.
abbrev pub admitted : RateLimiter → Bytes → List ℕ → ℕ
admitted l key [] = 0
admitted l key (now ∷ times) =
    let (after, limited) = is_limited l key now in
    (if limited then 0 else 1) + admitted after key times

bucket_of-set_bucket :
    (key other : Bytes) (b : Bucket) (l : RateLimiter)
    → bucket_of other (set_bucket key b l) ≡ (if same key other then b else bucket_of other l)
bucket_of-set_bucket key other b l = elim (Bool-cases (same key other)) [
  | inl e ↦ rw (lookup-insert key other b l.buckets, e, bucket_of)
  | inr e ↦ rw (lookup-insert key other b l.buckets, e, bucket_of)
]

different_same : (a b : Bytes) → a ≢ b → same a b ≡ false
different_same a b h = ground (arith, same_iff a b)

-- A request touches the bucket of its own key only: that of another key is as it was, and so is
-- the limit and the window.
pub is_limited-other_key :
    (l : RateLimiter) (key other : Bytes) (now : ℕ)
    → key ≢ other
    → (bucket_of other (is_limited l key now).0 ≡ bucket_of other l)
      × (((is_limited l key now).0.max_requests ≡ l.max_requests)
          × ((is_limited l key now).0.window ≡ l.window))
unfolding is_limited
is_limited-other_key l key other now different =
    let touched = (hit l.max_requests l.window (bucket_of key l) now).0 in
    (
      rw (bucket_of-set_bucket key other touched l, different_same key other different),
      (refl, refl),
    )

hit-inside :
    (max_requests window now : ℕ) (b : Bucket)
    → 0 < b.start
    → now < b.start + window
    → hit max_requests window b now
      ≡ (if leb max_requests b.count then (b, true) else (record b { count = b.count + 1 }, false))
unfolding hit
hit-inside max_requests window now b started early =
    let later : (b.start == 0) ≡ false = ground arith in
    let inside : leb (b.start + window) now ≡ false = ground arith in rw (later, inside)

bucket_of-set_same :
    (key : Bytes) (b : Bucket) (l : RateLimiter) → bucket_of key (set_bucket key b l) ≡ b
bucket_of-set_same key b l = rw (bucket_of-set_bucket key key b l, same_refl key)

hit-over :
    (max_requests window now : ℕ) (b : Bucket)
    → (b.start ≡ 0) ⊎ (b.start + window ≤ now)
    → hit max_requests window b now ≡ (record { count = 1; start = now }, false)
unfolding hit
hit-over max_requests window now b (inl never) =
    let new : (b.start == 0) ≡ true = ground arith in rw new
hit-over max_requests window now b (inr over) =
    let late : leb (b.start + window) now ≡ true = ground arith in
    elim (Bool-cases (b.start == 0)) [ inl new ↦ rw new | inr used ↦ rw (used, late) ]

-- What a limit of `most` leaves for `n` requests.
abbrev pub at_most : ℕ → ℕ → ℕ
at_most most n = if leb n most then n else most

admitted-bucket :
    (times : List ℕ) (l : RateLimiter) (key : Bytes) (b : Bucket)
    → bucket_of key l ≡ b
    → 0 < b.start
    → All (λ t. t < b.start + l.window) times
    → admitted l key times ≡ at_most (l.max_requests - b.count) (length times)
unfolding is_limited
admitted-bucket [] l key b e started early = ground arith
admitted-bucket (now ∷ times) l key b e started early =
    rw (e, hit-inside l.max_requests l.window now b started early.0)
      (elim (Bool-cases (leb l.max_requests b.count)) [
        | inl full ↦ rw full (
            ground (
              arith,
              admitted-bucket times (set_bucket key b l) key b (bucket_of-set_same key b l) started
                  early.1,
            ))
        | inr free ↦
            let more : Bucket = record b { count = b.count + 1 } in
            rw free (
              ground (
                arith,
                admitted-bucket times (set_bucket key more l) key more
                    (bucket_of-set_same key more l) started early.1,
              ))
      ])

-- While the window of a key is open, exactly as many of its next requests are let through as the
-- limit still leaves, the first ones of them.
pub admitted-open :
    (times : List ℕ) (l : RateLimiter) (key : Bytes)
    → 0 < (bucket_of key l).start
    → All (λ t. t < (bucket_of key l).start + l.window) times
    → admitted l key times ≡ at_most (l.max_requests - (bucket_of key l).count) (length times)
admitted-open times l key started early =
    admitted-bucket times l key (bucket_of key l) refl started early

-- A request of a key that was never seen, or whose window is over, opens a new window: it is let
-- through itself, whatever the limit is, and of those that follow inside the window as many as
-- the limit leaves beside it.
pub admitted-new_window :
    (now : ℕ) (times : List ℕ) (l : RateLimiter) (key : Bytes)
    → 0 < now
    → ((bucket_of key l).start ≡ 0) ⊎ ((bucket_of key l).start + l.window ≤ now)
    → All (λ t. t < now + l.window) times
    → admitted l key (now ∷ times) ≡ suc (at_most (l.max_requests - 1) (length times))
unfolding is_limited
admitted-new_window now times l key late over early =
    let first : Bucket = record { count = 1; start = now } in
    rw
      (
        hit-over l.max_requests l.window now (bucket_of key l) over,
        admitted-bucket times (set_bucket key first l) key first (bucket_of-set_same key first l)
            late early,
      )
      (omega arith)

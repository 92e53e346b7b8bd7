-- ===== src/Parser/Multipart/Loop.antt =====
-- The loop of `feed_data` ends.
use foxhttp.Prelude.{
  find_text, ℕ, zero, suc, ◌+◌, ◌*◌, ◌≤◌, ◌<◌, ◌≡◌, refl, sym, subst, inl, inr, Bool, true, false,
  some, [], ◌∷◌, arith, ◌==◌, if◌then◌else◌, Bool-cases, Option-cases, length, take, drop, is_empty,
  length-drop, Bytes, starts_with,
}
use foxhttp.Parser.Multipart.{
  ParseState, at_boundary, at_headers, in_content, complete, failed, MultipartConfig, StreamParser,
  skip_newline, process_boundary, find_header_end, process_headers, write_content_data,
  finalize_current_field, content_end, process_content, process, feed_loop, append_data, feed_fuel,
  feed_data,
}

starts_with-length : (s p : Bytes) → starts_with s p ≡ true → length p ≤ length s
starts_with-length s [] e = omega arith
starts_with-length [] (x ∷ p) e = cc
starts_with-length (y ∷ s) (x ∷ p) e = ground (arith, starts_with-length s p)

-- A text that is found lies inside.
pub find_text-bound :
    (text s : Bytes) (pos : ℕ) → find_text text s ≡ some pos → pos + length text ≤ length s
unfolding find_text
find_text-bound [] [] pos e = ground arith
find_text-bound (x ∷ text) [] pos e = absurd (ground arith)
find_text-bound text (c ∷ s) pos e = elim (Bool-cases (starts_with (c ∷ s) text)) [
  | inl here ↦ ground (arith, starts_with-length (c ∷ s) text here)
  | inr later ↦ elim (Option-cases (find_text text s)) [
    | inl q ↦ absurd (ground arith)
    | inr (i, q) ↦ ground (arith, find_text-bound text s i q)
  ]
]

find_header_end-bound :
    (s : Bytes) (stop : ℕ) → find_header_end s ≡ some stop → (2 ≤ stop) × (stop ≤ length s)
unfolding find_header_end
find_header_end-bound s stop e = elim (Option-cases (find_text (13 ∷ 10 ∷ 13 ∷ 10 ∷ []) s)) [
  | inr (i, q) ↦ ground (arith, find_text-bound (13 ∷ 10 ∷ 13 ∷ 10 ∷ []) s i q)
  | inl q ↦ elim (Option-cases (find_text (10 ∷ 10 ∷ []) s)) [
    | inl p ↦ absurd (ground arith)
    | inr (i, p) ↦ ground (arith, find_text-bound (10 ∷ 10 ∷ []) s i p)
  ]
]

-- What a round has left to do: the buffer, and the content before the next boundary.
abbrev rank : ParseState → ℕ
rank at_headers = 2
rank in_content = 1
rank _ = 0

abbrev measure : StreamParser → ℕ
measure s = 3 * length s.buffer + rank s.state

-- A smaller amount, for the same boundary.
abbrev IsLess : StreamParser → StreamParser → Type 0
IsLess after s = (measure after < measure s) × (after.full_boundary ≡ s.full_boundary)

length-skip_newline : (s : Bytes) → length (skip_newline s) ≤ length s
length-skip_newline s = elim (Bool-cases (starts_with s (13 ∷ 10 ∷ []))) [
  | inl e ↦ rw e (omega (arith, length-drop 2 s))
  | inr e ↦ elim (Bool-cases (starts_with s (10 ∷ []))) [
    | inl f ↦ rw (e, f) (omega (arith, length-drop 1 s))
    | inr f ↦ rw (e, f) (omega arith)
  ]
]

boundary-IsLess :
    (s after : StreamParser)
    → 0 < length s.full_boundary
    → s.state ≡ at_boundary
    → process_boundary s ≡ (true, after)
    → IsLess after s
unfolding process_boundary
boundary-IsLess s after long here e = elim (Option-cases (find_text s.full_boundary s.buffer)) [
  | inl q ↦ absurd (ground arith)
  | inr (pos, q) ↦
      let rest = drop (pos + length s.full_boundary) s.buffer in
      let inside = find_text-bound s.full_boundary s.buffer pos q in
      ground (
        arith,
        inside,
        length-drop (pos + length s.full_boundary) s.buffer,
        length-skip_newline rest,
      )
]

headers-IsLess :
    (s after : StreamParser)
    → s.state ≡ at_headers
    → process_headers s ≡ (true, after)
    → IsLess after s
unfolding process_headers
headers-IsLess s after here e = elim (Option-cases (find_header_end s.buffer)) [
  | inl q ↦ absurd (ground arith)
  | inr (stop, q) ↦ ground (arith, find_header_end-bound s.buffer stop q, length-drop stop s.buffer)
]

module _ (config : MultipartConfig) where
  write-buffer :
      (n : ℕ) (s : StreamParser)
      → ((write_content_data config n s).buffer ≡ s.buffer)
        × ((write_content_data config n s).full_boundary ≡ s.full_boundary)
  unfolding write_content_data
  write-buffer n s = elim (Option-cases s.current_field) [
    | inl q ↦ ground arith
    | inr (f, q) ↦ ground arith
  ]

  finalize-buffer :
      (s : StreamParser)
      → ((finalize_current_field config s).buffer ≡ s.buffer)
        × ((finalize_current_field config s).full_boundary ≡ s.full_boundary)
  finalize-buffer s = elim (Option-cases s.current_field) [
    | inl q ↦ ground arith
    | inr (f, q) ↦ ground arith
  ]

  content-IsLess :
      (s after : StreamParser)
      → s.state ≡ in_content
      → process_content config s ≡ (true, after)
      → IsLess after s
  unfolding process_content
  content-IsLess s after here e = elim (Option-cases (find_text s.full_boundary s.buffer)) [
    | inl q ↦ absurd (ground arith)
    | inr (pos, q) ↦
        let size = content_end config (take pos s.buffer) in
        let written = if size == 0 then s else write_content_data config size s in
        ground (
          arith,
          length-drop pos s.buffer,
          write-buffer size s,
          finalize-buffer (record written { buffer = drop pos s.buffer }),
        )
  ]

  process-IsLess :
      (s after : StreamParser)
      → 0 < length s.full_boundary
      → process config s ≡ (true, after)
      → IsLess after s
  unfolding process
  process-IsLess s after long e = by_state s.state refl
    where
      by_state : (state : ParseState) → s.state ≡ state → IsLess after s
      by_state at_boundary q = boundary-IsLess s after long q (ground arith)
      by_state at_headers q = headers-IsLess s after q (ground arith)
      by_state in_content q = content-IsLess s after q (ground arith)
      by_state complete q = absurd (ground arith)
      by_state failed q = absurd (ground arith)

  feed_loop-ends :
      (fuel : ℕ) (s : StreamParser)
      → 0 < length s.full_boundary
      → measure s < fuel
      → (after : StreamParser) × (feed_loop config fuel s ≡ some after)
  unfolding feed_loop
  feed_loop-ends zero s long enough = absurd (omega arith)
  feed_loop-ends (suc fuel) s long enough = elim (Bool-cases (is_empty s.buffer)) [
    | inl e ↦ (s, rw (e, feed_loop) refl)
    | inr e ↦
        let next = (process config s).1 in
        elim (Bool-cases (process config s).0) [
          | inr stops ↦ (next, rw (e, feed_loop, stops) refl)
          | inl goes ↦
              let less = process-IsLess s next long (pair_of (process config s) goes) in
              let (after, ended) =
                feed_loop-ends fuel next (subst (λ b. 0 < length b) (sym less.1) long)
                  (omega arith) in
              (after, rw (e, feed_loop, goes) ended)
        ]
  ]
    where
      pair_of : (p : Bool × StreamParser) → p.0 ≡ true → p ≡ (true, p.1)
      pair_of (true, s) e = refl
      pair_of (false, s) e = cc

  -- Feeding data ends for every parser with a boundary, whatever the data: the loop takes no more
  -- rounds than three for each byte in the buffer and three more.
  pub feed_data-ends :
      (text : Bytes) (s : StreamParser)
      → 0 < length s.full_boundary
      → (after : StreamParser) × (feed_data config text s ≡ some after)
  unfolding feed_data
  feed_data-ends text s long =
      feed_loop-ends (feed_fuel config (append_data config text s)) (append_data config text s) long
        (rank_small (append_data config text s))
    where
      rank_small : (s : StreamParser) → measure s < feed_fuel config s
      rank_small s = by_state s.state refl
        where
          by_state : (state : ParseState) → s.state ≡ state → measure s < feed_fuel config s
          by_state at_boundary q = rw q (omega arith)
          by_state at_headers q = rw q (omega arith)
          by_state in_content q = rw q (omega arith)
          by_state complete q = rw q (omega arith)
          by_state failed q = rw q (omega arith)

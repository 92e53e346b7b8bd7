-- ===== src/Parser/Multipart/Limits.antt =====
-- What the size limits of the stream parser come to.
use foxhttp.Prelude.{find_text, ℕ, ◌≡◌, inl, inr, some, [], ◌∷◌, ◌++◌, arith, Option-cases, take}
use foxhttp.Parser.Multipart.{
  at_boundary, MultipartConfig, MultipartField, StreamParser, write_content_data, content_end,
  process_content,
}

module _ (config : MultipartConfig) where
  write-keeps :
      (n : ℕ) (s : StreamParser)
      → ((write_content_data config n s).current_field ≡ s.current_field)
        × ((write_content_data config n s).result ≡ s.result)
  unfolding write_content_data
  write-keeps n s = elim (Option-cases s.current_field) [
    | inl q ↦ ground arith
    | inr (f, q) ↦ ground arith
  ]

  -- A field whose closing boundary is in the buffer is taken into the result, and the parser goes on
  -- with the next boundary, whatever the size of the content and whatever the limits: an error that
  -- the size check reports is lost.
  pub process_content-takes :
      (s : StreamParser) (f : MultipartField) (pos : ℕ)
      → s.current_field ≡ some f
      → find_text s.full_boundary s.buffer ≡ some pos
      → ((process_content config s).1.result ≡ s.result ++ f ∷ [])
        × ((process_content config s).1.state ≡ at_boundary)
  unfolding process_content
  process_content-takes s f pos q found =
      ground (arith, write-keeps (content_end config (take pos s.buffer)) s)

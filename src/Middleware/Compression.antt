-- ===== src/Middleware/Compression.antt =====
-- `CompressionMiddleware` (src/middleware/advanced/compression_middleware.cpp). The compressors of
-- Boost and Brotli, the lookup of a request's header and the reading of a quality value by
-- `std::stof` are parameters.
pub mod Laws
use foxhttp.Prelude.{
  ℕ, zero, suc, ◌+◌, ◌-◌, ◌*◌, ◌/◌, ◌%◌, ◌^◌, ◌≤◌, ◌<◌, ◌≡◌, refl, sym, ap, ◌∙◌, subst, ◌≢◌, ◌↔◌,
  ◌⊎◌, inl, inr, Bool, true, false, ◌&&◌, ◌||◌, not, Option, none, some, List, [], ◌∷◌, ◌++◌, map,
  append-nil, append_assoc, arith, ltb, leb, ◌==◌, if◌then◌else◌, ltb→lt, lt→ltb, leb→le, le→leb,
  ==_iff, ==_refl, ne→==, tests, Bool-cases, Option-cases, Result, ok, err, Result-cases, length,
  get_elem?, take, drop, is_empty, keep, length-append, take-append-drop, length-drop,
  take-length-append, drop-length-append, drop-add, drop-past, All, All-append, Bytes, codes, same,
  find, has, starts_with, Lacks, same_iff, same_refl, find-append, find-eq-none, find-lt-length,
  find-Lacks, find_split, drop_at, lookup, insert, lookup-insert, is_empty_of_lookup, lookup-nil,
  getlines, begin_line, has_suffix, is_space, is_alnum, hex_value, hex_digit, stream_hex, stoi_hex,
  hex_value-hex_digit, getlines-append, getlines-one, between, join, IsLine, getlines-join,
  drop_behind, is_empty-append, ne_of_same, find_text, to_string,
}
use foxhttp.Middleware.Code.{
  Response, Exchange, set_header, continue, Code, done, write, next, callback, decide, Middleware,
  high,
}

pub data CompressionType : Type 0 where
  gzip deflate br plain : CompressionType

-- `none` is a compression that throws or reports a failure; Brotli may be left out of the build. A
-- quality times 1000 is moved up by 1, and 0 stands for the negative ones.
pub record Codecs : Type 0 where
  pub gzip_compressor : Bytes → Bytes
  pub zlib_compressor : Bytes → Option Bytes
  pub brotli_encoder : Option (Bytes → Option Bytes)
  pub quality : Bytes → Option ℕ

pub record Compression : Type 0 where
  pub threshold : ℕ
  pub supported_types : List CompressionType

abbrev pub one_if : Bool → CompressionType → List CompressionType
one_if enabled type = if enabled then type ∷ [] else []

abbrev pub new_compression : ℕ → Bool → Bool → Bool → Compression
new_compression threshold enable_gzip enable_deflate enable_br = record {
  threshold = threshold;
  supported_types =
      one_if enable_gzip gzip ++ (one_if enable_deflate deflate ++ one_if enable_br br);
}

abbrev pub get_encoding_name : CompressionType → Bytes
get_encoding_name gzip = codes "gzip"
get_encoding_name deflate = codes "deflate"
get_encoding_name br = codes "br"
get_encoding_name plain = []

abbrev pub found : Option ℕ → Bool
found none = false
found (some i) = true

abbrev pub has_header : Bytes → Response → Bool
has_header name res = elim (lookup name res.headers) [ none ↦ false | some v ↦ true ]

unfoldable pub accepts_any : Bytes → List CompressionType → Bool
unfolding find_text
accepts_any accept_encoding [] = false
accepts_any accept_encoding (t ∷ ts) =
    if found (find_text (get_encoding_name t) accept_encoding)
    then true
    else accepts_any accept_encoding ts

unfoldable pub should_compress : Compression → Bytes → Response → Bool
unfolding accepts_any
should_compress c accept_encoding res =
    not (has_header (codes "Content-Encoding") res)
    && (not (ltb (length res.body) c.threshold)
        && (not (is_empty accept_encoding) && accepts_any accept_encoding c.supported_types))

abbrev pub before_semicolon : Bytes → Bytes
before_semicolon s = elim (find b';' s) [ none ↦ s | some stop ↦ take stop s ]

module _ (codecs : Codecs) where
  -- The value up to the next ';', behind the first "q=" from the name on; 1 where there is none or
  -- it is no number.
  unfoldable pub priority_of : Bytes → ℕ → ℕ
  unfolding find_text
  priority_of accept_encoding pos = elim (find_text (codes "q=") (drop pos accept_encoding)) [
    | none ↦ 2
    | some q_pos ↦
        let rest = drop (pos + q_pos + 2) accept_encoding in
        elim (codecs.quality (before_semicolon rest)) [ none ↦ 2 | some q ↦ q ]
  ]

  -- The loop over the supported types; the best priority so far is moved up by 1 as well.
  unfoldable pub best_from : Bytes → List CompressionType → CompressionType → ℕ → CompressionType
  unfolding find_text priority_of
  best_from accept_encoding [] best priority = best
  best_from accept_encoding (t ∷ ts) best priority =
      elim (find_text (get_encoding_name t) accept_encoding) [
        | none ↦ best_from accept_encoding ts best priority
        | some pos ↦ elim (ltb priority (priority_of accept_encoding pos)) [
          | true ↦ best_from accept_encoding ts t (priority_of accept_encoding pos)
          | false ↦ best_from accept_encoding ts best priority
        ]
      ]

  abbrev pub compress_gzip : Bytes → Bytes
  compress_gzip = codecs.gzip_compressor

  abbrev pub compress_deflate : Bytes → Bytes
  compress_deflate input = elim (codecs.zlib_compressor input) [ none ↦ input | some out ↦ out ]

  abbrev pub compress_brotli : Bytes → Bytes
  compress_brotli input = elim codecs.brotli_encoder [
    | none ↦ compress_gzip input
    | some encode ↦ elim (encode input) [ none ↦ compress_gzip input | some out ↦ out ]
  ]

  abbrev pub compressed : CompressionType → Bytes → Bytes
  compressed gzip body = compress_gzip body
  compressed deflate body = compress_deflate body
  compressed br body = compress_brotli body
  compressed plain body = body

  abbrev pub encode_as : CompressionType → Response → Response
  encode_as plain res = res
  encode_as t res =
      let body = compressed t res.body in
      set_header (codes "Content-Length") (to_string (length body))
        (record (set_header (codes "Content-Encoding") (get_encoding_name t) res) { body = body })

  unfoldable pub compress_response : Compression → Bytes → Response → Response
  unfolding best_from
  compress_response c accept_encoding res =
      encode_as (best_from accept_encoding c.supported_types plain 0) res

  module _ {C : Type 0} (header : Bytes → C → Bytes) where
    abbrev pub accept_encoding_of : Exchange C → Bytes
    accept_encoding_of x = header (codes "Accept-Encoding") x.ctx

    unfoldable pub compression_middleware : Compression → Middleware C
    unfolding should_compress compress_response
    compression_middleware c =
        let test : Exchange C → Bool = λ x. should_compress c (accept_encoding_of x) x.res in
        let compress : Exchange C → Exchange C =
          λ x. record x { res = compress_response c (accept_encoding_of x) x.res } in
        record {
          name = codes "CompressionMiddleware";
          priority = high;
          should_execute = λ _. true;
          timeout = 0;
          sync = next (decide test (write compress done) done);
          async = next (
              decide test (write compress (callback continue [] done)) (callback continue [] done));
        }

-- ===== src/Tests/CompressionTests.antt =====
-- Compression with toy codecs, in a build without Brotli.
use foxhttp.Prelude.{
  ℕ, ◌≡◌, refl, ◌⊎◌, true, Option, none, some, [], ◌∷◌, arith, drop, Bytes, codes, lookup, insert,
  find_text,
}
use foxhttp.Middleware.Code.{Response}
use foxhttp.Middleware.Compression.{
  CompressionType, deflate, Codecs, Compression, new_compression, get_encoding_name, found,
  compress_response,
}
use foxhttp.Middleware.Compression.Laws.{Undoes, Among, IsEncoded, compress_response-IsEncoded}

abbrev toy : Codecs
toy = record {
  gzip_compressor = λ b. 31 ∷ b;
  zlib_compressor = λ b. some (120 ∷ b);
  brotli_encoder = none;
  quality = λ q. none;
}

abbrev decode : CompressionType → Bytes → Option Bytes
decode t s = some (drop 1 s)

some_tail : (x y : ℕ) (b c : Bytes) → some (x ∷ b) ≡ some c → decode deflate c ≡ some b
some_tail x y b [] e = cc
some_tail x y b (z ∷ c) e = ground arith

toy-Undoes : Undoes toy decode
toy-Undoes = record {
  gzip_undone = λ b. refl;
  deflate_undone = λ b c e. some_tail 120 0 b c e;
  br_undone = λ f b c e q. absurd (cc);
}

abbrev page : Response
page = record { status = 200; headers = []; body = codes "hello" }

abbrev any_type : Compression
any_type = new_compression 4 true true true

-- Marked "br", but compressed by gzip.
mislabelled :
    let marked = compress_response toy any_type (codes "br") page in
    (lookup (codes "Content-Encoding") marked.headers ≡ some (codes "br"))
    × (marked.body ≡ 31 ∷ codes "hello")
unfolding compress_response lookup insert
mislabelled = (refl, refl)

compress_response-IsEncoded_example :
    (compress_response toy any_type (codes "br") page ≡ page)
    ⊎ ((t : CompressionType) × Among t any_type.supported_types
        × (found (find_text (get_encoding_name t) (codes "br")) ≡ true)
        × IsEncoded toy decode t page (compress_response toy any_type (codes "br") page))
compress_response-IsEncoded_example =
    compress_response-IsEncoded toy decode any_type (codes "br") page toy-Undoes

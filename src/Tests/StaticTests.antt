-- ===== src/Tests/StaticTests.antt =====
-- One file below a document root.
use foxhttp.Prelude.{refl, some, [], ◌∷◌, ◌++◌, Bytes, codes}
use foxhttp.Middleware.Code.{Response}
use foxhttp.Middleware.Static.{
  Files, Settings, regular, respond, try_serve, get, serve_mapped, serve_file, is_subpath,
}
use foxhttp.Middleware.Static.Safety.{IsFileAnswer, IsRequest, try_serve-IsFileAnswer}

abbrev disk : Files
disk = record {
  weakly_canonical = λ p. some p;
  append = λ p name. p ++ name ∷ [];
  status = λ p. some regular;
  file_size = λ p. some 2;
  contents = λ p. some (codes "hi");
  extension = λ p. codes "txt";
}

abbrev plain_mime : Bytes → Bytes
plain_mime extension = codes "text/plain"

abbrev settings : Settings
settings = record {
  prefix = codes "/static";
  doc_root = codes "www" ∷ [];
  index_file = codes "index.html";
  max_file_size = 10;
}

abbrev fresh_response : Response
fresh_response = record { status = 0; headers = []; body = [] }

try_serve-IsFileAnswer_example :
    IsFileAnswer disk plain_mime settings
      (respond 200 (codes "text/plain") (codes "hi") fresh_response)
    × IsRequest disk plain_mime settings get (codes "/static/a")
unfolding try_serve serve_mapped is_subpath serve_file
try_serve-IsFileAnswer_example =
    try_serve-IsFileAnswer disk plain_mime settings get (codes "/static/a") fresh_response
      (respond 200 (codes "text/plain") (codes "hi") fresh_response) refl

-- ===== src/Tests/MultipartTests.antt =====
-- A stream of one small field.
use foxhttp.Prelude.{◌≡◌, none, some, [], arith, codes}
use foxhttp.Parser.Multipart.{
  MultipartConfig, MultipartField, StreamParser, feed_data, in_content, at_boundary,
}
use foxhttp.Parser.Multipart.Loop.{feed_data-ends}

abbrev strict : MultipartConfig
strict = record { max_field_size = 1; max_file_size = 1 }

abbrev idle : StreamParser
idle = record {
  full_boundary = codes "--b";
  state = at_boundary;
  bytes_processed = 0;
  current_field_size = 0;
  current_field_name = [];
  buffer = [];
  current_field = none;
  result = [];
  errors = [];
}

feed_data-ends_example :
    (after : StreamParser) × (feed_data strict (codes "--b--") idle ≡ some after)
feed_data-ends_example = feed_data-ends strict (codes "--b--") idle (omega arith)

abbrev field : MultipartField
field = record { name = codes "a"; filename = []; headers = [] }

-- Five bytes of content where one is allowed.
abbrev oversized : StreamParser
oversized = record idle {
  state = in_content;
  buffer = codes "12345--b--";
  current_field = some field;
}

-- ===== src/Middleware/Static.antt =====
-- `StaticMiddleware` of src/middleware/basic/static_middleware.cpp. The file system of the host is a
-- parameter. `keep_alive` and `prepare_payload` only write headers of the connection and the length.
pub mod Safety
use foxhttp.Prelude.{
  ℕ, zero, suc, ◌+◌, ◌-◌, ◌*◌, ◌/◌, ◌%◌, ◌^◌, ◌≤◌, ◌<◌, ◌≡◌, refl, sym, ap, ◌∙◌, subst, ◌≢◌, ◌↔◌,
  ◌⊎◌, inl, inr, Bool, true, false, ◌&&◌, ◌||◌, not, Option, none, some, List, [], ◌∷◌, ◌++◌, map,
  append-nil, append_assoc, arith, ltb, leb, ◌==◌, if◌then◌else◌, ltb→lt, lt→ltb, leb→le, le→leb,
  ==_iff, ==_refl, ne→==, tests, Bool-cases, Option-cases, Result, ok, err, Result-cases, length,
  get_elem?, take, drop, is_empty, keep, length-append, take-append-drop, length-drop,
  take-length-append, drop-length-append, drop-add, drop-past, All, All-append, Bytes, codes, same,
  find, has, starts_with, Lacks, same_iff, same_refl, find-append, find-eq-none, find-lt-length,
  find-Lacks, find_split, drop_at, lookup, insert, lookup-insert, is_empty_of_lookup, lookup-nil,
  getlines, begin_line, has_suffix, is_space, is_alnum, hex_value, hex_digit, stream_hex, stoi_hex,
  hex_value-hex_digit, getlines-append, getlines-one, between, join, IsLine, getlines-join,
  drop_behind, is_empty-append, ne_of_same, to_string,
}
use foxhttp.Middleware.Code.{
  Response, Exchange, Code, done, write, next, callback, decide, continue, stop, set_header,
}

-- Components of a path.
abbrev pub FilePath : Type 0
FilePath = List Bytes

pub data Kind : Type 0 where
  regular directory other : Kind

-- What the host answers; `none` is an error code.
pub record Files : Type 0 where
  pub weakly_canonical : FilePath → Option FilePath
  pub append : FilePath → Bytes → FilePath
  pub status : FilePath → Option Kind
  pub file_size : FilePath → Option ℕ
  pub contents : FilePath → Option Bytes
  pub extension : FilePath → Bytes

-- `http::verb::get` and `http::verb::head`.
abbrev pub get : ℕ
get = 2

abbrev pub head : ℕ
head = 3

pub record Settings : Type 0 where
  pub prefix : Bytes
  pub doc_root : FilePath
  pub index_file : Bytes
  pub max_file_size : ℕ

-- The loop that pops slashes from the end of what stands behind the first character.
abbrev pub pop_slashes : Bytes → Bytes
pop_slashes [] = []
pop_slashes (c ∷ s) =
    let rest = pop_slashes s in if is_empty rest && (c == b'/') then [] else c ∷ rest

unfoldable pub normalize_prefix : Bytes → Bytes
normalize_prefix [] = codes "/"
normalize_prefix (c ∷ s) = if c == b'/' then c ∷ pop_slashes s else b'/' ∷ pop_slashes (c ∷ s)

abbrev pub begins_with : FilePath → FilePath → Bool
begins_with [] c = true
begins_with (x ∷ r) [] = false
begins_with (x ∷ r) (y ∷ c) = same x y && begins_with r c

-- The path of the request behind the prefix, with one slash in front and none at the end.
abbrev pub with_slash : Bytes → Bytes
with_slash [] = b'/' ∷ []
with_slash (c ∷ s) = if c == b'/' then c ∷ s else b'/' ∷ c ∷ s

abbrev pub pop_slash : Bytes → Bytes
pop_slash [] = []
pop_slash (c ∷ []) = if c == b'/' then [] else c ∷ []
pop_slash (c ∷ d ∷ s) = c ∷ pop_slash (d ∷ s)

abbrev pub relative : Bytes → Bytes
relative [] = b'/' ∷ []
relative (c ∷ s) = elim (with_slash (c ∷ s)) [ [] ↦ [] | (d ∷ t) ↦ d ∷ pop_slash t ]

pub data ServeResult : Type 0 where
  not_applicable served stop_pipeline : ServeResult

abbrev pub respond : ℕ → Bytes → Bytes → Response → Response
respond status content_type body res = record (set_header (codes "Content-Type") content_type res) {
  status = status;
  body = body;
}

abbrev pub refuse : ℕ → Bytes → Response → ServeResult × Response
refuse status text res =
    (stop_pipeline, respond status (codes "text/plain; charset=utf-8") text res)

module _ (files : Files) (mime_for_path : Bytes → Bytes) (settings : Settings) where
  unfoldable pub is_subpath : FilePath → FilePath → Bool
  is_subpath root candidate = elim (files.weakly_canonical root) [
    | none ↦ false
    | some r ↦ elim (files.weakly_canonical candidate) [ none ↦ false | some c ↦ begins_with r c ]
  ]

  -- A regular file, from `file_size` on.
  unfoldable pub serve_file : Bool → FilePath → Response → ServeResult × Response
  serve_file is_head file res = elim (files.file_size file) [
    | none ↦ refuse 500 (codes "Internal Server Error") res
    | some size ↦
        let mime = mime_for_path (files.extension file) in
        if ltb settings.max_file_size size
        then refuse 413 (codes "Payload Too Large") res
        else if is_head
        then (
          served,
          set_header (codes "Content-Length") (to_string size) (respond 200 mime [] res),
        )
        else elim (files.contents file) [
          | none ↦ refuse 500 (codes "Failed to read file") res
          | some text ↦ (served, respond 200 mime text res)
        ]
  ]

  -- The index file of a directory.
  unfoldable pub serve_index : Bool → FilePath → Response → ServeResult × Response
  unfolding is_subpath serve_file
  serve_index is_head folder res =
      elim (files.weakly_canonical (files.append folder settings.index_file)) [
        | none ↦ refuse 403 (codes "Forbidden") res
        | some file ↦ elim (is_subpath settings.doc_root file) [
          | false ↦ refuse 403 (codes "Forbidden") res
          | true ↦ elim (files.status file) [
            | some regular ↦ serve_file is_head file res
            | _ ↦ refuse 404 (codes "Not Found") res
          ]
        ]
      ]

  unfoldable pub serve_mapped : Bool → FilePath → Response → ServeResult × Response
  unfolding is_subpath serve_file serve_index
  serve_mapped is_head mapped res = elim (files.weakly_canonical mapped) [
    | none ↦ refuse 403 (codes "Forbidden") res
    | some file ↦ elim (is_subpath settings.doc_root file) [
      | false ↦ refuse 403 (codes "Forbidden") res
      | true ↦ elim (files.status file) [
        | none ↦ refuse 404 (codes "Not Found") res
        | some regular ↦ serve_file is_head file res
        | some directory ↦ serve_index is_head file res
        | some other ↦ refuse 404 (codes "Not Found") res
      ]
    ]
  ]

  -- `mapped`: the document root, and below it what the request names.
  abbrev pub mapped_path : Bytes → FilePath
  mapped_path rel =
      if same rel (codes "/")
      then settings.doc_root
      else files.append settings.doc_root (drop 1 rel)

  abbrev pub applies : ℕ → Bytes → Bool
  applies verb path = ((verb == get) || (verb == head)) && starts_with path settings.prefix

  unfoldable pub try_serve : ℕ → Bytes → Response → ServeResult × Response
  unfolding serve_mapped
  try_serve verb path res =
      if applies verb path
      then serve_mapped (verb == head) (mapped_path (relative (drop (length settings.prefix) path)))
          res
      else (not_applicable, res)

-- The two operators, for the outcome of `try_serve`.
module _ {C : Type 0} (applies_to : Exchange C → Bool) (serve : Exchange C → Exchange C) where
  abbrev pub static_sync : Code C
  static_sync = decide applies_to (write serve done) (next done)

  abbrev pub static_async : Code C
  static_async =
      decide applies_to (write serve (callback stop [] done)) (next (callback continue [] done))

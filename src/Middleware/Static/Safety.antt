-- ===== src/Middleware/Static/Safety.antt =====
-- What the static middleware can be made to serve.
use foxhttp.Prelude.{
  ℕ, ◌≤◌, ◌≡◌, refl, ◌≢◌, ◌⊎◌, inl, inr, Bool, true, Option, none, some, [], ◌∷◌, ◌++◌, arith, ltb,
  ==_refl, ne→==, Bool-cases, Option-cases, drop-length-append, Bytes, starts_with, same_iff,
  ==_iff,
}
use foxhttp.Middleware.Code.{Response}
use foxhttp.Middleware.Static.{
  FilePath, Kind, regular, directory, other, Files, Settings, begins_with, served, refuse,
  is_subpath, serve_file, serve_index, serve_mapped, applies, get, head, try_serve, relative,
}

begins_with-rest : (r c : FilePath) → begins_with r c ≡ true → (rest : FilePath) × (c ≡ r ++ rest)
begins_with-rest [] c h = (c, refl)
begins_with-rest (x ∷ r) [] h = absurd (cc)
begins_with-rest (x ∷ r) (y ∷ c) h =
    let (rest, q) = begins_with-rest r c (ground arith) in (rest, ground (arith, same_iff x y))

starts_with-rest : (p s : Bytes) → starts_with s p ≡ true → (rest : Bytes) × (s ≡ p ++ rest)
starts_with-rest [] s h = (s, refl)
starts_with-rest (x ∷ p) [] h = absurd (cc)
starts_with-rest (x ∷ p) (y ∷ s) h =
    let (rest, q) = starts_with-rest p s (ground arith) in (rest, ground (arith, ==_iff y x))

module _ (files : Files) (mime_for_path : Bytes → Bytes) (settings : Settings) where
  -- A file whose canonical path lies below that of the document root.
  pub record IsBelow (file : FilePath) : Type 0 where
    pub root : FilePath
    pub place : FilePath
    pub canonical_root : files.weakly_canonical settings.doc_root ≡ some root
    pub canonical_file : files.weakly_canonical file ≡ some place
    pub rest : FilePath
    pub begins : place ≡ root ++ rest

  -- An answer with a regular file below the document root that is not too large.
  pub record IsFileAnswer (after : Response) : Type 0 where
    pub file : FilePath
    pub below : IsBelow file
    pub is_regular : files.status file ≡ some regular
    pub size : ℕ
    pub size_of : files.file_size file ≡ some size
    pub small : size ≤ settings.max_file_size
    pub body : (after.body ≡ []) ⊎ (files.contents file ≡ some after.body)

  -- A request that asks for something below the prefix by GET or HEAD.
  pub record IsRequest (verb : ℕ) (path : Bytes) : Type 0 where
    pub method : (verb ≡ get) ⊎ (verb ≡ head)
    pub tail : Bytes
    pub prefixed : path ≡ settings.prefix ++ tail

  applies-IsRequest :
      (verb : ℕ) (path : Bytes)
      → applies files mime_for_path settings verb path ≡ true
      → IsRequest verb path
  applies-IsRequest verb path e =
      let (tail, q) = starts_with-rest settings.prefix path (ground arith) in
      record {
        method = ground (arith, ==_iff verb get, ==_iff verb head);
        tail = tail;
        prefixed = q;
      }

  not_served :
      (text : Bytes) (status : ℕ) (res after : Response) → refuse status text res ≢ (served, after)
  not_served text status res after e = cc

  is_subpath-IsBelow :
      (file : FilePath)
      → is_subpath files mime_for_path settings settings.doc_root file ≡ true
      → IsBelow file
  unfolding is_subpath
  is_subpath-IsBelow file e = elim (Option-cases (files.weakly_canonical settings.doc_root)) [
    | inl q ↦ absurd (ground arith)
    | inr (r, q) ↦ elim (Option-cases (files.weakly_canonical file)) [
      | inl p ↦ absurd (ground arith)
      | inr (c, p) ↦ record {
        root = r;
        place = c;
        canonical_root = q;
        canonical_file = p;
        rest = (begins_with-rest r c (ground arith)).0;
        begins = (begins_with-rest r c (ground arith)).1;
      }
    ]
  ]

  serve_file-IsFileAnswer :
      (is_head : Bool) (file : FilePath) (res after : Response)
      → IsBelow file
      → files.status file ≡ some regular
      → serve_file files mime_for_path settings is_head file res ≡ (served, after)
      → IsFileAnswer after
  unfolding serve_file
  serve_file-IsFileAnswer is_head file res after below is_regular e =
      elim (Option-cases (files.file_size file)) [
        | inl q ↦ absurd (ground arith)
        | inr (n, q) ↦ elim (Bool-cases (ltb settings.max_file_size n)) [
          | inl large ↦ absurd (ground arith)
          | inr small ↦
              let fits : n ≤ settings.max_file_size = ground arith in
              elim (Bool-cases is_head) [
                | inl h ↦ record {
                  file = file;
                  below = below;
                  is_regular = is_regular;
                  size = n;
                  size_of = q;
                  small = fits;
                  body = inl (ground arith);
                }
                | inr g ↦ elim (Option-cases (files.contents file)) [
                  | inl p ↦ absurd (ground arith)
                  | inr (text, p) ↦ record {
                    file = file;
                    below = below;
                    is_regular = is_regular;
                    size = n;
                    size_of = q;
                    small = fits;
                    body = inr (ground arith);
                  }
                ]
              ]
        ]
      ]

  Kind-cases :
      (o : Option Kind)
      → ((o ≡ none) ⊎ (o ≡ some other)) ⊎ ((o ≡ some regular) ⊎ (o ≡ some directory))
  Kind-cases none = inl (inl refl)
  Kind-cases (some regular) = inr (inl refl)
  Kind-cases (some directory) = inr (inr refl)
  Kind-cases (some other) = inl (inr refl)

  serve_index-IsFileAnswer :
      (is_head : Bool) (folder : FilePath) (res after : Response)
      → serve_index files mime_for_path settings is_head folder res ≡ (served, after)
      → IsFileAnswer after
  unfolding serve_index
  serve_index-IsFileAnswer is_head folder res after e =
      elim (Option-cases (files.weakly_canonical (files.append folder settings.index_file))) [
        | inl q ↦ absurd (ground arith)
        | inr (file, q) ↦
            elim (Bool-cases (is_subpath files mime_for_path settings settings.doc_root file)) [
              | inr outside ↦ absurd (ground arith)
              | inl inside ↦ elim (Kind-cases (files.status file)) [
                | inl (inl k) ↦ absurd (ground arith)
                | inl (inr k) ↦ absurd (ground arith)
                | inr (inr k) ↦ absurd (ground arith)
                | inr (inl k) ↦
                    serve_file-IsFileAnswer is_head file res after (is_subpath-IsBelow file inside)
                      k (ground arith)
              ]
            ]
      ]

  serve_mapped-IsFileAnswer :
      (is_head : Bool) (mapped : FilePath) (res after : Response)
      → serve_mapped files mime_for_path settings is_head mapped res ≡ (served, after)
      → IsFileAnswer after
  unfolding serve_mapped
  serve_mapped-IsFileAnswer is_head mapped res after e =
      elim (Option-cases (files.weakly_canonical mapped)) [
        | inl q ↦ absurd (ground arith)
        | inr (file, q) ↦
            elim (Bool-cases (is_subpath files mime_for_path settings settings.doc_root file)) [
              | inr outside ↦ absurd (ground arith)
              | inl inside ↦ elim (Kind-cases (files.status file)) [
                | inl (inl k) ↦ absurd (ground arith)
                | inl (inr k) ↦ absurd (ground arith)
                | inr (inr k) ↦ serve_index-IsFileAnswer is_head file res after (ground arith)
                | inr (inl k) ↦
                    serve_file-IsFileAnswer is_head file res after (is_subpath-IsBelow file inside)
                      k (ground arith)
              ]
            ]
      ]

  -- Whatever a request asks for, an answer that is served comes from a regular file whose canonical
  -- path is that of the document root with names behind it, and which is not above the size limit: its body is
  -- that file, or empty. The request was GET or HEAD for a path that starts with the prefix.
  pub try_serve-IsFileAnswer :
      (verb : ℕ) (path : Bytes) (res after : Response)
      → try_serve files mime_for_path settings verb path res ≡ (served, after)
      → IsFileAnswer after × IsRequest verb path
  unfolding try_serve
  try_serve-IsFileAnswer verb path res after e =
      elim (Bool-cases (applies files mime_for_path settings verb path)) [
        | inr missed ↦ absurd (ground arith)
        | inl get_it ↦ (
          serve_mapped-IsFileAnswer _ _ res after (rw get_it at e),
          applies-IsRequest verb path get_it,
        )
      ]

  -- The prefix is not matched by segments: a path that goes on behind it without a slash is served
  -- as if the slash stood there.
  pub try_serve-beside_prefix :
      (verb c : ℕ) (s : Bytes) (res : Response)
      → c ≢ b'/'
      → try_serve files mime_for_path settings verb (settings.prefix ++ c ∷ s) res
        ≡ try_serve files mime_for_path settings verb (settings.prefix ++ b'/' ∷ c ∷ s) res
  unfolding try_serve
  try_serve-beside_prefix verb c s res h = rw (
    starts_with-append settings.prefix (c ∷ s),
    starts_with-append settings.prefix (b'/' ∷ c ∷ s),
    drop-length-append settings.prefix (c ∷ s),
    drop-length-append settings.prefix (b'/' ∷ c ∷ s),
    relative-beside c s h,
  )
    where
      relative-beside : (c : ℕ) (s : Bytes) → c ≢ b'/' → relative (c ∷ s) ≡ relative (b'/' ∷ c ∷ s)
      relative-beside c s h = rw (relative, ne→== c b'/' h) refl

      starts_with-append : (p s : Bytes) → starts_with (p ++ s) p ≡ true
      starts_with-append [] [] = refl
      starts_with-append [] (x ∷ s) = refl
      starts_with-append (x ∷ p) s = rw (==_refl x) (starts_with-append p s)

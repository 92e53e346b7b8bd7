-- ===== src/Parser/Field/Disposition.antt =====
-- The header line Content-Disposition of a field.
use foxhttp.Prelude.{
  ℕ, suc, ◌≡◌, refl, sym, ap, ◌∙◌, ◌≢◌, Option, none, some, [], ◌∷◌, ◌++◌, append_assoc, arith,
  length, take, drop, All-append, Bytes, codes, find, Lacks, lookup, insert, getlines-one,
  is_empty-append, find_text,
}
use foxhttp.Parser.Multipart.{to_lower, quoted_value, drop_cr}
use foxhttp.Parser.Field.{
  MultipartField, new_field, trim, trim_back, parse_header_line, parse_header_lines, parse_headers,
  set_disposition, read_headers,
}
use foxhttp.Parser.Field.Search.{find_text-absent, find_text-behind, quoted_behind}

drop_cr-append : (s : Bytes) → drop_cr (s ++ 34 ∷ []) ≡ s ++ 34 ∷ []
drop_cr-append [] = refl
drop_cr-append (c ∷ []) = refl
drop_cr-append (c ∷ d ∷ s) = ap (◌∷◌ c) (drop_cr-append (d ∷ s))

trim_back-append : (s : Bytes) → trim_back (s ++ 34 ∷ []) ≡ s ++ 34 ∷ []
trim_back-append [] = refl
trim_back-append (c ∷ s) = rw (trim_back-append s, is_empty-append s [] 34) refl

header_line :
    (line : Bytes) (n : ℕ)
    → drop_cr line ≡ line
    → find b':' line ≡ some n
    → parse_header_line line [] ≡ (to_lower (trim (take n line)), trim (drop (suc n) line)) ∷ []
unfolding parse_header_line insert
header_line line n e f = rw (parse_header_line, e, f, e) refl

-- A header line whose value ends in a quote.
pub parse_headers-disposition :
    (v w : Bytes)
    → v ≡ codes "f" ++ (w ++ 34 ∷ [])
    → Lacks 10 (codes "Content-Disposition: " ++ v)
    → parse_headers (codes "Content-Disposition: " ++ v) ≡ (codes "content-disposition", v) ∷ []
unfolding parse_headers
parse_headers-disposition v w e clean =
    let line = codes "Content-Disposition: " ++ v in
    let quoted = ap (◌++◌ (codes "Content-Disposition: ")) e in
    let no_cr : drop_cr line ≡ line =
      ap drop_cr quoted ∙ (drop_cr-append (codes "Content-Disposition: f" ++ w) ∙ sym quoted) in
    let trimmed : trim (codes " " ++ v) ≡ v =
      ap (λ t. trim (codes " " ++ t)) e ∙ (trim_back-append (codes "f" ++ w) ∙ sym e) in
    ap (λ lines. parse_header_lines lines [])
      (getlines-one 10 67 (codes "ontent-Disposition: " ++ v) clean)
    ∙ (header_line line 19 no_cr refl ∙ ap (λ t. (codes "content-disposition", t) ∷ []) trimmed)

-- Content-Disposition with a name and, for a file, a file name.
abbrev spell_filename : Option Bytes → Bytes
spell_filename none = []
spell_filename (some f) = codes "; filename=" ++ (34 ∷ (f ++ 34 ∷ []))

abbrev pub spell_disposition : Bytes → Option Bytes → Bytes
spell_disposition n f = codes "form-data; name=" ++ (34 ∷ (n ++ (34 ∷ spell_filename f)))

abbrev CleanFilename : Option Bytes → Type 0
CleanFilename none = Unit
CleanFilename (some f) = Lacks 34 f × Lacks 10 f × Lacks 13 f

-- Names without quotes and line ends, and no "=" in the first.
pub record IsNamed (n : Bytes) (f : Option Bytes) : Type 0 where
  pub name_quote : Lacks 34 n
  pub name_line : Lacks 10 n × Lacks 13 n
  pub name_equals : Lacks b'=' n
  pub filename_clean : CleanFilename f

abbrev named_front : Bytes
named_front = codes "form-data; "

pub name_found :
    (n : Bytes) (f : Option Bytes)
    → Lacks 34 n
    → quoted_value (codes "name=" ++ 34 ∷ []) (spell_disposition n f) ≡ some n
unfolding find_text
name_found n f h = quoted_behind (codes "name=" ++ 34 ∷ []) named_front n (spell_filename f) refl h

no_filename :
    (n : Bytes)
    → Lacks b'=' n
    → quoted_value (codes "filename=" ++ 34 ∷ []) (spell_disposition n none) ≡ none
unfolding quoted_value find_text
no_filename n h =
    let clean : Lacks b'=' (n ++ 34 ∷ []) =
      All-append (λ v. v ≢ b'=') n (34 ∷ []) h (omega arith, tt) in
    rw (quoted_value, find_text-absent (codes "filename") (34 ∷ []) (n ++ 34 ∷ []) b'=' clean) refl

filename_found :
    (n f : Bytes)
    → Lacks b'=' n
    → Lacks 34 f
    → quoted_value (codes "filename=" ++ 34 ∷ []) (spell_disposition n (some f)) ≡ some f
unfolding find_text
filename_found n f h k =
    let a = n ++ 34 ∷ codes "; " in
    let front = (named_front ++ (codes "name=" ++ (34 ∷ a))) in
    let key = codes "filename=" ++ 34 ∷ [] in
    let clean : Lacks b'=' a = All-append (λ v. v ≢ b'=') n (34 ∷ codes "; ") h (omega arith) in
    let at =
      find_text-behind 102 (codes "ilename") (34 ∷ []) a (f ++ 34 ∷ []) b'=' clean (omega arith) in
    let found : find_text key (front ++ (key ++ (f ++ 34 ∷ []))) ≡ some (length front) =
      rw at refl in
    let whole : spell_disposition n (some f) ≡ front ++ (key ++ (f ++ 34 ∷ [])) =
      ap (λ t. named_front ++ (codes "name=" ++ (34 ∷ t)))
        (sym (append_assoc n (34 ∷ codes "; ") (key ++ (f ++ 34 ∷ [])))) in
    ap (quoted_value key) whole ∙ quoted_behind key front f [] found k

abbrev filename_of : Option Bytes → Bytes
filename_of none = []
filename_of (some f) = f

abbrev pub written_field : Bytes → Option Bytes → Bytes → MultipartField
written_field n f content = record {
  name = n;
  filename = filename_of f;
  content_type = [];
  encoding = [];
  headers = (codes "content-disposition", spell_disposition n f) ∷ [];
  content = content;
  binary_content = [];
}

abbrev with_disposition : Bytes → MultipartField
with_disposition v = record new_field { headers = (codes "content-disposition", v) ∷ [] }

pub disposed :
    (v n : Bytes) (f : Option Bytes) (field : MultipartField)
    → quoted_value (codes "name=" ++ 34 ∷ []) v ≡ some n
    → quoted_value (codes "filename=" ++ 34 ∷ []) v ≡ f
    → field.filename ≡ []
    → set_disposition v field ≡ record field { name = n; filename = filename_of f }
unfolding set_disposition
disposed v n none field e q k =
    rw (set_disposition, q, e) (ap (λ t. record field { name = n; filename = t }) k)
disposed v n (some f) field e q k = rw (set_disposition, q, e) refl

pub named_by :
    (n : Bytes) (f : Option Bytes)
    → IsNamed n f
    → (let v = spell_disposition n f in
        set_disposition v (with_disposition v) ≡ written_field n f [])
named_by n none h =
    disposed _ n none _ (name_found n none h.name_quote) (no_filename n h.name_equals) refl
named_by n (some f) h =
    disposed _ n (some f) _ (name_found n (some f) h.name_quote)
      (filename_found n f h.name_equals h.filename_clean.0) refl

pub read_headers-disposition :
    (v : Bytes)
    → read_headers ((codes "content-disposition", v) ∷ []) ≡ set_disposition v (with_disposition v)
unfolding lookup insert
read_headers-disposition v = refl

pub disposition_lines :
    (c : ℕ) (n : Bytes) (f : Option Bytes)
    → Lacks c (codes "Content-Disposition: form-data; name=" ++ 34 ∷ [])
    → Lacks c (34 ∷ codes "; filename=" ++ 34 ∷ [])
    → Lacks c n
    → Lacks c (filename_of f)
    → Lacks c (codes "Content-Disposition: " ++ spell_disposition n f)
disposition_lines c n none l m h k =
    let P : ℕ → Type 0 = λ v. v ≢ c in
    All-append P (codes "Content-Disposition: form-data; name=" ++ 34 ∷ []) (n ++ 34 ∷ []) l
      (All-append P n (34 ∷ []) h (m.0, tt))
disposition_lines c n (some f) l m h k =
    let P : ℕ → Type 0 = λ v. v ≢ c in
    let rest =
      All-append P (34 ∷ codes "; filename=" ++ 34 ∷ []) (f ++ 34 ∷ []) m
        (All-append P f (34 ∷ []) k (m.0, tt)) in
    All-append P (codes "Content-Disposition: form-data; name=" ++ 34 ∷ [])
      (n ++ (34 ∷ spell_filename (some f))) l (All-append P n (34 ∷ spell_filename (some f)) h rest)

pub filename_lines :
    (f : Option Bytes) → CleanFilename f → Lacks 10 (filename_of f) × Lacks 13 (filename_of f)
filename_lines none h = (tt, tt)
filename_lines (some f) h = (h.1, h.2)

pub before_quote : Bytes → Option Bytes → Bytes
before_quote n none = codes "orm-data; name=" ++ (34 ∷ n)
before_quote n (some f) =
    codes "orm-data; name=" ++ (34 ∷ (n ++ (34 ∷ (codes "; filename=" ++ (34 ∷ f)))))

pub ends_quoted :
    (n : Bytes) (f : Option Bytes)
    → spell_disposition n f ≡ codes "f" ++ (before_quote n f ++ 34 ∷ [])
unfolding before_quote
ends_quoted n none = refl
ends_quoted n (some f) =
    ap (λ t. codes "form-data; name=" ++ (34 ∷ t))
      (sym (append_assoc n (34 ∷ (codes "; filename=" ++ (34 ∷ f))) (34 ∷ [])))

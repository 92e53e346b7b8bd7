-- ===== src/Tests/ServerTests.antt =====
-- Requests with a query and with cookies.
use foxhttp.Prelude.{◌≡◌, refl, none, List, [], ◌∷◌, arith, All, Bytes, codes}
use foxhttp.Url.{url_encode}
use foxhttp.Server.Context.{values_of, new_context}
use foxhttp.Server.Context.Query.{IsParameter, new_context-query_params}
use foxhttp.Server.Context.Cookies.{Written, IsCookie}

-- "tag=x%2Cy"
abbrev params : List (Bytes × List Bytes)
params = (codes "tag", codes "x" ∷ codes "y" ∷ []) ∷ []

params_are_parameters : All IsParameter params
params_are_parameters = (
  (
    (omega arith, (omega arith, (omega arith, tt))),
    (
      (omega arith, (omega arith, (omega arith, tt))),
      ((refl, (ground arith, tt)), ((refl, (ground arith, tt)), tt)),
    ),
  ),
  tt,
)

new_context-query_params_example :
    values_of (codes "tag") (new_context (codes "/a?tag=x%2Cy") none).query_params
    ≡ codes "x" ∷ codes "y" ∷ []
unfolding url_encode
new_context-query_params_example =
    new_context-query_params (codes "/a") params none (codes "tag")
      (ground arith, (ground arith, tt)) params_are_parameters

-- "a=1; a=2"
abbrev first : Written
first = record { blanks = []; name = codes "a"; value = codes "1" }

abbrev second : Written
second = record { blanks = codes " "; name = codes "a"; value = codes "2" }

first-IsCookie : IsCookie first
first-IsCookie = record {
  blank = tt;
  one_piece = (ground arith, tt);
  plain_name = (ground arith, tt);
  plain_value = (ground arith, tt);
  bare_name = refl;
  bare_value = refl;
}

second-IsCookie : IsCookie second
second-IsCookie = record {
  blank = (refl, tt);
  one_piece = (ground arith, (ground arith, tt));
  plain_name = (ground arith, (ground arith, tt));
  plain_value = (ground arith, tt);
  bare_name = refl;
  bare_value = refl;
}

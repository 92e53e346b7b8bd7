-- ===== src/Tests/UrlTests.antt =====
-- URLs and requests of the client.
use foxhttp.Prelude.{◌≡◌, refl, false, some, [], ◌∷◌, arith, codes}
use foxhttp.Client.Target.{parse_absolute_url}
use foxhttp.Client.Target.Laws.{Url, spell_url, base, IsUrl, parse_absolute_url-spell_url}
use foxhttp.Client.Request.{
  get, builder, sets_body, starts, run_calls, sent_once, SentAtMostOnce, RequestBuilder, then_call,
}

abbrev local : Url
local = record {
  https = false;
  host = codes "localhost";
  port = some (codes "8080");
  path = codes "/a?b";
}

local-IsUrl : IsUrl local
local-IsUrl = record {
  host_full = refl;
  host_slash = omega arith;
  host_colon = omega arith;
  port_clean = omega arith;
  path_clean = refl;
}

parse_absolute_url-spell_url_example :
    parse_absolute_url false (spell_url local) ≡ some (base local, codes "/a?b")
parse_absolute_url-spell_url_example =
    parse_absolute_url-spell_url false local local-IsUrl (λ e. absurd (cc))

-- The last colon of an IPv6 address in brackets is taken for that of a port.
ipv6_split :
    parse_absolute_url false (codes "http://[::1]/")
    ≡ some (
      record { https = false; host = codes "[:"; port = codes "1]"; host_field = codes "[::1]" },
      codes "/",
    )
unfolding parse_absolute_url
ipv6_split = refl

abbrev called : RequestBuilder
called =
    run_calls (sets_body (codes "x") ∷ starts 1 ∷ starts 2 ∷ [])
      (builder (base local) get (codes "/"))

sent_once_example : SentAtMostOnce called (sets_body (codes "y") ∷ [])
sent_once_example =
    sent_once (base local) get (codes "/") (sets_body (codes "x") ∷ starts 1 ∷ starts 2 ∷ [])
      (sets_body (codes "y") ∷ [])

-- The second start of a builder throws.
second_start :
    run_calls (starts 1 ∷ starts 2 ∷ []) (builder (base local) get [])
    ≡ run_calls (starts 1 ∷ []) (builder (base local) get [])
unfolding run_calls then_call
second_start = refl

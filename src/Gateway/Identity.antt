-- ===== src/Gateway/Identity.antt =====
-- What the handlers can believe of the headers.
use peikonpurekkusu_account.Prelude.{
  ℕ, none, some, [], ◌∷◌, List, Option, String, str_eq, ◌≡◌, false, ◌∙◌, Bool-cases, refl, ap, inl,
  eq_iff, arith, inr, true, ◌⊎◌, sym, ◌||◌, if◌then◌else◌, Bool, Option-cases,
}
use peikonpurekkusu_account.Http.Routes.{
  serve, Outside, route, Endpoint, path_route, reply, live, is_ready, unmatched,
}
use peikonpurekkusu_account.Http.Balance.{Cached}
use peikonpurekkusu_account.Gateway.{
  Requirements, Token, assertion_header, del_all, identity_headers, identify, Claims, middleware,
  is_health, requirements, get_subject, pass, accepted, claims_of, named,
}
use peikonpurekkusu_account.Http.{header, BalanceView, Response, Request, http_error, caller_id}
use peikonpurekkusu_account.Prelude.Int.{ℤ}
use peikonpurekkusu_account.Schema.{Runtime, Store}
use peikonpurekkusu_account.Grpc.{Codec}
use peikonpurekkusu_account.Gateway.Headers.{header-identify, identify_stripped, header_assertion}

module _ (verify : Requirements → String → Option Token) (format_int : ℤ → String) where
  module _ (x : Runtime) (json : Codec BalanceView) (ttl : ℕ)
      (no_match : String → List String → Response) (o : Outside) (s : Store) where
    abbrev pub api : Request → List Cached → Response × List Cached
    api = middleware verify format_int (serve x json ttl no_match o s)

    -- The probes, and what no route matches, do not read the headers.
    abbrev IsPlain : Endpoint → Type 0
    IsPlain live = Unit
    IsPlain is_ready = Unit
    IsPlain unmatched = Unit
    IsPlain Endpoint.accounts = ⊥
    IsPlain (Endpoint.balance id) = ⊥
    IsPlain (Endpoint.entries id) = ⊥

    path_route-IsPlain : (path : List String) → is_health path ≡ true → IsPlain (path_route path)
    unfolding path_route
    path_route-IsPlain [] h = absurd (ground arith)
    path_route-IsPlain (a ∷ []) h = absurd (ground arith)
    path_route-IsPlain (a ∷ b ∷ []) h = elim (Bool-cases (str_eq b "live")) [
      | inl is_live ↦ rw h (rw is_live tt)
      | inr fails ↦ elim (Bool-cases (str_eq b "ready")) [
        | inl is_up ↦ rw h (rw fails (rw is_up tt))
        | inr neither ↦ rw h (rw fails (rw neither tt))
      ]
    ]
    path_route-IsPlain (a ∷ b ∷ c ∷ []) h =
        let differ : str_eq a "accounts" ≡ false =
          ap (λ t. str_eq t "accounts") ((eq_iff a "health").0 h) in
        rw differ tt
    path_route-IsPlain (a ∷ b ∷ c ∷ d ∷ rest) h = tt

    route-IsPlain : (r : Request) → is_health r.path ≡ true → IsPlain (route r)
    unfolding route
    route-IsPlain r h = elim (Bool-cases (str_eq r.method "GET" || str_eq r.method "HEAD")) [
      | inl get ↦ rw get (path_route-IsPlain r.path h)
      | inr fails ↦ rw fails tt
    ]

    reply_plain :
        (e : Endpoint) (r : Request) (h : List (String × String)) (cached : List Cached)
        → IsPlain e
        → reply x json ttl no_match o s e (record r { headers = h }) cached
          ≡ reply x json ttl no_match o s e r cached
    reply_plain live r h cached plain = refl
    reply_plain is_ready r h cached plain = refl
    reply_plain unmatched r h cached plain = refl
    reply_plain Endpoint.accounts r h cached plain = absurd plain
    reply_plain (Endpoint.balance id) r h cached plain = absurd plain
    reply_plain (Endpoint.entries id) r h cached plain = absurd plain

    serve_health :
        (r : Request) (h : List (String × String)) (cached : List Cached)
        → is_health r.path ≡ true
        → serve x json ttl no_match o s (record r { headers = h }) cached
          ≡ serve x json ttl no_match o s r cached
    unfolding serve route
    serve_health r h cached e = reply_plain (route r) r h cached (route-IsPlain r e)

    pass_stripped :
        (r : Request) (h : List (String × String)) (cached : List Cached)
        (named_by : Option (String × Claims))
        → del_all identity_headers h ≡ del_all identity_headers r.headers
        → pass verify format_int
            (serve x json ttl no_match o s)
            (record r { headers = h })
            named_by
            cached
          ≡ pass verify format_int (serve x json ttl no_match o s) r named_by cached
    pass_stripped r h cached none same = refl
    pass_stripped r h cached (some (sub, c)) same =
        ap (λ l. serve x json ttl no_match o s (record r { headers = l }) cached)
          (identify_stripped verify format_int c sub h r.headers same)

    -- The identity headers that a client sends have no effect: the API answers alike, and leaves
    -- the same cache, whatever of them a request carries, if the rest of its headers is the same.
    pub api_forged :
        (r : Request) (h : List (String × String)) (cached : List Cached)
        → del_all identity_headers h ≡ del_all identity_headers r.headers
        → api (record r { headers = h }) cached ≡ api r cached
    unfolding middleware
    api_forged r h cached same =
        let proof : header assertion_header h ≡ header assertion_header r.headers =
          sym (header_assertion h)
          ∙ ap (header assertion_header) same
          ∙ header_assertion r.headers in
        elim (Bool-cases (is_health r.path)) [
          | inl healthy ↦ rw healthy (serve_health r h cached healthy)
          | inr other_path ↦ rw other_path (
              rw proof (
                ap
                  (λ p.
                    if str_eq (header assertion_header r.headers) ""
                    then (http_error 401 "missing gateway assertion", cached)
                    else p)
                  (pass_stripped r h cached
                    (accepted verify format_int
                      (verify requirements (header assertion_header r.headers)))
                    same)))
        ]

    -- What the API gives to a request with a valid assertion: what the routes give to the request
    -- with the subject of the assertion as its caller.
    pub record IsVerified (r : Request) (cached : List Cached) : Type 0 where
      pub token : Token
      pub claims : Claims
      pub sub : String
      pub seen : Request
      pub verified : verify requirements (header assertion_header r.headers) ≡ some token
      pub valid : token.valid ≡ true
      pub claimed : token.claims ≡ some claims
      pub subject : get_subject claims.sub ≡ some sub
      pub nonempty : str_eq sub "" ≡ false
      pub method : seen.method ≡ r.method
      pub path : seen.path ≡ r.path
      pub cursor : seen.cursor ≡ r.cursor
      pub caller : caller_id x seen ≡ x.uuid_parse sub
      pub answer : api r cached ≡ serve x json ttl no_match o s seen cached

    abbrev pub IsRejected : Request → List Cached → Type 0
    IsRejected r cached = (detail : String) × (api r cached ≡ (http_error 401 detail, cached))

    caller_id-identify :
        (r : Request) (c : Claims) (sub : String)
        → caller_id x (record r { headers = identify verify format_int c sub r.headers })
          ≡ x.uuid_parse sub
    unfolding caller_id
    caller_id-identify r c sub = ap x.uuid_parse (header-identify verify format_int c sub r.headers)

    accepted_pass :
        (r : Request) (cached : List Cached) (t : Option Token)
        → verify requirements (header assertion_header r.headers) ≡ t
        → api r cached
          ≡ pass verify format_int
              (serve x json ttl no_match o s)
              r
              (accepted verify format_int t)
              cached
        → IsRejected r cached ⊎ IsVerified r cached
    accepted_pass r cached none e f = inl ("invalid gateway assertion", f)
    accepted_pass r cached (some t) e f = go t.valid t.claims refl refl f
      where
        onward : Option (String × Claims) → Response × List Cached
        onward q = pass verify format_int (serve x json ttl no_match o s) r q cached

        continue : Claims → Option String → Response × List Cached
        continue c q = onward (named verify format_int c q)

        go :
            (v : Bool) (cs : Option Claims)
            → t.valid ≡ v
            → t.claims ≡ cs
            → api r cached
              ≡ pass verify format_int
                  (serve x json ttl no_match o s)
                  r
                  (claims_of verify format_int v cs)
                  cached
            → IsRejected r cached ⊎ IsVerified r cached
        go v none ev ec g = inl ("invalid gateway assertion", g)
        go false (some c) ev ec g = inl ("invalid gateway assertion", g)
        go true (some c) ev ec g = elim (Option-cases (get_subject c.sub)) [
          | inl missing ↦ inl ("invalid gateway assertion", g ∙ ap (continue c) missing)
          | inr (sub, found) ↦ elim (Bool-cases (str_eq sub "")) [
            | inl empty ↦ inl (
              "invalid gateway assertion",
              g
                  ∙ ap (continue c) found
                  ∙ ap (λ b. onward (if b then none else some (sub, c))) empty,
            )
            | inr nonempty ↦ inr (record {
              token = t;
              claims = c;
              sub = sub;
              seen = record r { headers = identify verify format_int c sub r.headers };
              verified = e;
              valid = ev;
              claimed = ec;
              subject = found;
              nonempty = nonempty;
              method = refl;
              path = refl;
              cursor = refl;
              caller = caller_id-identify r c sub;
              answer =
                  g
                  ∙ ap (continue c) found
                  ∙ ap (λ b. onward (if b then none else some (sub, c))) nonempty;
            })
          ]
        ]

    -- A request for anything but the paths under /health/ is answered with 401, which leaves the
    -- cache as it is, or it carries an assertion that the check accepts, valid and with a subject,
    -- and is answered as a request of that subject.
    pub api-IsVerified :
        (r : Request) (cached : List Cached)
        → is_health r.path ≡ false
        → IsRejected r cached ⊎ IsVerified r cached
    unfolding middleware
    api-IsVerified r cached h = elim (Bool-cases (str_eq (header assertion_header r.headers) "")) [
      | inl missing ↦ inl ("missing gateway assertion", rw h (rw missing refl))
      | inr present ↦
          accepted_pass r cached (verify requirements (header assertion_header r.headers)) refl
            (rw h (rw present refl))
    ]

-- ===== src/Gateway.antt =====
-- internal/gatewayauth/gatewayauth.go: the signed assertion in front of the HTTP API.
pub mod Headers
pub mod Keys
pub mod Identity
pub mod Listing
use peikonpurekkusu_account.Prelude.{
  ℕ, none, some, [], ◌∷◌, List, Option, String, if◌then◌else◌, true, ◌<>◌, Bool, str_eq, ◌⊎◌, false,
  inr, inl, suc, zero,
}
use peikonpurekkusu_account.Prelude.Int.{ℤ}
use peikonpurekkusu_account.Http.{Request, Response, header, http_error}

-- A claim of the token, by the type assertions of the code: a text, an array of which the texts are
-- kept, a number as `int64` of it, a claim of another type, and no claim.
pub data Claim : Type 0 where
  text : String → Claim
  words : List (Option String) → Claim
  number : ℤ → Claim
  other absent : Claim

pub record Claims : Type 0 where
  pub sub : Claim
  pub roles : Claim
  pub amr : Claim
  pub auth_time : Claim
  pub sid : Claim

-- What `jwt.Parse` gives without an error; the claims are none if they are no `MapClaims`.
pub record Token : Type 0 where
  pub valid : Bool
  pub claims : Option Claims

-- The options of `jwt.Parse`.
pub record Requirements : Type 0 where
  pub methods : List String
  pub audience : String
  pub expiration_required : Bool
  pub leeway_seconds : ℕ

abbrev pub audience : String
audience = "peikon-internal"

abbrev pub requirements : Requirements
requirements = record {
  methods = "ES256" ∷ [];
  audience = audience;
  expiration_required = true;
  leeway_seconds = 10;
}

abbrev pub assertion_header : String
assertion_header = "X-Gateway-Assertion"

abbrev pub identity_headers : List String
identity_headers = "X-User-Id" ∷ "X-User-Roles" ∷ "X-Session-Id" ∷ "X-Auth-Amr" ∷ "X-Auth-Time" ∷ []

-- `Header.Del` and `Header.Set`
unfoldable pub del : String → List (String × String) → List (String × String)
del key [] = []
del key ((k, v) ∷ rest) = if str_eq k key then del key rest else (k, v) ∷ del key rest

abbrev pub set : String → String → List (String × String) → List (String × String)
set key value headers = (key, value) ∷ del key headers

abbrev pub del_all : List String → List (String × String) → List (String × String)
del_all [] headers = headers
del_all (key ∷ keys) headers = del_all keys (del key headers)

abbrev pub texts : List (Option String) → List String
texts [] = []
texts (none ∷ rest) = texts rest
texts (some s ∷ rest) = s ∷ texts rest

-- `strings.Join` with a comma.
abbrev pub join : List String → String
join [] = ""
join (s ∷ []) = s
join (s ∷ t ∷ rest) = s <> ("," <> join (t ∷ rest))

abbrev pub join_strings : Claim → String
join_strings (words parts) = join (texts parts)
join_strings (text s) = ""
join_strings (number n) = ""
join_strings other = ""
join_strings absent = ""

-- `GetSubject`: no claim is the empty text.
abbrev pub get_subject : Claim → Option String
get_subject (text s) = some s
get_subject absent = some ""
get_subject (words parts) = none
get_subject (number n) = none
get_subject other = none

-- `strings.HasPrefix(r.URL.Path, "/health/")`
abbrev pub is_health : List String → Bool
is_health [] = false
is_health (a ∷ []) = false
is_health (a ∷ b ∷ rest) = str_eq a "health"

-- The check of a token (golang-jwt with the keys of user-service) and `strconv.FormatInt`.
module _ (verify : Requirements → String → Option Token) (format_int : ℤ → String) where
  abbrev pub set_auth_time : Claim → List (String × String) → List (String × String)
  set_auth_time (number n) headers = set "X-Auth-Time" (format_int n) headers
  set_auth_time (text s) headers = headers
  set_auth_time (words parts) headers = headers
  set_auth_time other headers = headers
  set_auth_time absent headers = headers

  abbrev pub set_session : Claim → List (String × String) → List (String × String)
  set_session (text s) headers = set "X-Session-Id" s headers
  set_session (words parts) headers = headers
  set_session (number n) headers = headers
  set_session other headers = headers
  set_session absent headers = headers

  unfoldable pub identify : Claims → String → List (String × String) → List (String × String)
  unfolding del
  identify c sub headers =
      let stripped = del assertion_header (del_all identity_headers headers) in
      let user = set "X-User-Id" sub stripped in
      let roles = set "X-User-Roles" (join_strings c.roles) user in
      let amr = set "X-Auth-Amr" (join_strings c.amr) roles in
      set_session c.sid (set_auth_time c.auth_time amr)

  -- The subject and the claims of an assertion, or none where the middleware rejects it.
  abbrev pub named : Claims → Option String → Option (String × Claims)
  named c none = none
  named c (some sub) = if str_eq sub "" then none else some (sub, c)

  abbrev pub claims_of : Bool → Option Claims → Option (String × Claims)
  claims_of valid none = none
  claims_of false (some c) = none
  claims_of true (some c) = named c (get_subject c.sub)

  abbrev pub accepted : Option Token → Option (String × Claims)
  accepted none = none
  accepted (some t) = claims_of t.valid t.claims

  module _ {ℓ} {S : Type ℓ} (next : Request → S → Response × S) where
    abbrev pub pass : Request → Option (String × Claims) → S → Response × S
    pass r none s = (http_error 401 "invalid gateway assertion", s)
    pass r (some (sub, c)) s = next (record r { headers = identify c sub r.headers }) s

    unfoldable pub middleware : Request → S → Response × S
    unfolding header identify
    middleware r s =
        let raw = header assertion_header r.headers in
        if is_health r.path
        then next r s
        else if str_eq raw ""
        then (http_error 401 "missing gateway assertion", s)
        else pass r (accepted (verify requirements raw)) s

-- `New`: the keys are fetched up to ten times, `stopped` says whether the process is stopped while
-- it waits behind an attempt.
pub data NewError : Type 0 where
  stopped unreachable : NewError

module _ {ℓ} {K : Type ℓ} (fetch_keys : ℕ → Option K) (is_stopped : ℕ → Bool) where
  abbrev pub try_key : Option K → Bool → NewError ⊎ K → NewError ⊎ K
  try_key (some k) s rest = inr k
  try_key none true rest = inl NewError.stopped
  try_key none false rest = rest

  unfoldable pub attempts_from : ℕ → ℕ → NewError ⊎ K
  attempts_from zero attempt = inl unreachable
  attempts_from (suc n) attempt =
      try_key (fetch_keys attempt) (is_stopped attempt) (attempts_from n (suc attempt))

  unfoldable pub new_verifier : NewError ⊎ K
  unfolding attempts_from
  new_verifier = attempts_from 10 1

-- ===== src/Tests/Gate.antt =====
-- Requests with and without an assertion.
use peikonpurekkusu_account.Prelude.{
  none, some, [], ◌∷◌, List, Option, String, false, if◌then◌else◌, ◌≡◌, str_eq, refl, true, ◌⊎◌, ℕ,
  inr, ◌==◌, ◌↔◌, ◌≤◌,
}
use peikonpurekkusu_account.Gateway.{
  Requirements, Claims, del, Token, Claim, del_all, words, identity_headers, new_verifier,
}
use peikonpurekkusu_account.Http.{Response, Request, http_error, whole}
use peikonpurekkusu_account.Http.Routes.{Outside}
use peikonpurekkusu_account.Gateway.Identity.{
  IsRejected, api, api_forged, IsVerified, api-IsVerified,
}
use peikonpurekkusu_account.Prelude.Int.{ℤ, pos}
use peikonpurekkusu_account.Tests.Api.{answering, server, view_json, deposited}
use peikonpurekkusu_account.Gateway.Listing.{IsAnswered, api_listing}
use peikonpurekkusu_account.Gateway.Keys.{IsFirst, new_verifier-IsFirst}

abbrev claims : Claims
claims = record {
  sub = Claim.text "caller";
  roles = words (some "user" ∷ none ∷ some "admin" ∷ []);
  amr = Claim.absent;
  auth_time = Claim.number (pos 90);
  sid = Claim.absent;
}

-- One text is a signed assertion.
abbrev pub keys : Requirements → String → Option Token
keys needs raw =
    if str_eq raw "signed" then some (record { valid = true; claims = some claims }) else none

abbrev pub print_none : ℤ → String
print_none n = "90"

abbrev pub unmatched_reply : String → List String → Response
unmatched_reply method path = http_error 404 "page not found"

abbrev pub outside : Outside
outside = record {
  conditions = answering;
  exists_fails = false;
  rows = whole;
  postgres_up = true;
  redis_up = true;
  kafka_up = true;
}

abbrev pub accounts_request : Request
accounts_request = record {
  method = "GET";
  path = "accounts" ∷ [];
  headers = ("X-Gateway-Assertion", "signed") ∷ [];
  cursor = [];
}

-- Another caller is named in the headers.
abbrev forged : List (String × String)
forged = ("X-User-Id", "stranger") ∷ ("X-Gateway-Assertion", "signed") ∷ []

same_without : del_all identity_headers forged ≡ del_all identity_headers accounts_request.headers
unfolding del
same_without = refl

api_forged_example :
    api keys print_none server view_json 5 unmatched_reply outside deposited
      (record accounts_request { headers = forged })
      []
    ≡ api keys print_none server view_json 5 unmatched_reply outside deposited accounts_request []
api_forged_example =
    api_forged keys print_none server view_json 5 unmatched_reply outside deposited accounts_request
      forged [] same_without

api-IsVerified_example :
    IsRejected keys print_none server view_json 5 unmatched_reply outside deposited accounts_request
      []
    ⊎ IsVerified keys print_none server view_json 5 unmatched_reply outside deposited
        accounts_request []
api-IsVerified_example =
    api-IsVerified keys print_none server view_json 5 unmatched_reply outside deposited
      accounts_request [] refl

api_listing_example :
    IsRejected keys print_none server view_json 5 unmatched_reply outside deposited accounts_request
      []
    ⊎ IsAnswered keys print_none server view_json 5 unmatched_reply outside deposited
        accounts_request []
api_listing_example =
    api_listing keys print_none server view_json 5 unmatched_reply outside deposited
      accounts_request [] refl refl

-- The keys are there at the third attempt.
abbrev third : ℕ → Option ℕ
third n = if n == 3 then some 7 else none

new_verifier-IsFirst_example :
    (new_verifier third (λ n. false) ≡ inr 7)
    ↔ ((m : ℕ) × (m ≤ 10) × IsFirst third (λ n. false) 1 m 7)
new_verifier-IsFirst_example = new_verifier-IsFirst third (λ n. false) 7

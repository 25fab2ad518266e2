-- ===== src/Gateway/Headers.antt =====
-- The identity headers, before and behind the middleware.
use peikonpurekkusu_account.Prelude.{
  [], ◌∷◌, List, Option, String, str_eq, ◌≡◌, false, ◌∙◌, Bool-cases, refl, ap, inl, eq_iff, arith,
  inr,
}
use peikonpurekkusu_account.Gateway.{
  Requirements, Token, del, assertion_header, del_all, Claim, identity_headers, identify,
  set_session, Claims, set_auth_time, set, words, join_strings,
}
use peikonpurekkusu_account.Http.{header}
use peikonpurekkusu_account.Prelude.Lists.{All}
use peikonpurekkusu_account.Prelude.Int.{ℤ}

header-del :
    (k key : String) (headers : List (String × String))
    → str_eq k key ≡ false
    → header key (del k headers) ≡ header key headers
unfolding header del
header-del k key [] h = refl
header-del k key ((n, v) ∷ rest) h = elim (Bool-cases (str_eq n k)) [
  | inl same ↦ let named : n ≡ k = (eq_iff n k).0 same in ground (arith, header-del k key rest h)
  | inr differ ↦ ground (arith, header-del k key rest h)
]

header-del_all :
    (key : String) (keys : List String) (headers : List (String × String))
    → All (λ k. str_eq k key ≡ false) keys
    → header key (del_all keys headers) ≡ header key headers
header-del_all key [] headers others = refl
header-del_all key (k ∷ keys) headers others =
    header-del_all key keys (del k headers) others.1 ∙ header-del k key headers others.0

-- The assertion is none of the identity headers.
pub header_assertion :
    (headers : List (String × String))
    → header assertion_header (del_all identity_headers headers) ≡ header assertion_header headers
header_assertion headers =
    header-del_all assertion_header identity_headers headers
      (refl, (refl, (refl, (refl, (refl, tt)))))

module _ (verify : Requirements → String → Option Token) (format_int : ℤ → String) where
  header-set_session :
      (c : Claim) (headers : List (String × String))
      → header "X-User-Id" (set_session verify format_int c headers) ≡ header "X-User-Id" headers
  unfolding header
  header-set_session (Claim.text s) headers = header-del "X-Session-Id" "X-User-Id" headers refl
  header-set_session (words parts) headers = refl
  header-set_session (Claim.number n) headers = refl
  header-set_session Claim.other headers = refl
  header-set_session Claim.absent headers = refl

  header-set_auth_time :
      (c : Claim) (headers : List (String × String))
      → header "X-User-Id" (set_auth_time verify format_int c headers) ≡ header "X-User-Id" headers
  unfolding header
  header-set_auth_time (Claim.number n) headers = header-del "X-Auth-Time" "X-User-Id" headers refl
  header-set_auth_time (words parts) headers = refl
  header-set_auth_time (Claim.text s) headers = refl
  header-set_auth_time Claim.other headers = refl
  header-set_auth_time Claim.absent headers = refl

  -- The caller of a verified request.
  pub header-identify :
      (c : Claims) (sub : String) (headers : List (String × String))
      → header "X-User-Id" (identify verify format_int c sub headers) ≡ sub
  unfolding header identify del
  header-identify c sub headers =
      header-set_session c.sid (set_auth_time verify format_int c.auth_time _)
      ∙ header-set_auth_time c.auth_time _

  -- The headers that the handlers see are made of the claims and of what the request holds besides
  -- the identity headers.
  pub identify_stripped :
      (c : Claims) (sub : String) (h k : List (String × String))
      → del_all identity_headers h ≡ del_all identity_headers k
      → identify verify format_int c sub h ≡ identify verify format_int c sub k
  unfolding identify
  identify_stripped c sub h k e =
      ap
        (λ l.
          let user = set "X-User-Id" sub (del assertion_header l) in
          let amr =
            set "X-Auth-Amr" (join_strings c.amr)
              (set "X-User-Roles" (join_strings c.roles) user) in
          set_session verify format_int c.sid (set_auth_time verify format_int c.auth_time amr))
        e

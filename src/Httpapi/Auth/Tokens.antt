-- ===== src/Httpapi/Auth/Tokens.antt =====
-- Which tokens are accepted.
use image_forge.Prelude.{
  ℕ, ◌+◌, ◌≤◌, ◌<◌, ◌≡◌, refl, inl, inr, true, false, arith, Text, blank, Bool-cases,
}
use image_forge.Errors.{invalid_token, Error, is, Result, ok, err}
use image_forge.Httpapi.Auth.{
  issuer_name, signing_method, clock_skew, Claims, Jwt, TokenIssuer, claims_for, signed, invalid,
  verified, checks_at, issue, verify,
}

-- What the JWT library documents of a token signed with HS256 and read with the same key by a parser
-- that accepts this method, the token's issuer and an expiry: it gives the claims back from the
-- leeway before their start until the leeway after their end, and an error after that.
pub record Documented (jwt : Jwt) : Type 0 where
  pub reads :
      (c : Claims) (key token : Text) (now : ℕ)
      → jwt.signed_string signing_method c key ≡ ok token
      → c.issuer ≡ issuer_name
      → c.not_before ≤ now + clock_skew
      → now < c.expires_at + clock_skew
      → jwt.parse_with_claims token key (checks_at now) ≡ ok c
  pub expires :
      (c : Claims) (key token : Text) (now : ℕ)
      → jwt.signed_string signing_method c key ≡ ok token
      → c.expires_at + clock_skew ≤ now
      → (e : Error) × (jwt.parse_with_claims token key (checks_at now) ≡ err e)

signed-ok : (r : Result Text) (token : Text) → signed r ≡ ok token → r ≡ ok token
unfolding signed
signed-ok (ok t) token h = h
signed-ok (err e) token h = absurd (ground arith)

module _ (jwt : Jwt) where
  issue_ok :
      (i : TokenIssuer) (client_id : Text) (t : ℕ) (token : Text)
      → issue jwt i client_id t ≡ ok token
      → (blank client_id ≡ false)
        × (jwt.signed_string signing_method (claims_for i client_id t) i.key ≡ ok token)
  unfolding issue
  issue_ok i client_id t token h = elim (Bool-cases (blank client_id)) [
    | inl b ↦ absurd (ground arith)
    | inr b ↦ (b, signed-ok _ token (ground arith))
  ]

  -- A token that `Issue` has given is accepted by `Verify` as its client's, until its lifetime is
  -- over, also by a clock that is up to the skew behind the issuer's.
  pub verify-issue :
      Documented jwt
      → (i : TokenIssuer) (client_id : Text) (t now : ℕ) (token : Text)
      → issue jwt i client_id t ≡ ok token
      → t ≤ now + clock_skew
      → now < t + i.ttl
      → verify jwt i token now ≡ ok client_id
  unfolding verify verified
  verify-issue d i client_id t now token h early late =
      let (b, s) = issue_ok i client_id t token h in
      let p =
        d.reads (claims_for i client_id t) i.key token now s refl (omega arith) (omega arith) in
      rw (p, verified, b)

  -- From the skew after the end of its lifetime on, `Verify` refuses a token that `Issue` has given,
  -- with an error that is ErrInvalidToken.
  pub verify-expired :
      Documented jwt
      → (i : TokenIssuer) (client_id : Text) (t now : ℕ) (token : Text)
      → issue jwt i client_id t ≡ ok token
      → t + i.ttl + clock_skew ≤ now
      → (e : Error) × (verify jwt i token now ≡ err e) × (is e invalid_token ≡ true)
  unfolding verify verified is
  verify-expired d i client_id t now token h late =
      let (b, s) = issue_ok i client_id t token h in
      let (e, p) = d.expires (claims_for i client_id t) i.key token now s (omega arith) in
      (invalid e, rw p, refl)

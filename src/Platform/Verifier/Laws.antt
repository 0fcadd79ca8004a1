-- ===== src/Platform/Verifier/Laws.antt =====
-- platform/auth/jwks.go: what an accepted token has shown, and when the cached keys change.
use pegasus_suite.Prelude.{
  String, ◌≡◌, refl, ap, ◌∙◌, sym, ◌⊎◌, true, false, Option, none, some, List, [], ◌∷◌, str_eq_iff,
  arith, option_case, if_case,
}
use pegasus_suite.Prelude.Assoc.{Assoc, lookup, string_eq}
use pegasus_suite.Prelude.Time.{GoTime}
use pegasus_suite.Clients.{Result, ok, err, result_case}
use pegasus_suite.Platform.Claims.{Claims, one_of}
use pegasus_suite.Platform.Verifier.{
  Jwt, Jwk, Verifier, Outside, usable_keys, too_soon, replace_keys, refresh, look_again, key_for,
  check_claims, verified, parse,
}

-- a token that passed: signed by RSA, verified by the cached key of its id, with claims that name
-- the issuer and the audience that the verifier is configured for
pub record IsAccepted {jwt : Jwt} {tm : GoTime} (raw : String) (v : Verifier jwt tm)
    (claims : Claims) : Type 0 where
  pub kid : String
  pub key : jwt.Key
  pub by_rsa : jwt.header raw ≡ some (true, kid)
  pub cached : lookup kid v.keys ≡ some key
  pub signed : jwt.verify raw key ≡ some claims
  pub issued : (v.issuer ≡ "") ⊎ (claims.issuer ≡ v.issuer)
  pub meant : (v.audience ≡ "") ⊎ (one_of v.audience claims.audience ≡ true)

module _ {jwt : Jwt} {tm : GoTime} where
  -- a key that `keyFor` returns is in the cache that it leaves
  abbrev Cached : String → Verifier jwt tm × Result String jwt.Key → Type 0
  Cached kid (v, r) = (key : jwt.Key) → r ≡ ok key → lookup kid v.keys ≡ some key

  look_again-Cached :
      (kid : String) (r : Verifier jwt tm × Option String) → Cached kid (look_again kid r)
  unfolding look_again
  look_again-Cached kid (v, some e) = λ key q. absurd cc
  look_again-Cached kid (v, none) =
      option_case (Cached kid) (lookup kid v.keys) _ _ (λ e key q. absurd cc)
        (λ k e key q. e ∙ ground (arith, q))

  key_for-Cached :
      (kid : String) (o : Outside tm) (v : Verifier jwt tm) → Cached kid (key_for kid o v)
  unfolding key_for
  key_for-Cached kid o v =
      option_case (Cached kid) (lookup kid v.keys) _ _ (λ e. look_again-Cached kid (refresh o v))
        (λ k e key q. e ∙ ground (arith, q))

  check_claims-ok :
      (v : Verifier jwt tm) (c claims : Claims)
      → check_claims v c ≡ ok claims
      → (c ≡ claims)
        × ((v.issuer ≡ "") ⊎ (c.issuer ≡ v.issuer))
        × ((v.audience ≡ "") ⊎ (one_of v.audience c.audience ≡ true))
  unfolding check_claims
  check_claims-ok v c claims e =
      ground
        (arith, e, str_eq_iff v.issuer "", str_eq_iff c.issuer v.issuer, str_eq_iff v.audience "")

  abbrev Accepts : String → Verifier jwt tm × Result String Claims → Type 0
  Accepts raw (v, r) = (claims : Claims) → r ≡ ok claims → IsAccepted raw v claims

  verified-Accepts :
      (raw kid : String) (r : Verifier jwt tm × Result String jwt.Key)
      → jwt.header raw ≡ some (true, kid)
      → Cached kid r
      → Accepts raw (verified raw r)
  unfolding verified
  verified-Accepts raw kid (v, err e) h c = λ claims q. absurd cc
  verified-Accepts raw kid (v, ok key) h c =
      option_case (Accepts raw) (jwt.verify raw key) _ _ (λ e claims q. absurd cc)
        (λ found e claims q.
          let (same, issued, meant) = check_claims-ok v found claims q in
          record {
            kid = kid;
            key = key;
            by_rsa = h;
            cached = c key refl;
            signed = e ∙ ap some same;
            issued = rw (sym same) issued;
            meant = rw (sym same) meant;
          })

  -- Whatever a fetch of the key document would give, a token that `Parse` accepts is signed by RSA,
  -- verifies under the key that the verifier then holds for the token's key id, and its claims name
  -- the configured issuer and audience, where these are configured.
  pub parse-IsAccepted :
      (raw : String) (o : Outside tm) (v : Verifier jwt tm) (claims : Claims)
      → (parse raw o v).1 ≡ ok claims
      → IsAccepted raw (parse raw o v).0 claims
  unfolding parse
  parse-IsAccepted raw o v =
      option_case (Accepts raw) (jwt.header raw) _ _ (λ e claims q. absurd cc)
        (λ h e.
          if_case (Accepts raw) h.0 _ _
            (λ b.
              verified-Accepts raw h.1 (key_for h.1 o v) (e ∙ ap (λ b. some (b, h.1)) b)
                (key_for-Cached h.1 o v))
            (λ b claims q. absurd cc))

  -- what a call may do to the verifier: nothing, or, when the rate limit allows a fetch, put the
  -- usable keys of the fetched document, of which there is one at least, in place of all that it held
  pub data Moves (o : Outside tm) (v : Verifier jwt tm) : Verifier jwt tm → Type 0 where
    kept : Moves o v v
    replaced :
        (doc : List Jwk) (k : String × jwt.Key) (next : Assoc String jwt.Key)
        → too_soon o.now v ≡ false
        → o.fetched ≡ ok doc
        → usable_keys jwt doc [] ≡ k ∷ next
        → Moves o v (record v { keys = k ∷ next; last_fetch = o.now })

  replace_keys-Moves :
      (o : Outside tm) (v : Verifier jwt tm) (doc : List Jwk) (next : Assoc String jwt.Key)
      → too_soon o.now v ≡ false
      → o.fetched ≡ ok doc
      → usable_keys jwt doc [] ≡ next
      → Moves o v (replace_keys o.now next v).0
  unfolding replace_keys
  replace_keys-Moves o v doc [] s f u = kept
  replace_keys-Moves o v doc (k ∷ next) s f u = replaced doc k next s f u

  refresh-Moves : (o : Outside tm) (v : Verifier jwt tm) → Moves o v (refresh o v).0
  unfolding refresh
  refresh-Moves o v =
      if_case (λ (r : Verifier jwt tm × Option String). Moves o v r.0) (too_soon o.now v) _ _
        (λ b. kept)
        (λ b.
          result_case (λ (r : Verifier jwt tm × Option String). Moves o v r.0) o.fetched _ _
            (λ e q. kept) (λ doc q. replace_keys-Moves o v doc _ b q refl))

  look_again-fst : (kid : String) (r : Verifier jwt tm × Option String) → (look_again kid r).0 ≡ r.0
  unfolding look_again
  look_again-fst kid (v, some e) = refl
  look_again-fst kid (v, none) = ground arith

  -- Looking up a key either leaves the verifier as it is or, for an id that is not cached and when
  -- the rate limit allows a fetch, replaces all its keys by the usable ones of the fetched document,
  -- of which there is one at least; so a failed fetch, or one without usable keys, loses no key.
  pub key_for-Moves :
      (kid : String) (o : Outside tm) (v : Verifier jwt tm)
      → Moves o v (key_for kid o v).0
        × ((key : jwt.Key) → lookup kid v.keys ≡ some key → key_for kid o v ≡ (v, ok key))
  unfolding key_for
  key_for-Moves kid o v = (
    option_case (λ (r : Verifier jwt tm × Result String jwt.Key). Moves o v r.0) (lookup kid v.keys)
        _ _ (λ e. rw (look_again-fst kid (refresh o v)) (refresh-Moves o v)) (λ k e. kept),
    λ key e. ground (arith, e),
  )

-- ===== src/Platform/Verifier.antt =====
-- platform/auth/jwks.go: the cached keys of the session service, and the tokens they verify.
mod Laws
mod Tests
use pegasus_suite.Prelude.{
  String, Bool, true, false, not, ◌&&◌, ◌||◌, Option, none, some, List, [], ◌∷◌, if◌then◌else◌,
  str_eq, ltb, length,
}
use pegasus_suite.Prelude.Assoc.{Assoc, lookup, insert, string_eq}
use pegasus_suite.Prelude.Int.{ℤ, lt_ℤ}
use pegasus_suite.Prelude.Time.{GoTime}
use pegasus_suite.Clients.{Result, ok, err}
use pegasus_suite.Platform.Claims.{Claims, one_of}

-- golang-jwt, and the decoding of base64 and of the numbers of a key: of a token, whether its method is
-- RSA and its key id, if it is well formed; its claims if a key verifies it
pub record Jwt : Type 1 where
  pub Key : Type 0
  pub header : String → Option (Bool × String)
  pub verify : String → Key → Option Claims
  pub rsa_key : String → String → Option Key

-- one key of the document that the service publishes
pub record Jwk : Type 0 where
  pub kty : String
  pub kid : String
  pub n : String
  pub e : String

pub record Verifier (jwt : Jwt) (tm : GoTime) : Type 0 where
  pub min_wait : ℤ
  pub issuer : String
  pub audience : String
  pub keys : Assoc String jwt.Key
  pub last_fetch : tm.Time

-- `time.Now()`, and what a fetch of the URL made now gives: an error, or the keys of its document
pub record Outside (tm : GoTime) : Type 0 where
  pub now : tm.Time
  pub fetched : Result String (List Jwk)

-- the loop of `refresh` over the keys of the document
unfoldable pub usable_keys : (jwt : Jwt) → List Jwk → Assoc String jwt.Key → Assoc String jwt.Key
usable_keys jwt [] next = next
usable_keys jwt (k ∷ rest) next =
    let skipped = usable_keys jwt rest next in
    if not (str_eq k.kty "RSA") then skipped else elim (jwt.rsa_key k.n k.e) [
      | none ↦ skipped
      | some key ↦ usable_keys jwt rest (insert k.kid key next)
    ]

module _ {jwt : Jwt} {tm : GoTime} where
  unfoldable pub too_soon : tm.Time → Verifier jwt tm → Bool
  too_soon now v = lt_ℤ (tm.sub now v.last_fetch) v.min_wait && ltb 0 (length v.keys)

  -- the end of `refresh`, with the keys that it found
  unfoldable pub replace_keys :
      tm.Time → Assoc String jwt.Key → Verifier jwt tm → Verifier jwt tm × Option String
  replace_keys now [] v = (v, some "no usable RSA keys in document")
  replace_keys now (k ∷ next) v = (record v { keys = k ∷ next; last_fetch = now }, none)

  unfoldable pub refresh : Outside tm → Verifier jwt tm → Verifier jwt tm × Option String
  refresh o v = if too_soon o.now v then (v, none) else elim o.fetched [
    | err e ↦ (v, some e)
    | ok doc ↦ replace_keys o.now (usable_keys jwt doc []) v
  ]

  -- the second look-up of `keyFor`
  unfoldable pub look_again :
      String → Verifier jwt tm × Option String → Verifier jwt tm × Result String jwt.Key
  look_again kid (v, some e) = (v, err e)
  look_again kid (v, none) = elim (lookup kid v.keys) [
    | none ↦ (v, err "jwks: unknown kid")
    | some key ↦ (v, ok key)
  ]

  unfoldable pub key_for :
      String → Outside tm → Verifier jwt tm → Verifier jwt tm × Result String jwt.Key
  key_for kid o v = elim (lookup kid v.keys) [
    | some key ↦ (v, ok key)
    | none ↦ look_again kid (refresh o v)
  ]

  -- the tests of `Parse` on the claims of a verified token
  unfoldable pub check_claims : Verifier jwt tm → Claims → Result String Claims
  check_claims v claims =
      if not (str_eq v.issuer "") && not (str_eq claims.issuer v.issuer)
      then err "unexpected issuer"
      else if not (str_eq v.audience "") && not (one_of v.audience claims.audience)
      then err "unexpected audience"
      else ok claims

  -- `Parse` once the key is found
  unfoldable pub verified :
      String → Verifier jwt tm × Result String jwt.Key → Verifier jwt tm × Result String Claims
  verified raw (v, err e) = (v, err e)
  verified raw (v, ok key) = elim (jwt.verify raw key) [
    | none ↦ (v, err "invalid token")
    | some claims ↦ (v, check_claims v claims)
  ]

  unfoldable pub parse :
      String → Outside tm → Verifier jwt tm → Verifier jwt tm × Result String Claims
  parse raw o v = elim (jwt.header raw) [
    | none ↦ (v, err "malformed token")
    | some (is_rsa, kid) ↦
        if is_rsa then verified raw (key_for kid o v) else (v, err "unexpected signing method")
  ]

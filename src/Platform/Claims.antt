-- ===== src/Platform/Claims.antt =====
-- platform/auth/claims.go, and the guards of platform/auth/middleware.go. A nil `*Claims` is `none`.
use Prim.Native.String
use pegasus_suite.Prelude.{
  ℕ, String, Bool, true, false, Option, none, some, List, [], ◌∷◌, if◌then◌else◌, str_eq,
}
use pegasus_suite.Clients.{Result, ok, err}

-- `Claims`; subject, issuer and audience are those of `jwt.RegisteredClaims`
pub record Claims : Type 0 where
  pub username : String
  pub roles : List String
  pub subject : String
  pub issuer : String
  pub audience : List String

-- a text among others: the loops of `HasRole` and of the audience test of `Verifier.Parse`
unfoldable pub one_of : String → List String → Bool
one_of s [] = false
one_of s (t ∷ rest) = if str_eq t s then true else one_of s rest

unfoldable pub user_id : Option Claims → String
user_id none = ""
user_id (some c) = c.subject

unfoldable pub has_role : String → Option Claims → Bool
has_role role none = false
has_role role (some c) = one_of role c.roles

unfoldable pub is_admin : Option Claims → Bool
is_admin c = has_role "admin" c

-- what the middleware answers with a status and a message, or lets through
pub data Guarded : Type 0 where
  refused : ℕ → String → Guarded
  passed : Claims → Guarded

-- `RequireAuth`. The first argument says whether there is a verifier, the second is the bearer token
-- of the Authorization header (none without the prefix "Bearer "), the third what `Parse` makes of it.
unfoldable pub require_auth : Bool → Option String → (String → Result String Claims) → Guarded
require_auth false token parse = refused 503 "auth not configured"
require_auth true none parse = refused 401 "missing bearer token"
require_auth true (some raw) parse = elim (parse raw) [
  | err e ↦ refused 401 "invalid token"
  | ok claims ↦ passed claims
]

-- what `RequireRole` adds behind `RequireAuth`
unfoldable pub check_role : String → Guarded → Guarded
check_role role (refused status message) = refused status message
check_role role (passed claims) =
    if has_role role (some claims)
    then passed claims
    else refused 403 (String.◌++◌ "role required: " role)

unfoldable pub require_role :
    Bool → String → Option String → (String → Result String Claims) → Guarded
require_role configured role token parse = check_role role (require_auth configured token parse)

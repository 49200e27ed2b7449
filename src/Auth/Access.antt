-- ===== src/Auth/Access.antt =====
-- The rest of api/src/middleware/requireAuth.ts, the header and the roles, and `ttlToSeconds` of
-- api/src/auth/tokens.ts.
use Prim.Native.String.{[], ◌∷◌}
use Prim.Native.Char.{code}
use flashkart.Base.{
  ℕ, ◌+◌, ◌-◌, ◌*◌, Bool, true, false, String, Option, none, some, List, str_eq, leb, ◌==◌, ◌&&◌,
  ◌||◌, if◌then◌else◌,
}
use mathlib.Core.List.{[] as nil, ◌∷◌ as cons}
use flashkart.Shared.Events.{Role, role_eq}
use flashkart.Shared.Failures
use flashkart.Runtime.{Result, ok, err, app}

-- The first two parts of `h.split(" ")`, the second being missing in a text without a space.
abbrev pub until_space : String → String
until_space [] = []
until_space (c ∷ s) = if code c == 32 then [] else c ∷ until_space s

abbrev pub after_space : String → Option String
after_space [] = none
after_space (c ∷ s) = if code c == 32 then some (until_space s) else after_space s

abbrev pub nonempty : Option String → Option String
nonempty none = none
nonempty (some s) = if str_eq s "" then none else some s

-- `extractBearer`, on the header `Authorization`.
abbrev pub extract_bearer : Option String → Option String
extract_bearer none = none
extract_bearer (some h) = if str_eq (until_space h) "Bearer" then nonempty (after_space h) else none

abbrev pub includes : List Role → Role → Bool
includes nil r = false
includes (cons x xs) r = role_eq x r || includes xs r

-- `requireRole(...roles)`, on `req.user`.
abbrev pub require_role : List Role → Option (String × Role) → Result (String × Role)
require_role roles none = err (app (Failures.unauthenticated "Not authenticated"))
require_role roles (some u) =
    if includes roles u.1 then ok u else err (app (Failures.forbidden "insufficient role"))

abbrev pub is_digit : ℕ → Bool
is_digit n = leb 48 n && leb n 57

-- The seconds of `s`, `m`, `h` and `d`.
abbrev pub mult : ℕ → Option ℕ
mult n =
    if n == 115
    then some 1
    else if n == 109
    then some 60
    else if n == 104
    then some 3600
    else if n == 100
    then some 86400
    else none

abbrev pub times : ℕ → Option ℕ → Option ℕ
times n none = none
times n (some k) = some (n * k)

-- The rest of the text, with the number of the digits before, if there was any.
abbrev pub ttl_from : ℕ → Bool → String → Option ℕ
ttl_from n seen [] = none
ttl_from n seen (c ∷ s) =
    if is_digit (code c)
    then ttl_from (n * 10 + (code c - 48)) true s
    else if seen && str_eq s ""
    then times n (mult (code c))
    else none

-- `ttlToSeconds`, `none` where it throws.
abbrev pub ttl_to_seconds : String → Option ℕ
ttl_to_seconds ttl = ttl_from 0 false ttl

-- ===== src/Config.antt =====
-- api/src/db/mongo.ts, `redactUri`: what the api logs of the Mongo URI.
pub mod Secrecy
use Prim.Native.String.{[], ◌∷◌}
use Prim.Native.Char.{Char, char, code}
use flashkart.Base.{ℕ, Bool, true, false, String, Option, none, some, ◌==◌, if◌then◌else◌}

abbrev pub slash : Char
slash = char 47 tt

abbrev pub colon : Char
colon = char 58 tt

abbrev pub at_sign : Char
at_sign = char 64 tt

abbrev pub star : Char
star = char 42 tt

abbrev push : Char → Option (String × String) → Option (String × String)
push c none = none
push c (some (before, after)) = some (c ∷ before, after)

-- The text before the first character with that code, and the text after it.
unfoldable pub split_at : ℕ → String → Option (String × String)
split_at n [] = none
split_at n (c ∷ s) = let rest = split_at n s in if code c == n then some ([], s) else push c rest

-- `([^:]+):` and `([^@]+)@`, where at least one character is wanted.
abbrev pub nonempty : Option (String × String) → Option (String × String)
nonempty (some ([], after)) = none
nonempty r = r

abbrev pub append : String → String → String
append [] t = t
append (c ∷ s) t = c ∷ append s t

-- `//$1:***@` and the rest.
abbrev pub with_stars : String → Option (String × String) → Option String
with_stars user none = none
with_stars user (some (password, rest)) =
    some (slash ∷ slash ∷ append user (colon ∷ star ∷ star ∷ star ∷ at_sign ∷ rest))

abbrev pub with_password : Option (String × String) → Option String
with_password none = none
with_password (some (user, after)) = with_stars user (nonempty (split_at 64 after))

-- The match of the expression after `//`, if there is one.
unfoldable pub match_after : String → Option String
match_after s = with_password (nonempty (split_at 58 s))

abbrev pub or_else : Option String → String → String
or_else none s = s
or_else (some r) s = r

-- `uri.replace(/\/\/([^:]+):([^@]+)@/, "//$1:***@")`: the first place where the expression matches.
unfoldable pub redact_uri : String → String
unfolding match_after
redact_uri [] = []
redact_uri (c ∷ []) = c ∷ []
redact_uri (c ∷ d ∷ s) =
    let later = redact_uri (d ∷ s) in
    if code c == 47
    then (if code d == 47 then or_else (match_after s) (c ∷ later) else c ∷ later)
    else c ∷ later

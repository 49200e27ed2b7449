-- ===== src/Config/Secrecy.antt =====
-- The password of the Mongo URI does not reach the log.
use Prim.Native.String.{[], ◌∷◌}
use Prim.Native.Char.{Char, code}
use mathlib.Core.List.{[] as nil, ◌∷◌ as cons}
use flashkart.Base.{ℕ, ◌≡◌, ◌≢◌, refl, ap, ◌∙◌, String, some, List, All, ==_iff, ≢→==}
use flashkart.Config.{
  slash, colon, at_sign, star, split_at, nonempty, append, with_stars, with_password, match_after,
  or_else, redact_uri,
}

-- Characters before a text.
abbrev pub before : List Char → String → String
before nil s = s
before (cons c cs) s = c ∷ before cs s

abbrev pub Without : ℕ → List Char → Type 0
Without n = All (λ c. code c ≢ n)

split_at-before :
    (n : ℕ) (cs : List Char) (d : Char) (s : String)
    → Without n cs
    → code d ≡ n
    → split_at n (before cs (d ∷ s)) ≡ some (before cs [], s)
unfolding split_at
split_at-before n nil d s h e = rw ((==_iff (code d) n).1 e) refl
split_at-before n (cons c cs) d s h e =
    rw (≢→== (code c) n h.0, split_at-before n cs d s h.1 e) refl

append-before : (cs : List Char) (s : String) → append (before cs []) s ≡ before cs s
append-before nil s = refl
append-before (cons c cs) s = ap (λ t. c ∷ t) (append-before cs s)

-- `//user:password@rest`
abbrev credentials : List Char → List Char → String → String
credentials user password rest =
    slash ∷ slash ∷ before user (colon ∷ before password (at_sign ∷ rest))

match_after-credentials :
    (u : Char) (user : List Char) (p : Char) (password : List Char) (rest : String)
    → Without 58 (cons u user)
    → Without 64 (cons p password)
    → match_after (before (cons u user) (colon ∷ before (cons p password) (at_sign ∷ rest)))
      ≡ some (slash ∷ slash ∷ before (cons u user) (colon ∷ star ∷ star ∷ star ∷ at_sign ∷ rest))
unfolding match_after
match_after-credentials u user p password rest hu hp =
    ap (λ r. with_password (nonempty r))
      (split_at-before 58 (cons u user) colon (before (cons p password) (at_sign ∷ rest)) hu refl)
    ∙ ap (λ r. with_stars (before (cons u user) []) (nonempty r))
        (split_at-before 64 (cons p password) at_sign rest hp refl)
    ∙ ap (λ t. some (slash ∷ slash ∷ t)) (append-before (cons u user) _)

redact_uri-skip : (c : Char) (s : String) → code c ≢ 47 → redact_uri (c ∷ s) ≡ c ∷ redact_uri s
unfolding redact_uri
redact_uri-skip c [] h = refl
redact_uri-skip c (d ∷ s) h = rw (≢→== (code c) 47 h) refl

-- A URI with a scheme without a slash, a user without a colon, and a password without an at sign,
-- neither of them empty, is logged with three stars in place of the password, and else as it is.
pub redact_uri-credentials :
    (scheme : List Char) (u : Char) (user : List Char) (p : Char) (password : List Char)
    (rest : String)
    → Without 47 scheme
    → Without 58 (cons u user)
    → Without 64 (cons p password)
    → redact_uri (before scheme (credentials (cons u user) (cons p password) rest))
      ≡ before scheme (credentials (cons u user) (cons star (cons star (cons star nil))) rest)
unfolding redact_uri
redact_uri-credentials nil u user p password rest hs hu hp =
    ap
      (λ r. or_else r (
        slash
        ∷ redact_uri
            (slash ∷ before (cons u user) (colon ∷ before (cons p password) (at_sign ∷ rest)))))
      (match_after-credentials u user p password rest hu hp)
redact_uri-credentials (cons c scheme) u user p password rest hs hu hp =
    redact_uri-skip c (before scheme (credentials (cons u user) (cons p password) rest)) hs.0
    ∙ ap (λ t. c ∷ t) (redact_uri-credentials scheme u user p password rest hs.1 hu hp)

-- ===== src/Tests/Logs.antt =====
-- The Mongo URI of the compose file's kind, as it is logged.
use mathlib.Core.List.{[] as nil, ◌∷◌ as cons}
use flashkart.Base.{◌≡◌, arith}
use flashkart.Config.{redact_uri}
use flashkart.Config.Secrecy.{redact_uri-credentials}

redact_uri-credentials_example : redact_uri "db://me:key@host" ≡ "db://me:***@host"
redact_uri-credentials_example =
    redact_uri-credentials (cons "d" (cons "b" (cons ":" nil))) "m" (cons "e" nil) "k"
      (cons "e" (cons "y" nil)) "host" (omega arith, (omega arith, (omega arith, tt)))
      (omega arith, (omega arith, tt)) (omega arith, (omega arith, (omega arith, tt)))

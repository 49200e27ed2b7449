-- ===== src/Api/Work.antt =====
-- The whole system: requests that come in through Express, and the jobs and timers beside them.
use flashkart.Runtime.{Proc, ret, ◌>>=◌}
use flashkart.Routes.Gate.{Site, inside}
use flashkart.System
use flashkart.System.{Outcome}
use flashkart.Api.{Request, Response, Host, serve}

pub data Work (Token : Type 0) : Type 0 where
  request : Request Token → Work Token
  job : System.Request → Work Token

pub data Answer (Token : Type 0) : Type 0 where
  replied : Response Token → Answer Token
  finished : Outcome → Answer Token

module _ {Token : Type 0} (h : Host Token) where
  abbrev pub perform : Work Token → Proc Site (Answer Token)
  perform (request r) = serve h r >>= λ x. ret (replied x)
  perform (job j) = inside (System.serve h.mongoose j) >>= λ o. ret (finished o)

-- ===== src/Web/Session.antt =====
-- web/src/App.tsx, the requests of the page: the session, `apiFetch`, the loading of products and
-- orders, and `AuthPanel`. The network with the api behind it is the parameter `fetch`.
use flashkart.Base.{
  ℕ, Bool, true, false, String, Option, none, some, List, [], ◌∷◌, str_eq, leb, ltb, ◌==◌, ◌&&◌,
  if◌then◌else◌,
}
use flashkart.Runtime.{Proc, ret, throw, act, Tick, Result, Err, lift, try_catch, ◌>>=◌}
use flashkart.Web.{Client, Me, Product, OrderRow, subscribe_orders, sign_in, sign_out}

pub data Endpoint : Type 0 where
  refresh : Endpoint
  logout : Endpoint
  products : Endpoint
  my_orders : Endpoint
  -- The product, and the `Idempotency-Key`.
  buy : String → String → Endpoint
  -- Mail address, name and password.
  register : String → String → String → Endpoint
  login : String → String → Endpoint

-- A request, with the token of its `Authorization` header.
pub record Call : Type 0 where
  pub endpoint : Endpoint
  pub bearer : Option String

-- What the page reads of a parsed body. The fields that it reads without a default are there in
-- every body, as they are in the api's replies that it reads them from.
pub record Json : Type 0 where
  pub access_token : Option String
  pub user : Option Me
  pub products : Option (List Product)
  pub orders : Option (List OrderRow)
  pub order_id : String
  pub quantity : ℕ
  pub remaining : ℕ
  pub error_message : Option String

-- A response, whose body may not parse.
pub record Response : Type 0 where
  pub status : ℕ
  pub json : Result Json

pub data Mode : Type 0 where
  logs_in registers : Mode

-- The state of the form in `AuthPanel`.
pub record Form : Type 0 where
  pub mode : Mode
  pub email : String
  pub name : String
  pub password : String
  pub form_error : Option String
  pub form_busy : Bool

-- The page, the world outside of it, and the requests that it made, the last one first.
pub record Page (Net : Type 0) : Type 0 where
  pub client : Client
  pub form : Form
  pub net : Net
  pub calls : List Call

-- `res.ok`
abbrev pub is_ok : Response → Bool
is_ok res = leb 200 res.status && ltb res.status 300

-- `x ?? []`
abbrev pub or_empty : {A : Type 0} → Option (List A) → List A
or_empty none = []
or_empty (some xs) = xs

-- `if (token)`; an empty text is falsy.
abbrev pub truthy : Option String → Option String
truthy none = none
truthy (some s) = if str_eq s "" then none else some s

-- `j?.error?.message ?? …`
abbrev pub message_or : Option String → String → String
message_or none text = text
message_or (some message) text = message

abbrev pub Script : Type 0 → Type 0 → Type 0
Script Net A = Proc (Page Net) A

module _ {Net : Type 0} where
  abbrev pub edit : (Client → Client) → Page Net → Page Net
  edit f w = record w { client = f w.client }

  -- Calls of the setters of React.
  abbrev pub update : (Client → Client) → Script Net (Unit {0})
  update f = act (λ t w. edit f w) (λ t w. ret tt)

  -- `await res.json()`
  abbrev pub parse : Response → Script Net Json
  parse res = lift res.json

  module _ (fetch : Call → Tick → Net → Result Response × Net) where
    abbrev pub sent : Call → Tick → Page Net → Page Net
    sent call t w = record w { net = (fetch call t w.net).1; calls = call ∷ w.calls }

    -- `await fetch(…)`: a response of any status, or a rejection.
    abbrev pub request : Endpoint → Script Net Response
    request e =
        let call : Call = record { endpoint = e; bearer = none } in
        act (sent call) (λ t w. lift (fetch call t w.net).0)

    abbrev pub authorized : Endpoint → Client → Call
    authorized e c = record { endpoint = e; bearer = truthy c.access_token }

    -- One request of `apiFetch`, with the token that the page has then.
    abbrev pub send : Endpoint → Script Net Response
    send e =
        act (λ t w. sent (authorized e w.client) t w)
          (λ t w. lift (fetch (authorized e w.client) t w.net).0)

    abbrev pub renewed : Endpoint → Response → Response → Script Net Response
    renewed e res r =
        if is_ok r
        then (do body ← parse r; _ ← update (sign_in body.user body.access_token); send e)
        else (do _ ← update sign_out; ret res)

    abbrev pub checked : Endpoint → Response → Script Net Response
    checked e res = if res.status == 401 then (do r ← request refresh; renewed e res r) else ret res

    -- `apiFetch`; its second attempt does not look at the status.
    abbrev pub api_fetch : Endpoint → Script Net Response
    api_fetch e = do res ← send e; checked e res

    abbrev pub signed_in : Response → Script Net (Unit {0})
    signed_in res =
        if is_ok res
        then (do body ← parse res; update (sign_in body.user body.access_token))
        else ret tt

    abbrev pub ready : Client → Client
    ready c = record c { auth_ready = true }

    -- `try { m } finally { c }`, where `c` is a call of a setter.
    abbrev pub finally : Script Net (Unit {0}) → (Client → Client) → Script Net (Unit {0})
    finally m c = do _ ← try_catch m (λ e. do _ ← update c; throw e); update c

    -- The effect that signs in from the cookie of a session before.
    unfoldable pub silent_refresh : Script Net (Unit {0})
    silent_refresh = finally (do res ← request refresh; signed_in res) ready

    abbrev pub log_out : Script Net (Unit {0})
    log_out = do _ ← request logout; update sign_out

    abbrev pub loaded : List Product → Client → Client
    loaded ps c = record c { products = ps; load_error = none }

    abbrev pub not_loaded : String → Client → Client
    not_loaded text c = record c { load_error = some text }

    abbrev pub done_loading : Client → Client
    done_loading c = record c { loading = false }

    abbrev pub listed : Client → Option String
    listed c = if c.has_socket then truthy c.access_token else none

    abbrev take_orders : Response → Script Net (Unit {0})
    take_orders res =
        if is_ok res
        then (do body ← parse res; update (λ c. record c { orders = or_empty body.orders }))
        else ret tt

    abbrev subscribed_orders : Option String → Script Net (Unit {0})
    subscribed_orders none = ret tt
    subscribed_orders (some token) = do
      _ ← update (λ c. record c { emitted = subscribe_orders token ∷ c.emitted })
      res ← api_fetch my_orders
      take_orders res

    -- The effect that follows every change of the access token.
    abbrev pub hydrate_orders : Script Net (Unit {0})
    hydrate_orders = act (λ t w. w) (λ t w. subscribed_orders (listed w.client))

    -- `String(e)`, which the language defines.
    module _ (describe : Err → String) where
      unfoldable pub load_products : Script Net (Unit {0})
      load_products =
          finally
            (try_catch
              (do
                res ← request products
                body ← parse res
                update (loaded (or_empty body.products)))
              (λ e. update (not_loaded (describe e))))
            done_loading

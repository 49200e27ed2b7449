-- ===== src/Web/Renewal.antt =====
-- `apiFetch` when the access token has expired.
use flashkart.Base.{
  ◌≡◌, refl, ap, ◌∙◌, ◌==◌, none, some, Option, String, true, false, str_eq, List, if◌then◌else◌,
  [], ◌∷◌,
}
use flashkart.Runtime.{ret, Tick, Result, ok, lift, ◌>>=◌}
use flashkart.Runtime.Pool.{run_alone, advance}
use flashkart.Web.Session.{
  Endpoint, refresh, Call, Response, Json, Page, is_ok, sent, authorized, api_fetch, checked,
  renewed, request, truthy,
}

module _ {Net : Type 0} (fetch : Call → Tick → Net → Result Response × Net) where
  abbrev pub refresh_call : Call
  refresh_call = record { endpoint = refresh; bearer = none }

  -- The request is made, and then the one for a new token.
  abbrev pub tried : Endpoint → Tick → Page Net → Page Net
  tried e t1 w = sent fetch (authorized fetch e w.client) t1 w

  abbrev pub asked : Endpoint → Tick → Tick → Page Net → Page Net
  asked e t1 t2 w = sent fetch refresh_call t2 (tried e t1 w)

  api_fetch-outcome :
      (e : Endpoint) (t1 t2 t3 t4 : Tick) (w : Page Net) (res r : Response)
      → (fetch (authorized fetch e w.client) t1 w.net).0 ≡ ok res
      → res.status ≡ 401
      → (fetch refresh_call t2 (tried e t1 w).net).0 ≡ ok r
      → run_alone (t1 ∷ t2 ∷ t3 ∷ t4 ∷ []) (api_fetch fetch e) w
        ≡ run_alone (t3 ∷ t4 ∷ []) (renewed fetch e res r) (asked e t1 t2 w)
  unfolding run_alone advance
  api_fetch-outcome e t1 t2 t3 t4 w res r first expired second =
      let later : List Tick = t2 ∷ t3 ∷ t4 ∷ [] in
      ap (λ a. run_alone later (lift a >>= checked fetch e) (tried e t1 w)) first
      ∙ ap
          (λ n.
            run_alone later
              (if n == 401 then request fetch refresh >>= renewed fetch e res else ret res)
              (tried e t1 w))
          expired
      ∙ ap (λ a. run_alone (t3 ∷ t4 ∷ []) (lift a >>= renewed fetch e res) (asked e t1 t2 w)) second

  -- The call of `e` with this token in its header.
  abbrev pub with_token : Endpoint → Option String → Call
  with_token e token = record { endpoint = e; bearer = token }

  -- When the api answers 401, and then answers the request for a new token with one that is not
  -- empty: the caller of `apiFetch` gets what the api answers to the same request with the new token
  -- in its header; these three requests are made, the page holds that token and the user who came
  -- with it, and nothing else of it changes. Meanwhile nothing else happens on the page.
  pub api_fetch-renews :
      (e : Endpoint) (t1 t2 t3 t4 : Tick) (w : Page Net) (res r : Response) (body : Json)
      (token : String)
      → (fetch (authorized fetch e w.client) t1 w.net).0 ≡ ok res
      → res.status ≡ 401
      → (fetch refresh_call t2 (tried e t1 w).net).0 ≡ ok r
      → is_ok r ≡ true
      → r.json ≡ ok body
      → body.access_token ≡ some token
      → str_eq token "" ≡ false
      → let net = (asked e t1 t2 w).net in
        let again = with_token e (some token) in
        run_alone (t1 ∷ t2 ∷ t3 ∷ t4 ∷ []) (api_fetch fetch e) w ≡ (
          lift (fetch again t4 net).0,
          record w {
            client = record w.client { me = body.user; access_token = some token };
            net = (fetch again t4 net).1;
            calls = again ∷ refresh_call ∷ with_token e (truthy w.client.access_token) ∷ w.calls;
          },
        )
  unfolding run_alone advance
  api_fetch-renews e t1 t2 t3 t4 w res r body token first expired second good parsed fresh
        nonempty =
      api_fetch-outcome e t1 t2 t3 t4 w res r first expired second
      ∙ rw (good, parsed, fresh, nonempty) refl

  -- When the api answers 401, and then anything but a success to the request for a new token, whatever
  -- its body: the caller of `apiFetch` gets the 401, no other request is made, and the page is signed
  -- out. Meanwhile nothing else happens on the page.
  pub api_fetch-gives_up :
      (e : Endpoint) (t1 t2 t3 t4 : Tick) (w : Page Net) (res r : Response)
      → (fetch (authorized fetch e w.client) t1 w.net).0 ≡ ok res
      → res.status ≡ 401
      → (fetch refresh_call t2 (tried e t1 w).net).0 ≡ ok r
      → is_ok r ≡ false
      → run_alone (t1 ∷ t2 ∷ t3 ∷ t4 ∷ []) (api_fetch fetch e) w ≡ (
        ret res,
        record w {
          client = record w.client { me = none; access_token = none };
          net = (asked e t1 t2 w).net;
          calls = refresh_call ∷ with_token e (truthy w.client.access_token) ∷ w.calls;
        },
      )
  unfolding run_alone advance
  api_fetch-gives_up e t1 t2 t3 t4 w res r first expired second bad =
      api_fetch-outcome e t1 t2 t3 t4 w res r first expired second ∙ rw bad refl

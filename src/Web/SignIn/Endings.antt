-- ===== src/Web/SignIn/Endings.antt =====
-- The end of `submit` of `AuthPanel`.
use flashkart.Base.{◌+◌, ◌≤◌, ◌≡◌, refl, false, String, List, [], ◌∷◌, length, arith}
use flashkart.Runtime.{Tick, Result, Err, try_catch}
use flashkart.Runtime.Pool.{run_alone, advance}
use flashkart.Runtime.Finishing.{
  Frugal, returns, throws, acts, Calm, Calm-try_catch, Frugal-bind, Frugal-try_catch, Frugal-lift,
  Frugal-if, Finished, run_alone-finishes,
}
use flashkart.Web.{sign_in}
use flashkart.Web.Session.{
  Form, Mode, logs_in, registers, login, register, Call, Response, Page, is_ok,
}
use flashkart.Web.Requests.{requests, request-Frugal, update-Frugal}
use flashkart.Web.SignIn.{
  fill, insist, registering, signing_in, report, submit, begin_submit, end_submit,
}

module _ {Net : Type 0} where
  fill-Frugal : (f : Form → Form) → Frugal {W = Page Net} requests 1 0 (fill f)
  fill-Frugal f =
      acts {n = 0} {d = 0} 0 (omega arith) (omega arith) (λ t w. omega arith) (λ t w. returns)

  insist-Frugal :
      (what : String) (r : Response) → Frugal {W = Page Net} requests 0 0 (insist what r)
  insist-Frugal what r = Frugal-if (is_ok r) returns throws

  module _ (fetch : Call → Tick → Net → Result Response × Net) (describe : Err → String) where
    registering-Frugal :
        (mode : Mode) (form : Form) → Frugal requests 1 1 (registering fetch describe mode form)
    registering-Frugal logs_in form = returns
    registering-Frugal registers form =
        Frugal-bind (omega arith) (omega arith)
          (request-Frugal fetch (register form.email form.name form.password))
          (insist-Frugal "register")

    signing_in-Frugal : (form : Form) → Frugal requests 3 2 (signing_in fetch describe form)
    signing_in-Frugal form =
        Frugal-bind {n' = 2} {d' = 1} (omega arith) (omega arith)
          (registering-Frugal form.mode form)
          λ _.
            Frugal-bind {n' = 1} {d' = 0} (omega arith) (omega arith)
              (request-Frugal fetch (login form.email form.password))
              λ r.
                Frugal-bind {n' = 1} {d' = 0} (omega arith) (omega arith) (insist-Frugal "login" r)
                  λ _.
                    Frugal-bind {n = 0} {n' = 1} {d = 0} {d' = 0} (omega arith) (omega arith)
                      (Frugal-lift r.json)
                      (λ body. update-Frugal (sign_in body.user body.access_token))

    -- Whatever the network answers, `submit` has returned after seven commands at most, the form is not
    -- busy then, and at most two requests were made. Meanwhile nothing else happens on the page.
    pub submit-finishes :
        (ts : List Tick) (w : Page Net)
        → 7 ≤ length ts
        → Finished requests
            (λ w'. w'.form.form_busy ≡ false)
            (requests w + 2)
            (run_alone ts (submit fetch describe) w)
    unfolding submit run_alone advance
    submit-finishes [] w le = absurd (omega arith)
    submit-finishes (t ∷ []) w le = absurd (omega arith)
    submit-finishes (t ∷ t' ∷ ts) w le =
        run_alone-finishes requests (λ w'. w'.form.form_busy ≡ false)
          (λ t w. record w { form = end_submit w.form }) (λ t w. (refl, omega arith))
          (try_catch (signing_in fetch describe w.form) (report fetch describe)) ts
          (record w { form = begin_submit w.form })
          (Calm-try_catch (signing_in fetch describe w.form) (report fetch describe)
            (λ e. Calm.acts (λ t w. Calm.returns)))
          (Frugal-try_catch {n = 3} {n' = 1} {m = 4} {d = 2} {d' = 0} {e = 2} (omega arith)
            (omega arith) (signing_in-Frugal w.form) (λ e. fill-Frugal _))
          (omega arith)

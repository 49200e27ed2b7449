-- ===== src/Web/SignIn.antt =====
-- web/src/App.tsx, `submit` of `AuthPanel`.
pub mod Endings
use Prim.Native.String.{◌++◌ as concat}
use flashkart.Base.{ℕ, Bool, true, false, String, Option, none, some, decimal, if◌then◌else◌}
use flashkart.Runtime.{Tick, Result, ok, err, Err, error, ret, throw, act, try_catch, ◌>>=◌}
use flashkart.Web.{sign_in}
use flashkart.Web.Session.{
  Form, Mode, logs_in, registers, Endpoint, register, login, Call, Response, Json, Page, Script,
  update, request, is_ok, parse, message_or,
}

abbrev pub begin_submit : Form → Form
begin_submit f = record f { form_busy = true; form_error = none }

abbrev pub set_form_error : String → Form → Form
set_form_error text f = record f { form_error = some text }

abbrev pub end_submit : Form → Form
end_submit f = record f { form_busy = false }

-- `j?.error?.message` of `r.json().catch(() => ({}))`
abbrev pub error_of : Result Json → Option String
error_of (ok body) = body.error_message
error_of (err e) = none

-- `login failed (401)`
abbrev pub failure : String → ℕ → String
failure what status = concat what (concat " failed (" (decimal status ")"))

module _ {Net : Type 0} where
  abbrev pub fill : (Form → Form) → Script Net (Unit {0})
  fill f = act (λ t w. record w { form = f w.form }) (λ t w. ret tt)

  abbrev pub insist : String → Response → Script Net (Unit {0})
  insist what r =
      if is_ok r
      then ret tt
      else throw (error (message_or (error_of r.json) (failure what r.status)))

  module _ (fetch : Call → Tick → Net → Result Response × Net) (describe : Err → String) where
    -- `err instanceof Error ? err.message : String(err)`
    abbrev pub caught : Err → String
    caught (error message) = message
    caught e = describe e

    abbrev pub registering : Mode → Form → Script Net (Unit {0})
    registering logs_in form = ret tt
    registering registers form = do
      r ← request fetch (register form.email form.name form.password)
      insist "register" r

    abbrev pub signing_in : Form → Script Net (Unit {0})
    signing_in form = do
      _ ← registering form.mode form
      r ← request fetch (login form.email form.password)
      _ ← insist "login" r
      body ← parse r
      update (sign_in body.user body.access_token)

    abbrev pub report : Err → Script Net (Unit {0})
    report e = fill (set_form_error (caught e))

    abbrev pub submitting : Form → Script Net (Unit {0})
    submitting form = do
      _ ← fill begin_submit
      _ ← try_catch (signing_in form) report
      fill end_submit

    unfoldable pub submit : Script Net (Unit {0})
    submit = act (λ t w. w) (λ t w. submitting w.form)

-- ===== src/Tests/Setup.antt =====
-- A small shop: a catalog of one product with two units, one user, and the third parties made
-- concrete: an ObjectId is spelled by that many letters, a token is the record of what was signed.
use Prim.Native.String.{[], ◌∷◌, count}
use text.Mathlib.TextLemmas.{length-nil, length-cons}
use flashkart.Base.{
  ℕ, zero, suc, ◌≡◌, ap, ◌∙◌, true, false, String, some, none, ◌==◌, if◌then◌else◌,
}
use mathlib.Core.List.{[] as nil, ◌∷◌ as cons}
use flashkart.Shared.Events.{Role}
use flashkart.Runtime.{Tick}
use flashkart.Store.{Mongoose, Product, User, World}

abbrev pub spell : ℕ → String
spell zero = []
spell (suc n) = "a" ∷ spell n

pub count-spell : (n : ℕ) → count (spell n) ≡ n
count-spell zero = length-nil
count-spell (suc n) = length-cons "a" (spell n) ∙ ap suc (count-spell n)

abbrev pub mongoose : Mongoose
mongoose = record {
  object_id = λ s. some (count s);
  is_valid_object_id = λ s. true;
  to_hex = spell;
  object_id-to_hex = λ n. ap some (count-spell n);
}

abbrev pub ticket : Product
ticket = record { name = "ticket"; price_paise = 9900; stock = 2; active = true }

abbrev pub ada : User
ada = record {
  id = 3;
  email = "ada@example.com";
  name = "Ada";
  password_hash = "";
  role = Role.buyer;
  active = true;
}

abbrev pub shop : World
shop = record {
  stock = λ key. none;
  products = λ id. if id == 7 then some ticket else none;
  reservations = nil;
  orders = nil;
  stock_events = nil;
  order_events = nil;
  process_jobs = nil;
  fulfill_jobs = nil;
  notify_jobs = nil;
  sessions = λ user family. none;
  users = cons ada nil;
  idem = λ key. none;
  sweeper_stopped = false;
  sweeper_inflight = false;
}

-- A command at a time, that succeeds, with a value for what it makes up.
abbrev pub at : ℕ → ℕ → Tick
at now fresh = record { now = now; fault = false; fresh = fresh; random = 500000 }

-- A command that fails.
abbrev pub down : ℕ → Tick
down now = record { now = now; fault = true; fresh = 0; random = 0 }

-- ===== src/Routes/Checkout.antt =====
-- api/src/routes/products.ts, the handlers of `POST /:id/buy` and `POST /:id/reserve` as a whole:
-- what they check first, and the idempotency key. The quantity is the number that zod coerced.
pub mod Guarantees
pub mod Accounting
pub mod Once
use Prim.Native.String.{[], ◌∷◌, ◌++◌ as concat, count}
use Prim.Native.Char.{Char, code}
use flashkart.Base.{
  ℕ, Bool, true, false, String, Option, none, some, leb, ◌==◌, ◌&&◌, ◌||◌, if◌then◌else◌,
}
use flashkart.Shared.Failures
use flashkart.Shared.Replies.{Reply}
use flashkart.Runtime.{ret, throw, app, ◌>>=◌}
use flashkart.Store.{Mongoose, Action}
use flashkart.Idempotency.{IdemResult, with_idempotency}
use flashkart.Routes.Products.{do_purchase, do_reserve}

abbrev pub max_quantity : ℕ
max_quantity = 10

unfoldable pub valid_quantity : ℕ → Bool
valid_quantity quantity = leb 1 quantity && leb quantity max_quantity

abbrev pub between : ℕ → ℕ → ℕ → Bool
between low high n = leb low n && leb n high

-- `[a-zA-Z0-9_-]`, by the codes of the characters.
unfoldable pub key_char : Char → Bool
key_char c =
    between 97 122 (code c)
    || between 65 90 (code c)
    || between 48 57 (code c)
    || code c == 95
    || code c == 45

unfoldable pub key_chars : String → Bool
unfolding key_char
key_chars [] = true
key_chars (c ∷ s) = key_char c && key_chars s

-- `IDEM_KEY_RE`
unfoldable pub valid_key : Option String → Bool
unfolding key_chars
valid_key none = true
valid_key (some raw) = between 8 128 (count raw) && key_chars raw

-- The key of a kind of request, its user and its product.
abbrev pub idem_key : String → String → String → String → String
idem_key kind user_id id raw =
    concat kind (concat ":" (concat user_id (concat ":" (concat id (concat ":" raw)))))

abbrev pub fresh_reply : Reply → IdemResult
fresh_reply r = record { replayed = false; value = r }

-- With a key, at most once; else always. `replayed` is the header `Idempotent-Replay`.
unfoldable pub keyed : (String → String) → Option String → Action Reply → Action IdemResult
keyed key none fn = fn >>= (λ r. ret (fresh_reply r))
keyed key (some raw) fn = with_idempotency (key raw) fn

module _ (m : Mongoose) where
  unfoldable pub validated : String → ℕ → Option String → Action IdemResult → Action IdemResult
  unfolding valid_quantity valid_key
  validated id quantity raw_key handler =
      if m.is_valid_object_id id
      then (if valid_quantity quantity
          then (if valid_key raw_key
              then handler
              else throw (app (Failures.bad_request "invalid Idempotency-Key")))
          else throw (app (Failures.bad_request "invalid quantity")))
      else throw (app (Failures.bad_request "invalid product id"))

  unfoldable pub buy : String → String → ℕ → Option String → Action IdemResult
  unfolding validated keyed
  buy user_id id quantity raw_key =
      validated id quantity raw_key
        (keyed (idem_key "buy" user_id id) raw_key (do_purchase m user_id id quantity))

  unfoldable pub reserve : String → String → ℕ → Option String → Action IdemResult
  unfolding validated keyed
  reserve user_id id quantity raw_key =
      validated id quantity raw_key
        (keyed (idem_key "reserve" user_id id) raw_key (do_reserve m user_id id quantity))

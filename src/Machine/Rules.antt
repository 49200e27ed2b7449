-- ===== src/Machine/Rules.antt =====
-- The rules for functions whose commands only make changes of the machine.
use flashkart.Base.{ℕ, Option, none, some}
use flashkart.Runtime.{Tick, Err, act, fallible}
use flashkart.Runtime.Guarantee.{Always, throws, Guar-fallible, Guar-local}
use flashkart.Store.{Mongoose, World, Action, cast}
use flashkart.Machine.{Change, keeps}

abbrev pub Lawful : Mongoose → {A : Type 0} → Action A → Type 0
Lawful m f = Always (Change m) f

pub Lawful-command :
    {m : Mongoose}
    → {A : Type 0} (e : Err) (f : Tick → World → A × World)
    → ((t : Tick) (w : World) → Change m w (f t w).1)
    → Lawful m (fallible e f)
Lawful-command e f h = Guar-fallible e f (λ w. keeps) h

pub Lawful-read :
    {m : Mongoose}
    → {A : Type 0} {k : Tick → World → Action A} → ((t : Tick) (w : World) → Lawful m (k t w))
    → Lawful m (act (λ t w. w) k)
Lawful-read h = Guar-local (λ w. keeps) h

pub Lawful-cast :
    {m : Mongoose}
    → {A : Type 0} {f : ℕ → Action A} (o : Option ℕ) → ((n : ℕ) → Lawful m (f n))
    → Lawful m (cast o f)
Lawful-cast none h = throws
Lawful-cast (some n) h = h n

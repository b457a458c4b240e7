-- ===== src/Receiver/Goes.antt =====
-- Blocks that take the database from one property to another.
use sage_wiki_bridge_wxo.Base.{◌≡◌, refl, Bool, true, false, if◌then◌else◌}
use sage_wiki_bridge_wxo.Error.{Result, ok, err}
use sage_wiki_bridge_wxo.Exec.{Exec, ◌>>=◌, proceed, lift}
use sage_wiki_bridge_wxo.Store.Schema.{Db}
use sage_wiki_bridge_wxo.Receiver.Process.{World}
use sage_wiki_bridge_wxo.Receiver.Keeps.{Keeps}

-- Whatever its result is, the block takes the database from the one property to the other.
pub record Goes (P Q : Db → Type 0) {A : Type 0} (m : Exec World A) : Type 0 where
  pub goes : (w : World) → P w.db → Q (m w).1.db

proceed-lift :
    {A B : Type 0} (r : Result A) (f : A → Result B) (w : World)
    → (proceed r (λ a. lift (f a)) w).1 ≡ w
unfolding proceed lift
proceed-lift (ok a) f w = refl
proceed-lift (err e) f w = refl

pub if-Goes :
    {P Q : Db → Type 0} {A : Type 0} (b : Bool) (m n : Exec World A)
    → Goes P Q m
    → Goes P Q n
    → Goes P Q (if b then m else n)
if-Goes true m n g h = g
if-Goes false m n g h = h

module _ {P Q : Db → Type 0} {A B : Type 0} where
  proceed-goes :
      ((db : Db) → P db → Q db)
      → (r : Result A) (f : A → Exec World B) → ((a : A) → Goes P Q (f a))
      → (w : World) → P w.db
      → Q (proceed r f w).1.db
  unfolding proceed
  proceed-goes weak (ok a) f k w h = (k a).goes w h
  proceed-goes weak (err e) f k w h = weak w.db h

  -- The first step keeps the one, and the rest goes on to the other.
  pub then-Goes :
      ((db : Db) → P db → Q db)
      → (m : Exec World A) (f : A → Exec World B) → Keeps P m
      → ((a : A) → Goes P Q (f a))
      → Goes P Q (m >>= f)
  unfolding ◌>>=◌
  then-Goes weak m f g k = record {
    goes = λ w h. proceed-goes weak (m w).0 f k (m w).1 (g.keeps w h);
  }

  -- What follows touches nothing.
  pub lift-Goes :
      (m : Exec World A) (f : A → Result B) → Goes P Q m → Goes P Q (m >>= λ a. lift (f a))
  unfolding ◌>>=◌
  lift-Goes m f g = record { goes = λ w h. rw (proceed-lift (m w).0 f (m w).1) (g.goes w h) }

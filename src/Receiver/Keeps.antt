-- ===== src/Receiver/Keeps.antt =====
-- What a request keeps of the database, step by step of its block.
use sage_wiki_bridge_wxo.Base.{Option, none, some, Bool, true, false, if◌then◌else◌}
use sage_wiki_bridge_wxo.Error.{Result, ok, err}
use sage_wiki_bridge_wxo.Exec.{Exec, ◌>>=◌, proceed, lift, gets, pure}
use sage_wiki_bridge_wxo.Files.{FileSystem}
use sage_wiki_bridge_wxo.Store.Schema.{Db}
use sage_wiki_bridge_wxo.Receiver.Process.{World, on_db, on_files}

-- Whatever its result is, the database keeps the property.
pub record Keeps (P : Db → Type 0) {A : Type 0} (m : Exec World A) : Type 0 where
  pub keeps : (w : World) → P w.db → P (m w).1.db

module _ (P : Db → Type 0) where
  proceed-keeps :
      {A B : Type 0} (r : Result A) (f : A → Exec World B)
      → ((a : A) → Keeps P (f a))
      → (w : World) → P w.db
      → P (proceed r f w).1.db
  unfolding proceed
  proceed-keeps (ok a) f k w h = (k a).keeps w h
  proceed-keeps (err e) f k w h = h

  pub bind-Keeps :
      {A B : Type 0} (m : Exec World A) (f : A → Exec World B)
      → Keeps P m
      → ((a : A) → Keeps P (f a))
      → Keeps P (m >>= f)
  unfolding ◌>>=◌
  bind-Keeps m f g k = record { keeps = λ w h. proceed-keeps (m w).0 f k (m w).1 (g.keeps w h) }

  pub pure-Keeps : {A : Type 0} (a : A) → Keeps P (pure a)
  unfolding pure
  pure-Keeps a = record { keeps = λ w h. h }

  pub lift-Keeps : {A : Type 0} (r : Result A) → Keeps P (lift r)
  unfolding lift
  lift-Keeps r = record { keeps = λ w h. h }

  pub gets-Keeps : {A : Type 0} (f : World → A) → Keeps P (gets f)
  unfolding gets
  gets-Keeps f = record { keeps = λ w h. h }

  pub on_files-Keeps : {A : Type 0} (write : Exec FileSystem A) → Keeps P (on_files write)
  unfolding on_files
  on_files-Keeps write = record { keeps = λ w h. h }

  pub on_db-Keeps :
      {A : Type 0} (query : Exec Db A) → ((db : Db) → P db → P (query db).1) → Keeps P (on_db query)
  unfolding on_db
  on_db-Keeps query k = record { keeps = λ w h. k w.db h }

  pub if-Keeps :
      {A : Type 0} (b : Bool) (m n : Exec World A)
      → Keeps P m
      → Keeps P n
      → Keeps P (if b then m else n)
  if-Keeps true m n g h = g
  if-Keeps false m n g h = h

  pub Option-Keeps :
      {A B : Type 0} (o : Option B) (f : B → Exec World A) (m : Exec World A)
      → ((b : B) → Keeps P (f b))
      → Keeps P m
      → Keeps P (elim o [ some b ↦ f b | none ↦ m ])
  Option-Keeps (some b) f m g h = g b
  Option-Keeps none f m g h = h

-- ===== src/World.antt =====
-- What the code of internal/app works on: the jobs table and the file system. `ticks` counts the
-- questions to the outside (clock, tools, network), whose answers may differ from one to the next.
use cuearr.Prelude.{ℕ, ◌+◌}
use cuearr.Fs.{Fs}
use cuearr.Store.{Db}

pub record World : Type 0 where
  pub db : Db
  pub fs : Fs
  pub ticks : ℕ

abbrev pub Run : Type 0 → Type 0
Run A = World → A × World

abbrev pub after : {A B : Type 0} → A × World → (A → Run B) → B × World
after (a, w) f = f a w

infixl 5 ◌>>=◌ ◌>>◌
abbrev pub ◌>>=◌ : {A B : Type 0} → Run A → (A → Run B) → Run B
◌>>=◌ m f w = after (m w) f

abbrev pub ◌>>◌ : {B : Type 0} → Run (Unit {0}) → Run B → Run B
m >> k = m >>= λ _. k

abbrev pub pure : {A : Type 0} → A → Run A
pure a w = (a, w)

abbrev pub on_db : {A : Type 0} → (Db → A × Db) → Run A
on_db op w = ((op w.db).0, record w { db = (op w.db).1 })

abbrev pub on_fs : {A : Type 0} → (Fs → A × Fs) → Run A
on_fs op w = ((op w.fs).0, record w { fs = (op w.fs).1 })

-- an answer from outside
abbrev pub ask : {A : Type 0} → (ℕ → A) → Run A
ask answer w = (answer w.ticks, record w { ticks = w.ticks + 1 })

-- a call of other code that reads and changes files
abbrev pub call : {A : Type 0} → (ℕ → Fs → A × Fs) → Run A
call op w = ((op w.ticks w.fs).0, record w { fs = (op w.ticks w.fs).1; ticks = w.ticks + 1 })

-- ===== src/Store/Refines.antt =====
-- internal/adapters/store/sqlite/sqlite.go: the jobs table is a map from ids to jobs, on which every
-- Create and Update takes place as a whole or not at all.
use cuearr.Prelude.{
  ◌≡◌, refl, sym, ap, ◌∙◌, Text, text_eq, text_eq_iff, Bool, true, false, Option, none, some,
  Option-cases, List, [], ◌∷◌, if◌then◌else◌, inl, inr, Bool-cases,
}
use cuearr.Errors.{Error, Result, ok, err, Result-cases}
use cuearr.Job.{Job}
use cuearr.Store.{Db, create, update}
use cuearr.Store.Rows.{as_stored, stored, job_in, row_of}
use cuearr.Store.Updates.{Written, update_lem, create_lem}

pub data Operation : Type 0 where
  creates updates : Job → Operation

abbrev pub subject : Operation → Job
subject (creates job) = job
subject (updates job) = job

abbrev pub no_error : {A : Type 0} → Result A → Bool
no_error (ok a) = true
no_error (err e) = false

abbrev pub is_none : Option Error → Bool
is_none none = true
is_none (some e) = false

-- whether the caller is told that the operation took place, and the database behind it
abbrev pub perform : Operation → Db → Bool × Db
perform (creates job) db = let (answer, db') = create job db in (no_error answer, db')
perform (updates job) db = let (e, db') = update job db in (is_none e, db')

abbrev pub perform_all : List Operation → Db → Db
perform_all [] db = db
perform_all (op ∷ ops) db = perform_all ops (perform op db).1

-- the jobs of the operations of a run, and which of them were told to have taken place
abbrev pub reported : List Operation → Db → List (Job × Bool)
reported [] db = []
reported (op ∷ ops) db = (subject op, (perform op db).0) ∷ reported ops (perform op db).1

abbrev pub JobMap : Type 0
JobMap = Text → Option Job

abbrev pub put : Job → JobMap → JobMap
put job m id = if text_eq job.id id then some (as_stored job) else m id

-- The specification: the reported operations on a map, and nothing else.
abbrev pub replay : List (Job × Bool) → JobMap → JobMap
replay [] m = m
replay ((job, true) ∷ rest) m = replay rest (put job m)
replay ((job, false) ∷ rest) m = replay rest m

abbrev pub one : Job × Bool → JobMap → JobMap
one (job, true) m = put job m
one (job, false) m = m

replay-cons :
    (job : Job) (told : Bool) (rest : List (Job × Bool)) (m : JobMap)
    → replay ((job, told) ∷ rest) m ≡ replay rest (one (job, told) m)
replay-cons job true rest m = refl
replay-cons job false rest m = refl

put-Written :
    (job : Job) (db db' : Db)
    → Written job db db'
    → (id : Text) → stored db' id ≡ put job (stored db) id
put-Written job db db' (here, others) id = elim (Bool-cases (text_eq job.id id)) [
  | inl same ↦ rw same (ap (stored db') (sym ((text_eq_iff job.id id).0 same)) ∙ here)
  | inr other ↦ rw other (others id other)
]

perform-one :
    (op : Operation) (db : Db) (id : Text)
    → stored (perform op db).1 id ≡ one (subject op, (perform op db).0) (stored db) id
perform-one (creates job) db id =
    let c = create_lem job db in
    elim (Result-cases (create job db).0) [
      | inl (j, k) ↦ rw k (put-Written job db (create job db).1 (c.0 j k).1 id)
      | inr (x, k) ↦ rw k (ap (λ rows. job_in (row_of id rows)) (c.1 x k))
    ]
perform-one (updates job) db id =
    let u = update_lem job db in
    elim (Option-cases (update job db).0) [
      | inl k ↦ rw k (put-Written job db (update job db).1 (u.0 k) id)
      | inr (x, k) ↦ rw k (ap (λ rows. job_in (row_of id rows)) (u.1 x k))
    ]

one-cong :
    (r : Job × Bool) (m n : JobMap)
    → ((id : Text) → m id ≡ n id)
    → (id : Text) → one r m id ≡ one r n id
one-cong (job, false) m n h id = h id
one-cong (job, true) m n h id = elim (Bool-cases (text_eq job.id id)) [
  | inl same ↦ rw same refl
  | inr other ↦ rw other (h id)
]

replay-cong :
    (rs : List (Job × Bool)) (m n : JobMap)
    → ((id : Text) → m id ≡ n id)
    → (id : Text) → replay rs m id ≡ replay rs n id
replay-cong [] m n h id = h id
replay-cong ((job, told) ∷ rest) m n h id =
    ap (λ g. g id) (replay-cons job told rest m)
    ∙ replay-cong rest (one (job, told) m) (one (job, told) n) (one-cong (job, told) m n h) id
    ∙ ap (λ g. g id) (sym (replay-cons job told rest n))

-- The table refines the map: after any Creates and Updates, whichever of them the database refuses,
-- the job of every id is the one that the operations reported as done leave in the map that the
-- table was before.
pub perform_all-replay :
    (ops : List Operation) (db : Db) (id : Text)
    → stored (perform_all ops db) id ≡ replay (reported ops db) (stored db) id
perform_all-replay [] db id = refl
perform_all-replay (op ∷ ops) db id =
    let (told, db') = perform op db in
    perform_all-replay ops db' id
    ∙ replay-cong (reported ops db') (stored db') (one (subject op, told) (stored db))
        (perform-one op db) id
    ∙ ap (λ g. g id) (sym (replay-cons (subject op) told (reported ops db') (stored db)))

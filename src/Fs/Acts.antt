-- ===== src/Fs/Acts.antt =====
-- Code that calls package os: an action answers a value or an error, and the file system behind it.
use cuearr.Prelude.{Text, lit, Option, none, some, ◌++◌}
use cuearr.Errors.{Error, Result, ok, err, message, wrapped, quoted}
use cuearr.Fs.{Fs, OsError, not_exist, exists, not_directory, system, Outcome}

abbrev pub Act : Type 0 → Type 0
Act A = Fs → Result A × Fs

abbrev pub continue : {A B : Type 0} → Result A → (A → Act B) → Act B
continue (ok a) f fs = f a fs
continue (err e) f fs = (err e, fs)

infixl 5 ◌>>=◌ ◌>>◌
abbrev pub ◌>>=◌ : {A B : Type 0} → Act A → (A → Act B) → Act B
◌>>=◌ m f fs = continue (m fs).0 f (m fs).1

abbrev pub ◌>>◌ : {B : Type 0} → Act (Unit {0}) → Act B → Act B
m >> k = m >>= λ _. k

abbrev pub pure : {A : Type 0} → A → Act A
pure a fs = (ok a, fs)

abbrev pub fail : {A : Type 0} → Error → Act A
fail e fs = (err e, fs)

-- the call, with its error as a value
abbrev pub attempt : (Fs → Outcome) → Act (Option OsError)
attempt op fs = (ok (op fs).0, (op fs).1)

-- `if err := <call>; err != nil { return <error> }`
abbrev pub require : (OsError → Error) → (Fs → Outcome) → Act (Unit {0})
require report op = attempt op >>= λ e. elim e [ none ↦ pure tt | some x ↦ fail (report x) ]

-- the same, but "not exist" is no error
abbrev pub require_or_absent : (OsError → Error) → (Fs → Outcome) → Act (Unit {0})
require_or_absent report op = attempt op >>= λ e. elim e [
  | none ↦ pure tt
  | some not_exist ↦ pure tt
  | some x ↦ fail (report x)
]

-- `if err := <action>; err != nil { <cleanup>; return err }`, the error of the cleanup ignored
abbrev pub recover_with : {A : Type 0} → Result A → (Fs → Outcome) → Act A
recover_with (ok a) cleanup fs = (ok a, fs)
recover_with (err e) cleanup fs = (err e, (cleanup fs).1)

abbrev pub on_error : {A : Type 0} → (Fs → Outcome) → Act A → Act A
on_error cleanup m fs = recover_with (m fs).0 cleanup (m fs).1

unfoldable pub os_error_text : OsError → Text
os_error_text not_exist = lit "no such file or directory"
os_error_text exists = lit "file exists"
os_error_text not_directory = lit "not a directory"
os_error_text (system f) = f.errno

-- fmt.Errorf("<what> %q: %w", path, err)
abbrev pub report : Text → Text → OsError → Error
report what path e = wrapped (what ++ (lit " " ++ quoted path)) (message (os_error_text e))

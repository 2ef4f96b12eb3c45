-- ===== src/Application/Transaction.antt =====
-- A method of a service, in the transaction of src/infrastructure/db/sqlalchemy/uow.py: it reads and
-- writes the rows that the transaction sees, registers events, and returns or raises. What was
-- written before a raise stays in the transaction, which its use case then does not commit.
pub mod Ensures
pub mod Keeps
use fast_stream_template.Common.{
  ℕ, Bool, Option, Time, Uuid, if◌then◌else◌, none, some, ◌≡◌, refl, true, false, not, Bool-cases,
  inl, inr, arith,
}
use fast_stream_template.Errors.{Error, Result, err, ok}
use fast_stream_template.Application.UnitOfWork.{Database, Work, begin, commit}

abbrev pub Tx : Type 0 → Type 0
Tx A = Work → Result A × Work

abbrev pub Nothing : Type 0
Nothing = Unit {0}

module _ {A : Type 0} where
  -- `return a`
  unfoldable pub give : A → Tx A
  give a w = (ok a, w)

  -- `raise e`
  unfoldable pub throw : Error → Tx A
  throw e w = (err e, w)

  -- The construction of a value object, which raises or not
  unfoldable pub checked : Result A → Tx A
  checked r w = (r, w)

  -- A query of the rows
  unfoldable pub query : (Database → A) → Tx A
  query f w = (ok (f w.db), w)

  -- `if found is None: raise e`
  unfoldable pub required : Error → Option A → Tx A
  required e none w = (err e, w)
  required e (some a) w = (ok a, w)

-- `if c: raise e`
unfoldable pub refuse_if : Bool → Error → Tx Nothing
refuse_if true e w = (err e, w)
refuse_if false e w = (ok tt, w)

-- A statement that writes
unfoldable pub change : (Work → Work) → Tx Nothing
change f w = (ok tt, f w)

module _ {A B : Type 0} where
  abbrev pub on_result : (A → Tx B) → Result A × Work → Result B × Work
  on_result k (ok a, w) = k a w
  on_result k (err e, w) = (err e, w)

infixl 5 ◌>>=◌ ◌>>◌
unfoldable pub ◌>>=◌ : {A B : Type 0} → Tx A → (A → Tx B) → Tx B
◌>>=◌ m k w = on_result k (m w)

abbrev pub ◌>>◌ : {A B : Type 0} → Tx A → Tx B → Tx B
m >> k = m >>= λ _. k

-- The end of a use case: its commit, or the end of the transaction without one
unfoldable pub settle :
    {A : Type 0} → (ℕ → Uuid) → Time → Database → Result A × Work → Result A × Database
unfolding commit
settle id_of now db (ok a, w) = (ok a, commit id_of now w)
settle id_of now db (err e, w) = (err e, db)

-- A use case whose last statement is `self._uow.commit()`
unfoldable pub transact : {A : Type 0} → (ℕ → Uuid) → Time → Tx A → Database → Result A × Database
unfolding settle begin
transact id_of now m db = settle id_of now db (m (begin db))

module _ {A : Type 0} where
  pub settle-ok :
      (id_of : ℕ → Uuid) (now : Time) (db db' : Database) (r : Result A × Work) (a : A)
      → settle id_of now db r ≡ (ok a, db')
      → (w' : Work) × (r ≡ (ok a, w')) × (commit id_of now w' ≡ db')
  unfolding settle
  settle-ok id_of now db db' (ok b, w) a h = (w, cc h, cc h)
  settle-ok id_of now db db' (err e, w) a h = absurd (cc h)

  -- A use case that raises writes nothing.
  pub settle-err :
      (id_of : ℕ → Uuid) (now : Time) (db db' : Database) (r : Result A × Work) (e : Error)
      → settle id_of now db r ≡ (err e, db')
      → db' ≡ db
  unfolding settle
  settle-err id_of now db db' (ok b, w) e h = absurd (cc h)
  settle-err id_of now db db' (err f, w) e h = cc h

-- ===== src/Application/Transaction/Keeps.antt =====
-- What a method keeps of the rows, whether it returns or raises: one rule for each way to build one.
use fast_stream_template.Common.{
  Bool, Option, List, none, some, ◌≡◌, refl, true, false, ℕ, Time, Uuid, if◌then◌else◌,
}
use fast_stream_template.Errors.{Error, Result, err, ok}
use fast_stream_template.Domain.User.{User}
use fast_stream_template.Application.UnitOfWork.{Database, Work, begin, commit}
use fast_stream_template.Application.Transaction.{
  Tx, give, checked, query, required, refuse_if, change, on_result, ◌>>=◌, settle, transact,
}

-- `m` keeps `P`.
pub record Keeps {A : Type 0} (P : Database → Type 0) (m : Tx A) : Type 0 where
  pub at : (w : Work) → P w.db → P (m w).1.db

required_lem : {A : Type 0} (e : Error) (o : Option A) (w : Work) → (required e o w).1 ≡ w
unfolding required
required_lem e none w = refl
required_lem e (some a) w = refl

refuse_if_lem : (b : Bool) (e : Error) (w : Work) → (refuse_if b e w).1 ≡ w
unfolding refuse_if
refuse_if_lem true e w = refl
refuse_if_lem false e w = refl

module _ {P : Database → Type 0} where
  module _ {A : Type 0} where
    pub Keeps-give : (a : A) → Keeps P (give a)
    unfolding give
    Keeps-give a = record { at = λ w h. h }

    pub Keeps-checked : (r : Result A) → Keeps P (checked r)
    unfolding checked
    Keeps-checked r = record { at = λ w h. h }

    pub Keeps-query : (f : Database → A) → Keeps P (query f)
    unfolding query
    Keeps-query f = record { at = λ w h. h }

    pub Keeps-required : (e : Error) (o : Option A) → Keeps P (required e o)
    Keeps-required e o = record { at = λ w h. rw (required_lem e o w) h }

    pub Keeps-if : (b : Bool) (m n : Tx A) → Keeps P m → Keeps P n → Keeps P (if b then m else n)
    Keeps-if true m n km kn = km
    Keeps-if false m n km kn = kn

  pub Keeps-refuse_if : (b : Bool) (e : Error) → Keeps P (refuse_if b e)
  Keeps-refuse_if b e = record { at = λ w h. rw (refuse_if_lem b e w) h }

  pub Keeps-change : (f : Work → Work) → ((w : Work) → P w.db → P (f w).db) → Keeps P (change f)
  unfolding change
  Keeps-change f h = record { at = h }

  module _ {A B : Type 0} where
    on_result_db :
        (k : A → Tx B) (r : Result A × Work)
        → ((a : A) → Keeps P (k a))
        → P r.1.db
        → P (on_result k r).1.db
    on_result_db k (ok a, w) kk h = (kk a).at w h
    on_result_db k (err e, w) kk h = h

    pub Keeps-bind :
        (m : Tx A) (k : A → Tx B) → Keeps P m → ((a : A) → Keeps P (k a)) → Keeps P (m >>= k)
    unfolding ◌>>=◌
    Keeps-bind m k km kk = record { at = λ w h. on_result_db k (m w) kk (km.at w h) }

pub ruleset keeps_rules =
    (Keeps-give, Keeps-checked, Keeps-query, Keeps-required, Keeps-if, Keeps-refuse_if, Keeps-bind)

-- A predicate that reads only the rows of the users
abbrev pub OnUsers : (List User → Type 0) → Database → Type 0
OnUsers P db = P db.users

settle_users :
    {A : Type 0} (P : List User → Type 0) (id_of : ℕ → Uuid) (now : Time) (db : Database)
    (r : Result A × Work)
    → P r.1.db.users
    → P db.users
    → P (settle id_of now db r).1.users
unfolding settle commit
settle_users P id_of now db (ok a, w) h k = h
settle_users P id_of now db (err e, w) h k = k

-- A use case keeps of the users' rows what its transaction keeps.
pub transact_users :
    {A : Type 0} (P : List User → Type 0) (m : Tx A) (id_of : ℕ → Uuid) (now : Time) (db : Database)
    → Keeps (OnUsers P) m
    → P db.users
    → P (transact id_of now m db).1.users
unfolding transact begin
transact_users P m id_of now db km h =
    settle_users P id_of now db (m (begin db)) (km.at (begin db) h) h

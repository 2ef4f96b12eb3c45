-- ===== src/Application/Transaction/Ensures.antt =====
-- What holds where a method returns, one rule for each way to build a method.
use fast_stream_template.Common.{Bool, Option, none, some, ◌≡◌, refl, true, false, ℕ, Time, Uuid}
use mathlib.Core.Path.{subst₂}
use fast_stream_template.Errors.{Error, Result, err, ok}
use fast_stream_template.Application.UnitOfWork.{Database, Work, begin, commit}
use fast_stream_template.Application.Transaction.{
  Tx, Nothing, give, throw, checked, query, required, refuse_if, change, on_result, ◌>>=◌,
  settle-ok, transact,
}

-- Where `m` returns from `w`, what it returns and leaves is in `Q`.
pub record Ensures {A : Type 0} (w : Work) (Q : A → Work → Type 0) (m : Tx A) : Type 0 where
  pub at : (a : A) (w' : Work) → m w ≡ (ok a, w') → Q a w'

module _ {A : Type 0} {Q : A → Work → Type 0} {w : Work} where
  pub Ensures-give : (a : A) → Q a w → Ensures w Q (give a)
  unfolding give
  Ensures-give a h = record {
    at = λ b w' e. let same : a ≡ b = cc e in let kept : w ≡ w' = cc e in subst₂ Q same kept h;
  }

  pub Ensures-throw : (c : Error) → Ensures w Q (throw c)
  unfolding throw
  Ensures-throw c = record { at = λ b w' e. absurd (cc e) }

  pub Ensures-weaken :
      {R : A → Work → Type 0} {m : Tx A}
      → ((a : A) (w' : Work) → R a w' → Q a w')
      → Ensures w R m
      → Ensures w Q m
  Ensures-weaken f h = record { at = λ a w' e. f a w' (h.at a w' e) }

module _ {A B : Type 0} where
  continue_lem :
      (k : A → Tx B) (r : Result A × Work) (b : B) (w' : Work)
      → on_result k r ≡ (ok b, w')
      → (a : A) × (w1 : Work) × (r ≡ (ok a, w1)) × (k a w1 ≡ (ok b, w'))
  continue_lem k (ok a, w1) b w' h = (a, w1, refl, h)
  continue_lem k (err e, w1) b w' h = absurd (cc h)

module _ {A B : Type 0} {Q : B → Work → Type 0} {w : Work} where
  pub Ensures-bind :
      {R : A → Work → Type 0} (m : Tx A) (k : A → Tx B)
      → Ensures w R m
      → ((a : A) (w1 : Work) → R a w1 → Ensures w1 Q (k a))
      → Ensures w Q (m >>= k)
  unfolding ◌>>=◌
  Ensures-bind m k hm hk = record {
    at = λ b w' e.
        let (a, w1, ran, rest) = continue_lem k (m w) b w' e in
        (hk a w1 (hm.at a w1 ran)).at b w' rest;
  }

  -- Nothing is asked of the first statement.
  pub Ensures-after :
      (m : Tx A) (k : A → Tx B)
      → ((a : A) (w1 : Work) → m w ≡ (ok a, w1) → Ensures w1 Q (k a))
      → Ensures w Q (m >>= k)
  unfolding ◌>>=◌
  Ensures-after m k hk = record {
    at = λ b w' e.
        let (a, w1, ran, rest) = continue_lem k (m w) b w' e in (hk a w1 ran).at b w' rest;
  }

  pub Ensures-query :
      (f : Database → A) (k : A → Tx B) → Ensures w Q (k (f w.db)) → Ensures w Q (query f >>= k)
  unfolding ◌>>=◌ query
  Ensures-query f k h = record { at = h.at }

  checked_lem :
      (r : Result A) (k : A → Tx B)
      → ((a : A) → r ≡ ok a → Ensures w Q (k a))
      → Ensures w Q (checked r >>= k)
  unfolding ◌>>=◌ checked
  checked_lem (ok a) k h = record { at = (h a refl).at }
  checked_lem (err e) k h = record { at = λ b w' p. absurd (cc p) }

  pub Ensures-checked :
      (r : Result A) (k : A → Tx B)
      → ((a : A) → r ≡ ok a → Ensures w Q (k a))
      → Ensures w Q (checked r >>= k)
  Ensures-checked r k h = checked_lem r k h

  required_lem :
      (c : Error) (o : Option A) (k : A → Tx B)
      → ((a : A) → o ≡ some a → Ensures w Q (k a))
      → Ensures w Q (required c o >>= k)
  unfolding ◌>>=◌ required
  required_lem c (some a) k h = record { at = (h a refl).at }
  required_lem c none k h = record { at = λ b w' p. absurd (cc p) }

  pub Ensures-required :
      (c : Error) (o : Option A) (k : A → Tx B)
      → ((a : A) → o ≡ some a → Ensures w Q (k a))
      → Ensures w Q (required c o >>= k)
  Ensures-required c o k h = required_lem c o k h

module _ {B : Type 0} {Q : B → Work → Type 0} {w : Work} where
  refuse_lem :
      (b : Bool) (c : Error) (k : Nothing → Tx B)
      → (b ≡ false → Ensures w Q (k tt))
      → Ensures w Q (refuse_if b c >>= k)
  unfolding ◌>>=◌ refuse_if
  refuse_lem false c k h = record { at = (h refl).at }
  refuse_lem true c k h = record { at = λ b w' p. absurd (cc p) }

  pub Ensures-refuse_if :
      (b : Bool) (c : Error) (k : Nothing → Tx B)
      → (b ≡ false → Ensures w Q (k tt))
      → Ensures w Q (refuse_if b c >>= k)
  Ensures-refuse_if b c k h = refuse_lem b c k h

  pub Ensures-change :
      (f : Work → Work) (k : Nothing → Tx B) → Ensures (f w) Q (k tt) → Ensures w Q (change f >>= k)
  unfolding ◌>>=◌ change
  Ensures-change f k h = record { at = h.at }

-- A committed use case leaves the commit of what its transaction ensures.
pub transact-Ensures :
    {A : Type 0} {Q : A → Work → Type 0} (m : Tx A) (id_of : ℕ → Uuid) (now : Time)
    (db db' : Database) (a : A)
    → Ensures (begin db) Q m
    → transact id_of now m db ≡ (ok a, db')
    → (w' : Work) × Q a w' × (commit id_of now w' ≡ db')
unfolding transact
transact-Ensures m id_of now db db' a h e =
    let (w', ran, done) = settle-ok id_of now db db' (m (begin db)) a e in (w', h.at a w' ran, done)

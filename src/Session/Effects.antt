-- ===== src/Session/Effects.antt =====
-- Invariants of the database that actions keep, one rule for each way to build an action.
use sawtai.Prelude.{Bool, true, false, Option, none, some, if◌then◌else◌}
use sawtai.Schema.{Db}
use sawtai.Session.{
  Session, Error, Result, ok, err, Exec, continue, ◌>>=◌, pure, raise, gets, require_row, raise_if,
  now, uuid4, modify, commit, rollback, request,
}

-- `I` holds of the database as the open transaction sees it, and as it was committed
pub record Both (I : Db → Type 0) (s : Session) : Type 0 where
  pub opened : I s.db
  pub saved : I s.saved

-- `m` keeps `P`, whether it returns or raises
pub record Keeps {A : Type 0} (P : Session → Type 0) (m : Exec A) : Type 0 where
  pub at : (s : Session) → P s → P (m s).1

module _ {A B : Type 0} {P : Session → Type 0} where
  Keeps-continue :
      (r : Result A) (f : A → Exec B) → ((a : A) → Keeps P (f a)) → Keeps P (continue r f)
  Keeps-continue (ok a) f kf = kf a
  Keeps-continue (err e) f kf = record { at = λ s h. h }

  pub Keeps-bind :
      (m : Exec A) (f : A → Exec B) → Keeps P m → ((a : A) → Keeps P (f a)) → Keeps P (m >>= f)
  Keeps-bind m f km kf = record {
    at = λ s h. let (r, s') = m s in (Keeps-continue r f kf).at s' (km.at s h);
  }

module _ {A : Type 0} {P : Session → Type 0} where
  pub Keeps-pure : (a : A) → Keeps P (pure a)
  Keeps-pure a = record { at = λ s h. h }

  pub Keeps-raise : (e : Error) → Keeps P (raise {A = A} e)
  Keeps-raise e = record { at = λ s h. h }

  pub Keeps-gets : (f : Session → A) → Keeps P (gets f)
  Keeps-gets f = record { at = λ s h. h }

  pub Keeps-require_row : (o : Option A) (e : Error) → Keeps P (require_row o e)
  Keeps-require_row none e = record { at = λ s h. h }
  Keeps-require_row (some a) e = record { at = λ s h. h }

  pub Keeps-if : (b : Bool) (m n : Exec A) → Keeps P m → Keeps P n → Keeps P (if b then m else n)
  Keeps-if true m n km kn = km
  Keeps-if false m n km kn = kn

module _ {P : Session → Type 0} where
  pub Keeps-raise_if : (b : Bool) (e : Error) → Keeps P (raise_if b e)
  Keeps-raise_if b e = record { at = λ s h. h }

module _ {I : Db → Type 0} where
  pub Keeps-now : Keeps (Both I) now
  Keeps-now = record { at = λ s h. record { opened = h.opened; saved = h.saved } }

  pub Keeps-uuid4 : Keeps (Both I) uuid4
  Keeps-uuid4 = record { at = λ s h. record { opened = h.opened; saved = h.saved } }

  pub Keeps-commit : Keeps (Both I) commit
  Keeps-commit = record { at = λ s h. record { opened = h.opened; saved = h.opened } }

  pub Keeps-rollback : Keeps (Both I) rollback
  Keeps-rollback = record { at = λ s h. record { opened = h.saved; saved = h.saved } }

  pub Keeps-modify : (f : Db → Db) → ((db : Db) → I db → I (f db)) → Keeps (Both I) (modify f)
  Keeps-modify f kf = record { at = λ s h. record { opened = kf s.db h.opened; saved = h.saved } }

  -- the end of a request drops what is not committed
  pub Keeps-request : {A : Type 0} (m : Exec A) → Keeps (Both I) m → Keeps (Both I) (request m)
  Keeps-request m km = record {
    at = λ s h. record { opened = (km.at s h).saved; saved = (km.at s h).saved };
  }

-- the rules that hold of every invariant of a session
pub ruleset keeps_free_rules =
    (Keeps-bind, Keeps-pure, Keeps-raise, Keeps-gets, Keeps-require_row, Keeps-raise_if, Keeps-if)

pub ruleset keeps_rules = (keeps_free_rules, Keeps-now, Keeps-uuid4, Keeps-commit, Keeps-rollback)

-- ===== src/Session/Aside.antt =====
-- Actions that leave both the open transaction and what is committed.
use sawtai.Prelude.{◌≡◌, refl, ◌∙◌, Bool, true, false, Option, none, some, if◌then◌else◌}
use sawtai.Session.{
  Session, Error, Result, ok, err, Exec, continue, ◌>>=◌, pure, raise, gets, require_row, raise_if,
  now, uuid4, sql_now,
}

pub record IsAside {A : Type 0} (m : Exec A) : Type 0 where
  pub db : (s : Session) → (m s).1.db ≡ s.db
  pub saved : (s : Session) → (m s).1.saved ≡ s.saved

module _ {A B : Type 0} where
  IsAside-continue :
      (r : Result A) (f : A → Exec B) → ((a : A) → IsAside (f a)) → IsAside (continue r f)
  IsAside-continue (ok a) f kf = kf a
  IsAside-continue (err e) f kf = record { db = λ s. refl; saved = λ s. refl }

  pub IsAside-bind :
      (m : Exec A) (f : A → Exec B) → IsAside m → ((a : A) → IsAside (f a)) → IsAside (m >>= f)
  IsAside-bind m f km kf = record {
    db = λ s. (IsAside-continue (m s).0 f kf).db (m s).1 ∙ km.db s;
    saved = λ s. (IsAside-continue (m s).0 f kf).saved (m s).1 ∙ km.saved s;
  }

module _ {A : Type 0} where
  pub IsAside-pure : (a : A) → IsAside (pure a)
  IsAside-pure a = record { db = λ s. refl; saved = λ s. refl }

  pub IsAside-raise : (e : Error) → IsAside (raise {A = A} e)
  IsAside-raise e = record { db = λ s. refl; saved = λ s. refl }

  pub IsAside-gets : (f : Session → A) → IsAside (gets f)
  IsAside-gets f = record { db = λ s. refl; saved = λ s. refl }

  pub IsAside-require_row : (o : Option A) (e : Error) → IsAside (require_row o e)
  IsAside-require_row none e = IsAside-raise e
  IsAside-require_row (some a) e = IsAside-pure a

  pub IsAside-if : (b : Bool) (m n : Exec A) → IsAside m → IsAside n → IsAside (if b then m else n)
  IsAside-if true m n km kn = km
  IsAside-if false m n km kn = kn

pub IsAside-raise_if : (b : Bool) (e : Error) → IsAside (raise_if b e)
IsAside-raise_if b e = record { db = λ s. refl; saved = λ s. refl }

pub IsAside-now : IsAside now
IsAside-now = record { db = λ s. refl; saved = λ s. refl }

pub IsAside-uuid4 : IsAside uuid4
IsAside-uuid4 = record { db = λ s. refl; saved = λ s. refl }

pub IsAside-sql_now : IsAside sql_now
IsAside-sql_now = record { db = λ s. refl; saved = λ s. refl }

pub ruleset aside_rules = (
  IsAside-bind, IsAside-pure, IsAside-raise, IsAside-gets, IsAside-require_row, IsAside-if,
  IsAside-raise_if, IsAside-now, IsAside-uuid4, IsAside-sql_now,
)

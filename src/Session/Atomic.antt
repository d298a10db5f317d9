-- ===== src/Session/Atomic.antt =====
-- Transactions from outside: an action that raises has committed nothing, and one that returns has
-- committed one row of the ledger on top of what it found.
use sawtai.Prelude.{◌≡◌, refl, ◌∙◌, Bool, true, false, Option, none, some, ◌∷◌, if◌then◌else◌}
use sawtai.Schema.{AuditRow, Db}
use sawtai.Session.{
  Session, Error, Result, ok, err, Exec, continue, ◌>>=◌, pure, raise, gets, require_row, raise_if,
  now, uuid4, sql_now, modify,
}

-- neither the ledger nor what is committed has changed
pub record IsSilent {A : Type 0} (m : Exec A) : Type 0 where
  pub log : (s : Session) → (m s).1.db.audit_log ≡ s.db.audit_log
  pub saved : (s : Session) → (m s).1.saved ≡ s.saved

module _ {A B : Type 0} where
  IsSilent-continue :
      (r : Result A) (f : A → Exec B) → ((a : A) → IsSilent (f a)) → IsSilent (continue r f)
  IsSilent-continue (ok a) f kf = kf a
  IsSilent-continue (err e) f kf = record { log = λ s. refl; saved = λ s. refl }

  pub IsSilent-bind :
      (m : Exec A) (f : A → Exec B) → IsSilent m → ((a : A) → IsSilent (f a)) → IsSilent (m >>= f)
  IsSilent-bind m f km kf = record {
    log = λ s. (IsSilent-continue (m s).0 f kf).log (m s).1 ∙ km.log s;
    saved = λ s. (IsSilent-continue (m s).0 f kf).saved (m s).1 ∙ km.saved s;
  }

module _ {A : Type 0} where
  pub IsSilent-pure : (a : A) → IsSilent (pure a)
  IsSilent-pure a = record { log = λ s. refl; saved = λ s. refl }

  pub IsSilent-raise : (e : Error) → IsSilent (raise {A = A} e)
  IsSilent-raise e = record { log = λ s. refl; saved = λ s. refl }

  pub IsSilent-gets : (f : Session → A) → IsSilent (gets f)
  IsSilent-gets f = record { log = λ s. refl; saved = λ s. refl }

  pub IsSilent-require_row : (o : Option A) (e : Error) → IsSilent (require_row o e)
  IsSilent-require_row none e = IsSilent-raise e
  IsSilent-require_row (some a) e = IsSilent-pure a

  pub IsSilent-if :
      (b : Bool) (m n : Exec A) → IsSilent m → IsSilent n → IsSilent (if b then m else n)
  IsSilent-if true m n km kn = km
  IsSilent-if false m n km kn = kn

pub IsSilent-raise_if : (b : Bool) (e : Error) → IsSilent (raise_if b e)
IsSilent-raise_if b e = record { log = λ s. refl; saved = λ s. refl }

pub IsSilent-now : IsSilent now
IsSilent-now = record { log = λ s. refl; saved = λ s. refl }

pub IsSilent-uuid4 : IsSilent uuid4
IsSilent-uuid4 = record { log = λ s. refl; saved = λ s. refl }

pub IsSilent-sql_now : IsSilent sql_now
IsSilent-sql_now = record { log = λ s. refl; saved = λ s. refl }

pub IsSilent-modify :
    (f : Db → Db) → ((db : Db) → (f db).audit_log ≡ db.audit_log) → IsSilent (modify f)
IsSilent-modify f kf = record { log = λ s. kf s.db; saved = λ s. refl }

pub ruleset silent_rules = (
  IsSilent-bind, IsSilent-pure, IsSilent-raise, IsSilent-gets, IsSilent-require_row, IsSilent-if,
  IsSilent-raise_if, IsSilent-now, IsSilent-uuid4, IsSilent-sql_now,
)

-- how a call that began at `s` has ended: `Q` is what is asked of the new row
abbrev pub Accounted : {A : Type 0} → (AuditRow → Type 0) → Session → Result A × Session → Type 0
Accounted Q s (ok _, s') =
    (r : AuditRow) × (s'.saved.audit_log ≡ r ∷ s.db.audit_log) × (s'.db ≡ s'.saved) × Q r
Accounted Q s (err _, s') = s'.saved ≡ s.saved

pub record IsAccounted {A : Type 0} (Q : AuditRow → Type 0) (m : Exec A) : Type 0 where
  pub at : (s : Session) → Accounted Q s (m s)

module _ {B : Type 0} (Q : AuditRow → Type 0) where
  Accounted-of_silent :
      (x : Result B × Session) (s s' : Session)
      → s'.db.audit_log ≡ s.db.audit_log
      → s'.saved ≡ s.saved
      → Accounted Q s' x
      → Accounted Q s x
  Accounted-of_silent (ok b, u) s s' same kept (r, e, done, q) = (r, rw same at e, done, q)
  Accounted-of_silent (err x, u) s s' same kept h = h ∙ kept

module _ {A B : Type 0} {Q : AuditRow → Type 0} where
  Accounted-continue :
      (r : Result A) (f : A → Exec B) (s : Session)
      → ((a : A) → IsAccounted Q (f a))
      → Accounted Q s (continue r f s)
  Accounted-continue (ok a) f s kf = (kf a).at s
  Accounted-continue (err e) f s kf = refl

  pub IsAccounted-bind :
      (m : Exec A) (f : A → Exec B)
      → IsSilent m
      → ((a : A) → IsAccounted Q (f a))
      → IsAccounted Q (m >>= f)
  IsAccounted-bind m f km kf = record {
    at = λ s.
        Accounted-of_silent Q (continue (m s).0 f (m s).1) s (m s).1 (km.log s) (km.saved s)
          (Accounted-continue (m s).0 f (m s).1 kf);
  }

module _ {A : Type 0} (Q : AuditRow → Type 0) where
  done_continue :
      (r : Result A) (s s' : Session)
      → Accounted Q s (r, s')
      → Accounted Q s (continue r (λ _. λ u. (ok (tt {0}), u)) s')
  done_continue (ok a) s s' h = h
  done_continue (err e) s s' h = h

module _ {A : Type 0} {Q : AuditRow → Type 0} where
  -- to drop the value that is returned
  pub IsAccounted-done :
      (m : Exec A) → IsAccounted Q m → IsAccounted Q (m >>= λ _. λ s. (ok (tt {0}), s))
  IsAccounted-done m km = record { at = λ s. done_continue Q (m s).0 s (m s).1 (km.at s) }

-- ===== src/Session/Halves.antt =====
-- Invariants that say one thing of the open transaction and another of what is committed, and
-- actions that lead from one invariant to another.
use sawtai.Schema.{Db}
use sawtai.Session.{
  Session, Result, ok, err, Exec, continue, ◌>>=◌, now, uuid4, modify, commit, rollback,
}
use sawtai.Session.Effects.{Keeps}
use sawtai.Session.Aside.{IsAside}

-- `I` of the open transaction, `J` of what is committed
pub record Halves (I J : Db → Type 0) (s : Session) : Type 0 where
  pub opened : I s.db
  pub saved : J s.saved

module _ {A : Type 0} {I J : Db → Type 0} where
  pub aside : (m : Exec A) → IsAside m → Keeps (Halves I J) m
  aside m h = record {
    at = λ s k. record { opened = rw (h.db s) k.opened; saved = rw (h.saved s) k.saved };
  }

module _ {I J : Db → Type 0} where
  pub Keeps-modify_opened :
      (f : Db → Db) → ((db : Db) → I db → I (f db)) → Keeps (Halves I J) (modify f)
  Keeps-modify_opened f kf = record {
    at = λ s h. record { opened = kf s.db h.opened; saved = h.saved };
  }

  pub Keeps-commit_as : ((db : Db) → I db → J db) → Keeps (Halves I J) commit
  Keeps-commit_as lower = record {
    at = λ s h. record { opened = h.opened; saved = lower s.db h.opened };
  }

  pub Keeps-now-Halves : Keeps (Halves I J) now
  Keeps-now-Halves = record { at = λ s h. record { opened = h.opened; saved = h.saved } }

  pub Keeps-uuid4-Halves : Keeps (Halves I J) uuid4
  Keeps-uuid4-Halves = record { at = λ s h. record { opened = h.opened; saved = h.saved } }

pub Keeps-rollback-Halves : {I : Db → Type 0} → Keeps (Halves I I) rollback
Keeps-rollback-Halves = record { at = λ s h. record { opened = h.saved; saved = h.saved } }

-- where an action that began in a state of `P` ends: in `Q` with its value, or in `E` with an error
abbrev pub Ends :
    {A : Type 0} → (A → Session → Type 0) → (Session → Type 0) → Result A × Session → Type 0
Ends Q E (ok a, s) = Q a s
Ends Q E (err e, s) = E s

pub record Leads {A : Type 0} (P : Session → Type 0) (m : Exec A) (Q : A → Session → Type 0)
    (E : Session → Type 0) : Type 0 where
  pub at : (s : Session) → P s → Ends Q E (m s)

module _ {A B : Type 0} {Q : A → Session → Type 0} {R : B → Session → Type 0}
    {E : Session → Type 0} where
  Leads-continue :
      (r : Result A) (f : A → Exec B) (s : Session)
      → ((a : A) → Leads (Q a) (f a) R E)
      → Ends Q E (r, s)
      → Ends R E (continue r f s)
  Leads-continue (ok a) f s kf h = (kf a).at s h
  Leads-continue (err e) f s kf h = h

  pub Leads-bind :
      {P : Session → Type 0} (m : Exec A) (f : A → Exec B)
      → Leads P m Q E
      → ((a : A) → Leads (Q a) (f a) R E)
      → Leads P (m >>= f) R E
  Leads-bind m f km kf = record { at = λ s h. Leads-continue (m s).0 f (m s).1 kf (km.at s h) }

module _ {A : Type 0} {P Q E : Session → Type 0} where
  Ends-Keeps :
      (x : Result A × Session)
      → ((s : Session) → P s → Q s)
      → ((s : Session) → P s → E s)
      → P x.1
      → Ends (λ a s. Q s) E x
  Ends-Keeps (ok a, s) q e h = q s h
  Ends-Keeps (err x, s) q e h = e s h

  pub Leads-Keeps :
      (m : Exec A)
      → ((s : Session) → P s → Q s)
      → ((s : Session) → P s → E s)
      → Keeps P m
      → Leads P m (λ a s. Q s) E
  Leads-Keeps m q e km = record { at = λ s h. Ends-Keeps (m s) q e (km.at s h) }

module _ {A : Type 0} (R : Session → Type 0) where
  Ends-any : (x : Result A × Session) → Ends (λ a s. R s) R x → R x.1
  Ends-any (ok a, s) h = h
  Ends-any (err e, s) h = h

  -- an end that is the same for values and errors
  pub Leads-at :
      {P : Session → Type 0} {m : Exec A}
      → Leads P m (λ a s. R s) R
      → (s : Session) → P s
      → R (m s).1
  Leads-at {m} h s k = Ends-any (m s) (h.at s k)

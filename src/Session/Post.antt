-- ===== src/Session/Post.antt =====
-- What holds when an action returns, whatever it started from.
use sawtai.Prelude.{◌≡◌, subst}
use sawtai.Session.{Session, Result, ok, err, Exec, continue, ◌>>=◌}

abbrev pub IfOk : {A : Type 0} → (A → Session → Type 0) → Result A × Session → Type 0
IfOk Q (ok a, s) = Q a s
IfOk Q (err _, _) = Unit

pub ok-injective : {A : Type 0} (a b : A) → ok a ≡ ok b → a ≡ b
ok-injective a b e = cc

pub record Ensures {A : Type 0} (Q : A → Session → Type 0) (m : Exec A) : Type 0 where
  pub at : (s : Session) → IfOk Q (m s)

module _ {A B : Type 0} (Q : B → Session → Type 0) where
  Ensures-continue :
      (r : Result A) (f : A → Exec B) (s : Session)
      → ((a : A) → Ensures Q (f a))
      → IfOk Q (continue r f s)
  Ensures-continue (ok a) f s kf = (kf a).at s
  Ensures-continue (err e) f s kf = tt

module _ {A B : Type 0} {Q : B → Session → Type 0} where
  pub Ensures-bind :
      (m : Exec A) (f : A → Exec B) → ((a : A) → Ensures Q (f a)) → Ensures Q (m >>= f)
  Ensures-bind m f kf = record { at = λ s. Ensures-continue Q (m s).0 f (m s).1 kf }

module _ {A : Type 0} (Q : A → Session → Type 0) where
  pub if_ok : (x : Result A × Session) (a : A) → IfOk Q x → x.0 ≡ ok a → Q a x.1
  if_ok (ok b, s) a h e = subst (λ c. Q c s) (ok-injective b a e) h
  if_ok (err x, s) a h e = cc

module _ {A : Type 0} {Q : A → Session → Type 0} where
  pub Ensures-ok : {m : Exec A} → Ensures Q m → (s : Session) (a : A) → (m s).0 ≡ ok a → Q a (m s).1
  Ensures-ok {m} h s a e = if_ok Q (m s) a (h.at s) e

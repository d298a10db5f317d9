-- ===== src/Audit/Tampering.antt =====
-- What the hash chain shows of a change to old rows, and what it does not.
use mathlib.Core.Option.{some-injective}
use native.Mathlib.Decide.{ℕ_discrete}
use sawtai.Prelude.{
  ℕ, ◌≡◌, ◌≢◌, refl, ap, sym, ◌∙◌, ◌⊎◌, inl, inr, Option, none, some, List, [], ◌∷◌, ◌++◌, map, All,
  length, arith,
}
use sawtai.Schema.{Json, Bytes, AuditRow, Canonical}
use sawtai.Session.{World}
use sawtai.Audit.{of_tenant, or_empty, digest}
use sawtai.Audit.Chain.{canonical_of, last_inserted, hash_of, Chained}

-- other before and after states in a row
abbrev pub restate : (AuditRow → Option Json × Option Json) → AuditRow → AuditRow
restate f r = record r { before_state = (f r).0; after_state = (f r).1 }

last_inserted-restate :
    (f : AuditRow → Option Json × Option Json) (t : ℕ) (log : List AuditRow)
    → hash_of (last_inserted (of_tenant t) (map (restate f) log))
      ≡ hash_of (last_inserted (of_tenant t) log)
last_inserted-restate f t [] = refl
last_inserted-restate f t (r ∷ rest) = ground (arith, last_inserted-restate f t rest)

-- The digest of a row covers neither `before_state` nor `after_state`: in a chained ledger those
-- of all rows can be replaced by anything, and it stays chained.
pub states_not_covered :
    (w : World) (f : AuditRow → Option Json × Option Json) (log : List AuditRow)
    → Chained w log
    → Chained w (map (restate f) log)
states_not_covered w f [] h = tt
states_not_covered w f (r ∷ rest) h =
    (h.0 ∙ sym (last_inserted-restate f r.tenant_id rest), h.1, states_not_covered w f rest h.2)

-- two inputs that SHA-256 does not tell apart
abbrev pub Collision : World → Type 0
Collision w = (x : Bytes) × (y : Bytes) × (x ≢ y) × (w.sha256 x ≡ w.sha256 y)

append_inj : (a b c d : Bytes) → length a ≡ length b → a ++ c ≡ b ++ d → (a ≡ b) × (c ≡ d)
append_inj [] [] c d h e = (refl, e)
append_inj [] (y ∷ b) c d h e = absurd (omega arith)
append_inj (x ∷ a) [] c d h e = absurd (omega arith)
append_inj (x ∷ a) (y ∷ b) c d h e = ground (arith, append_inj a b c d)

bytes_discrete : Discrete Bytes
bytes_discrete = hlevel ℕ_discrete

-- all rows are of tenant `t`
abbrev pub OfTenant : ℕ → List AuditRow → Type 0
OfTenant t log = All (λ r. r.tenant_id ≡ t) log

-- the hash at the head of the ledger
abbrev pub head_hash : List AuditRow → Option Bytes
head_hash [] = none
head_hash (r ∷ rest) = some r.row_hash

last_inserted-head :
    (t : ℕ) (log : List AuditRow)
    → OfTenant t log
    → hash_of (last_inserted (of_tenant t) log) ≡ head_hash log
last_inserted-head t [] h = refl
last_inserted-head t (r ∷ rest) h = ground arith

module _ (w : World) (size : (x : Bytes) → length (w.sha256 x) ≡ 32)
    (faithful : (c d : Canonical) → w.dumps c ≡ w.dumps d → c ≡ d) where
  -- a digest determines what was hashed, or there is a collision
  digest_binds :
      (p q : Option Bytes) (c d : Canonical)
      → length (or_empty p) ≡ length (or_empty q)
      → digest w p c ≡ digest w q d
      → ((or_empty p ≡ or_empty q) × (c ≡ d)) ⊎ Collision w
  digest_binds p q c d same e =
      elim (bytes_discrete (or_empty p ++ w.dumps c) (or_empty q ++ w.dumps d)) [
        | yes eq ↦
            let both = append_inj (or_empty p) (or_empty q) (w.dumps c) (w.dumps d) same eq in
            inl (both.0, faithful c d both.1)
        | no ne ↦ inr (or_empty p ++ w.dumps c, or_empty q ++ w.dumps d, ne, e)
      ]

  abbrev hash_size : List AuditRow → ℕ
  hash_size [] = 0
  hash_size (r ∷ rest) = 32

  head_hash-size :
      (log : List AuditRow) → Chained w log → length (or_empty (head_hash log)) ≡ hash_size log
  head_hash-size [] h = refl
  head_hash-size (r ∷ rest) h = ap length h.1 ∙ size _

  -- of two ledgers of one length
  head_hash-eq :
      (l m : List AuditRow)
      → length l ≡ length m
      → or_empty (head_hash l) ≡ or_empty (head_hash m)
      → head_hash l ≡ head_hash m
  head_hash-eq [] [] n e = refl
  head_hash-eq [] (y ∷ m) n e = absurd (omega arith)
  head_hash-eq (x ∷ l) [] n e = absurd (omega arith)
  head_hash-eq (x ∷ l) (y ∷ m) n e = ap {B = Option Bytes} some e

  hash_size-eq : (l m : List AuditRow) → length l ≡ length m → hash_size l ≡ hash_size m
  hash_size-eq [] [] n = refl
  hash_size-eq [] (y ∷ m) n = absurd (omega arith)
  hash_size-eq (x ∷ l) [] n = absurd (omega arith)
  hash_size-eq (x ∷ l) (y ∷ m) n = refl

  -- the rows agree in what is hashed, or there is a collision
  abbrev Agree : List AuditRow → List AuditRow → Type 0
  Agree l m = (map canonical_of l ≡ map canonical_of m) ⊎ Collision w

  -- Two chained ledgers of one tenant, of one length and with one hash at the head, agree in
  -- everything that is hashed of every row, or show a collision of SHA-256. What is assumed of
  -- outside code: digests have 32 bytes, and `json.dumps` of the dictionary determines it.
  pub chain_binds :
      (t : ℕ) (l m : List AuditRow)
      → OfTenant t l
      → OfTenant t m
      → Chained w l
      → Chained w m
      → length l ≡ length m
      → head_hash l ≡ head_hash m
      → Agree l m
  chain_binds t [] [] tl tm cl cm n e = inl refl
  chain_binds t [] (y ∷ m) tl tm cl cm n e = absurd (omega arith)
  chain_binds t (x ∷ l) [] tl tm cl cm n e = absurd (omega arith)
  chain_binds t (x ∷ l) (y ∷ m) tl tm cl cm n e =
      step (λ eh. chain_binds t l m tl.1 tm.1 cl.2 cm.2 (omega arith) eh)
        (digest_binds x.prev_hash y.prev_hash (canonical_of x) (canonical_of y) sizes hashes)
    where
      px : x.prev_hash ≡ head_hash l
      px =
          cl.0
          ∙ (ap (λ u. hash_of (last_inserted (of_tenant u) l)) tl.0 ∙ last_inserted-head t l tl.1)

      py : y.prev_hash ≡ head_hash m
      py =
          cm.0
          ∙ (ap (λ u. hash_of (last_inserted (of_tenant u) m)) tm.0 ∙ last_inserted-head t m tm.1)

      sizes : length (or_empty x.prev_hash) ≡ length (or_empty y.prev_hash)
      sizes =
          cc (px, py, head_hash-size l cl.2, head_hash-size m cm.2, hash_size-eq l m (omega arith))

      hashes : digest w x.prev_hash (canonical_of x) ≡ digest w y.prev_hash (canonical_of y)
      hashes = sym cl.1 ∙ (some-injective x.row_hash y.row_hash e ∙ cm.1)

      both : canonical_of x ≡ canonical_of y → Agree l m → Agree (x ∷ l) (y ∷ m)
      both ec (inl rest) = inl (cc (ec, rest))
      both ec (inr found) = inr found

      heads : or_empty x.prev_hash ≡ or_empty y.prev_hash → head_hash l ≡ head_hash m
      heads ep = head_hash-eq l m (omega arith) (cc (px, py, ep))

      step :
          (head_hash l ≡ head_hash m → Agree l m)
          → ((or_empty x.prev_hash ≡ or_empty y.prev_hash) × (canonical_of x ≡ canonical_of y))
            ⊎ Collision w
          → Agree (x ∷ l) (y ∷ m)
      step rest (inr found) = inr found
      step rest (inl (ep, ec)) = both ec (rest (heads ep))

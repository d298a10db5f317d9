-- ===== src/Session.antt =====
-- database.py and SQLAlchemy's `AsyncSession`: what a request can see and change, its transaction,
-- and the errors that its handler may raise. A write before a raise stays in the open transaction;
-- `close_session` drops what was not committed.
pub mod Effects
pub mod Atomic
pub mod Post
pub mod Aside
pub mod Halves
mod Outside
pub use Outside.*
use sawtai.Prelude.{ℕ, suc, ◌+◌, ◌≤◌, String, Option, none, some, List, [], Bool, if◌then◌else◌}
use sawtai.Schema.{Db, Bytes, Canonical}

-- How a POST to the Graph API ends: with the id of the message, with an HTTP error, with a reply
-- that has no id, with a reply that is no JSON and what its decoder says, or with an exception of
-- httpx, before the request has left or after.
pub data GraphReply : Type 0 where
  accepted : String → GraphReply
  refused : ℕ → GraphReply
  without_id : GraphReply
  garbled : String → GraphReply
  timed_out : GraphReply
  unreachable : GraphReply

-- What the services take from outside: hashing, JSON, clocks, random ids, text tables, the
-- network. `clock n` is the time that the n-th reading of the clock gives; so for `uuid4`.
pub record World : Type 0 where
  pub sha256 : Bytes → Bytes
  pub dumps : Canonical → Bytes
  pub clock : ℕ → ℕ
  pub uuid4 : ℕ → ℕ
  pub year : ℕ → ℕ
  -- `str.lower`, `str.isspace` on one code point, and the collation of an ORDER BY on texts
  pub lower : String → String
  pub is_space : ℕ → Bool
  pub collate_le : String → String → Bool
  -- text ILIKE '%' || pattern || '%', and the same of the reference of a case
  pub ilike : String → String → Bool
  pub ilike_reference : ℕ → ℕ → String → Bool
  -- uuid5 of the address of a notification: its kind, target and recipient
  pub uuid5 : String → ℕ → ℕ → ℕ
  -- the text of a reference, by its year and hexadecimal digits, and of a time
  pub reference_text : ℕ → ℕ → String
  pub iso_text : ℕ → String
  -- `str(uuid)`
  pub uuid_text : ℕ → String
  -- the n-th call of the WhatsApp Graph API: recipient, body, context
  -- what the knowledge base uses
  pub engine : Engine
  pub graph_api : ℕ → String → String → String → GraphReply

-- One outbound message that has left, or may have: the reply that it carries, the recipient, and
-- whether it was confirmed by a reference.
pub record Delivery : Type 0 where
  pub response_id : ℕ
  pub recipient : String
  pub body : String
  pub confirmed : Bool
  pub external_id : String

pub record Session : Type 0 where
  pub world : World
  -- the database as the open transaction sees it, and as it was last committed
  pub db : Db
  pub saved : Db
  -- readings of the clock and ids drawn so far
  pub reads : ℕ
  pub drawn : ℕ
  -- SQL's now(): when the transaction began
  pub started : ℕ
  -- the sequence behind core.audit_log.audit_id
  pub serial : ℕ
  -- what has left the system, newest first, and the calls of other servers made
  pub outbox : List Delivery
  pub calls : ℕ

pub data Error : Type 0 where
  lookup_error value_error permission_error runtime_error delivery_error : String → Error
  integrity_error transport_error : Error
  http_error : ℕ → String → Error
  -- DocumentIngestionError: code and message
  ingestion_error : String → String → Error
  -- UploadedDocumentError, with the id of the document
  uploaded_error : ℕ → String → String → Error

pub data Result {ℓ} (A : Type ℓ) : Type ℓ where
  ok : A → Result A
  err : Error → Result A

abbrev pub Exec : Type 0 → Type 0
Exec A = Session → Result A × Session

module _ {A : Type 0} where
  abbrev pub pure : A → Exec A
  pure a s = (ok a, s)

  abbrev pub raise : Error → Exec A
  raise e s = (err e, s)

  abbrev pub gets : (Session → A) → Exec A
  gets f s = (ok (f s), s)

  -- `if row is None: raise e`
  abbrev pub require_row : Option A → Error → Exec A
  require_row none e = raise e
  require_row (some a) e = pure a

module _ {A B : Type 0} where
  abbrev pub continue : Result A → (A → Exec B) → Exec B
  continue (ok a) f s = f a s
  continue (err e) f s = (err e, s)

  infixl 5 ◌>>=◌ ◌>>◌
  abbrev pub ◌>>=◌ : Exec A → (A → Exec B) → Exec B
  ◌>>=◌ m f s = let (r, s') = m s in continue r f s'

  abbrev pub ◌>>◌ : Exec A → Exec B → Exec B
  m >> n = m >>= λ _. n

abbrev pub raise_if : Bool → Error → Exec (Unit {0})
raise_if b e s = (if b then err e else ok tt, s)

-- `datetime.now(UTC)`
abbrev pub now : Exec ℕ
now s = (ok (s.world.clock s.reads), record s { reads = s.reads + 1 })

-- `uuid4()`
abbrev pub uuid4 : Exec ℕ
uuid4 s = (ok (s.world.uuid4 s.drawn), record s { drawn = s.drawn + 1 })

-- SQL's now()
abbrev pub sql_now : Exec ℕ
sql_now s = (ok s.started, s)

abbrev pub modify : (Db → Db) → Exec (Unit {0})
modify f s = (ok tt, record s { db = f s.db })

-- The next statement opens a transaction, which has its own now().
abbrev pub commit : Exec (Unit {0})
commit s = (ok tt, record s { saved = s.db; started = s.world.clock s.reads; reads = s.reads + 1 })

abbrev pub rollback : Exec (Unit {0})
rollback s =
    (ok tt, record s { db = s.saved; started = s.world.clock s.reads; reads = s.reads + 1 })

-- The end of `async with session_factory() as session`: what was not committed is dropped, and the
-- first statement of the next request opens a transaction, which has its own now().
abbrev pub close_session : Session → Session
close_session s = record s { db = s.saved; started = s.world.clock s.reads; reads = s.reads + 1 }

-- one request: its handler in a session of its own
abbrev pub request : {A : Type 0} → Exec A → Session → Result A × Session
request m s = let (r, s') = m s in (r, close_session s')

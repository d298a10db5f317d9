-- ===== src/Ingest/MessageLaws.antt =====
-- A message that arrives again is recognised, and one that only looks the same is lost.
use Prim.Native.String.{String}
use text.Mathlib.TextPositions.{eq_refl}
use sawtai.Prelude.{
  ℕ, ◌+◌, ◌≡◌, refl, sym, ap, ◌∙◌, ◌⊎◌, Bool, true, false, Option, none, some, List, [], ◌∷◌, any,
  ==_refl, Bool-cases, Option-cases, inl, inr,
}
use sawtai.Schema.{Bytes, Source, Message, VaultEntry, Db}
use sawtai.Session.{World, Session, Result, ok, err, require_row}
use sawtai.Knowledge.Rows.{bytes_eq}
use sawtai.Session.Post.{ok-injective}
use sawtai.Ingest.Messages.{
  InboundMessage, PersistedMessage, Channel, find_source, newest_message, is_external,
  is_same_content, find_message, persisted, plausible, new_message, same_key, insert_message,
  is_author, insert_author, insert_or_find, persist_from, vault_entry, store,
  persist_inbound_message,
}

-- what a second delivery finds
again :
    (ch : Channel) (i : InboundMessage) (src : Source) (m : Message) (s : Session)
    → find_source ch s.db.tenants s.db.sources ≡ some src
    → newest_message (is_external src i.external_id) s.db.messages ≡ some m
    → persist_inbound_message ch i s ≡ (ok (persisted src m true), s)
unfolding persist_inbound_message
again ch i src m s known found = rw (known, require_row, found, persist_from) refl

author-stays :
    (v : VaultEntry) (db : Db)
    → ((insert_author v db).messages ≡ db.messages)
      × ((insert_author v db).sources ≡ db.sources)
      × ((insert_author v db).tenants ≡ db.tenants)
author-stays v db = elim (Bool-cases (any (is_author v.author_pseudonym) db.pii_vault)) [
  | inl known ↦ rw known (refl, refl, refl)
  | inr new ↦ rw new (refl, refl, refl)
]

newest-first :
    (p : Message → Bool) (m : Message) (ms : List Message)
    → newest_message p ms ≡ none
    → p m ≡ true
    → newest_message p (m ∷ ms) ≡ some m
unfolding newest_message
newest-first p m ms empty hit = rw (empty, hit) refl

-- the message is there, and would be found by its external id
abbrev IsStored : Channel → InboundMessage → Source → Message → Session → Type 0
IsStored ch i src m s =
    (find_source ch s.db.tenants s.db.sources ≡ some src)
    × (newest_message (is_external src i.external_id) s.db.messages ≡ some m)

-- how a call ends: with an error, with a duplicate, or with a new message
abbrev Outcome : Channel → InboundMessage → Result PersistedMessage × Session → Type 0
Outcome ch i (err x, s) = Unit
Outcome ch i (ok p, s) =
    (p.duplicate ≡ true)
    ⊎ ((src : Source) × (m : Message) × (p ≡ persisted src m false) × IsStored ch i src m s)

insert-Outcome :
    (ch : Channel) (i : InboundMessage) (src : Source) (m : Message) (o : Option Message)
    (s : Session)
    → find_source ch s.db.tenants s.db.sources ≡ some src
    → newest_message (is_external src i.external_id) s.db.messages ≡ none
    → is_external src i.external_id m ≡ true
    → Outcome ch i (insert_or_find i src m o s)
unfolding insert_message
insert-Outcome ch i src m (some twin) s known empty hit = inl refl
insert-Outcome ch i src m none s known empty hit =
    elim (Bool-cases (any (same_key m) s.db.messages)) [
      | inl taken ↦ rw taken tt
      | inr free ↦
          let (same_messages, same_sources, same_tenants) =
            author-stays (vault_entry i src m s.started) (store m s.db) in
          rw (free, same_messages, same_sources, same_tenants)
            (inr (
              src,
              m,
              refl,
              (known, newest-first (is_external src i.external_id) m s.db.messages empty hit),
            ))
    ]

own_key :
    (w : World) (ch : Channel) (i : InboundMessage) (src : Source) (k at : ℕ)
    → is_external src i.external_id (new_message w ch i src k at) ≡ true
own_key w ch i src k at =
    rw (==_refl src.tenant_id, ==_refl src.source_id, eq_refl i.external_id) refl

persist-Outcome :
    (ch : Channel) (i : InboundMessage) (s : Session)
    → Outcome ch i (persist_inbound_message ch i s)
unfolding persist_inbound_message
persist-Outcome ch i s = elim (Option-cases (find_source ch s.db.tenants s.db.sources)) [
  | inl absent ↦ rw (absent, require_row) tt
  | inr (src, known) ↦
      elim (Option-cases (newest_message (is_external src i.external_id) s.db.messages)) [
        | inr (m, found) ↦ rw (known, require_row, found, persist_from) (inl refl)
        | inl empty ↦
            rw (known, require_row, empty, persist_from)
              (insert-Outcome ch i src _ _ _ known empty (
                own_key s.world ch i src (s.world.uuid4 s.drawn)
                  (plausible (s.world.clock s.reads) i.occurred_at)))
      ]
]

abbrev as_duplicate : PersistedMessage → PersistedMessage
as_duplicate p = record p { duplicate = true }

settle :
    (ch : Channel) (i : InboundMessage) (x : Result PersistedMessage × Session)
    (p : PersistedMessage)
    → Outcome ch i x
    → x.0 ≡ ok p
    → p.duplicate ≡ false
    → persist_inbound_message ch i x.1 ≡ (ok (as_duplicate p), x.1)
settle ch i (err e, s) p h done new = cc
settle ch i (ok q, s) p (inl twice) done new = cc (ok-injective q p done)
settle ch i (ok q, s) p (inr (src, m, same, stored)) done new =
    again ch i src m s stored.0 stored.1
    ∙ ap (λ r. (ok (as_duplicate r), s)) (sym same ∙ ok-injective q p done)

-- Once a message has been stored as new, its next delivery is answered as a duplicate with the same
-- ids, time and text, and changes nothing.
pub persist_idem :
    (ch : Channel) (i : InboundMessage) (s : Session) (p : PersistedMessage)
    → (persist_inbound_message ch i s).0 ≡ ok p
    → p.duplicate ≡ false
    → persist_inbound_message ch i (persist_inbound_message ch i s).1
      ≡ (ok (record p { duplicate = true }), (persist_inbound_message ch i s).1)
persist_idem ch i s p done new =
    settle ch i (persist_inbound_message ch i s) p (persist-Outcome ch i s) done new

bytes_eq_refl : (bs : Bytes) → bytes_eq bs bs ≡ true
bytes_eq_refl [] = refl
bytes_eq_refl (b ∷ bs) = rw (==_refl b) (bytes_eq_refl bs)

content_found :
    (m : Message) (ms : List Message)
    → find_message (is_same_content m.tenant_id m.content_hash m.occurred_at) (m ∷ ms) ≡ some m
unfolding find_message
content_found m ms =
    rw (==_refl m.tenant_id, bytes_eq_refl m.content_hash, ==_refl m.occurred_at) refl

-- the same text at the same time, from another number
abbrev pub from_other : InboundMessage → String → String → InboundMessage
from_other i external_id sender = record i { external_id = external_id; sender_native_id = sender }

-- Where a citizen's message was stored last, a message of another citizen with the same text and
-- time, which is not in the future, is answered as a duplicate of it: nothing of the second message is
-- stored, nor its sender.
pub same_text_lost :
    (ch : Channel) (i : InboundMessage) (src : Source) (k : ℕ) (external_id sender : String)
    (older : List Message) (s : Session)
    → find_source ch s.db.tenants s.db.sources ≡ some src
    → s.db.messages ≡ new_message s.world ch i src k i.occurred_at ∷ older
    → newest_message (is_external src external_id) s.db.messages ≡ none
    → plausible (s.world.clock s.reads) i.occurred_at ≡ i.occurred_at
    → persist_inbound_message ch (from_other i external_id sender) s ≡ (
      ok (persisted src (new_message s.world ch i src k i.occurred_at) true),
      record s { reads = s.reads + 1; drawn = s.drawn + 1 },
    )
unfolding persist_inbound_message
same_text_lost ch i src k external_id sender older s known stored fresh past =
    rw
      (
        known,
        require_row,
        fresh,
        persist_from,
        past,
        stored,
        content_found (new_message s.world ch i src k i.occurred_at) older,
        insert_or_find,
      )
      refl

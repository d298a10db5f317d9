-- ===== src/Examples/Dictionaries.antt =====
-- An injective way to write the dictionary that is hashed: a text is its code points, each one
-- higher, and a 0.
use text.Mathlib.TextEquality.{Char-path}
use Prim.Native.Char.{code}
use Prim.Native.String.{[] as empty_text, ◌∷◌ as ◌⊲◌}
use sawtai.Prelude.{ℕ, suc, String, ◌≡◌, refl, Option, none, some, [], ◌∷◌, arith}
use sawtai.Schema.{Canonical, Bytes}

abbrev pub write_text : String → Bytes → Bytes
write_text empty_text rest = 0 ∷ rest
write_text (c ⊲ s) rest = suc (code c) ∷ write_text s rest

abbrev pub write_option : Option ℕ → Bytes → Bytes
write_option none rest = 0 ∷ rest
write_option (some n) rest = suc n ∷ rest

abbrev pub dumps : Canonical → Bytes
dumps c =
    c.tenant_id
    ∷ c.occurred_at
    ∷ write_option c.actor_user_id (
        write_option c.object_id (
          write_text c.actor_type
            (write_text c.action (write_text c.object_type (write_text c.outcome [])))))

cons_inj : (a b : ℕ) (x y : Bytes) → a ∷ x ≡ b ∷ y → (a ≡ b) × (x ≡ y)
cons_inj a b x y e = ground arith

write_text_inj : (s t : String) (x y : Bytes) → write_text s x ≡ write_text t y → (s ≡ t) × (x ≡ y)
write_text_inj empty_text empty_text x y e = (refl, (cons_inj 0 0 x y e).1)
write_text_inj empty_text (d ⊲ t) x y e = absurd (omega (arith, (cons_inj _ _ _ _ e).0))
write_text_inj (c ⊲ s) empty_text x y e = absurd (omega (arith, (cons_inj _ _ _ _ e).0))
write_text_inj (c ⊲ s) (d ⊲ t) x y e =
    let (heads, tails) = cons_inj _ _ _ _ e in
    let (same, rest) = write_text_inj s t x y tails in
    (cc (Char-path c d (omega (arith, heads)), same), rest)

write_option_inj :
    (s t : Option ℕ) (x y : Bytes) → write_option s x ≡ write_option t y → (s ≡ t) × (x ≡ y)
write_option_inj none none x y e = ground arith
write_option_inj none (some n) x y e = ground arith
write_option_inj (some n) none x y e = ground arith
write_option_inj (some n) (some m) x y e = ground arith

pub dumps_inj : (c d : Canonical) → dumps c ≡ dumps d → c ≡ d
dumps_inj c d e =
    let (tenants, e1) = cons_inj _ _ _ _ e in
    let (times, e2) = cons_inj _ _ _ _ e1 in
    let (actors, e3) = write_option_inj c.actor_user_id d.actor_user_id _ _ e2 in
    let (objects, e4) = write_option_inj c.object_id d.object_id _ _ e3 in
    let (types, e5) = write_text_inj c.actor_type d.actor_type _ _ e4 in
    let (actions, e6) = write_text_inj c.action d.action _ _ e5 in
    let (kinds, e7) = write_text_inj c.object_type d.object_type _ _ e6 in
    let (outcomes, e8) = write_text_inj c.outcome d.outcome _ _ e7 in
    λ i. record {
      tenant_id = tenants i;
      actor_user_id = actors i;
      actor_type = types i;
      action = actions i;
      object_type = kinds i;
      object_id = objects i;
      outcome = outcomes i;
      occurred_at = times i;
    }

-- ===== src/Replies/Metric.antt =====
-- The number stored as `edit_distance` is a metric on texts: it counts the places where the shorter
-- text, filled up to the length of the longer one, differs.
use Prim.Native.Char.{Char, code}
use Prim.Native.String.{[], ◌∷◌}
use text.Mathlib.TextEquality.{Char-path}
use sawtai.Prelude.{ℕ, ◌+◌, ◌≤◌, String, ◌≡◌, ◌↔◌, refl, subst, arith, ◌==◌, if◌then◌else◌}
use sawtai.Text.{length}
use sawtai.Replies.Distance.{mismatches, gap, edit_distance}

edit_distance-cons :
    (c d : Char) (s t : String)
    → edit_distance (c ∷ s) (d ∷ t) ≡ (if code c == code d then 0 else 1) + edit_distance s t
unfolding edit_distance mismatches length
edit_distance-cons c d s t = ground arith

same_code : (n : ℕ) → ◌≡◌ {A = ℕ} (if n == n then 0 else 1) 0
same_code n = ground arith

differs_triangle :
    (a b c : ℕ) → (if a == c then 0 else 1) ≤ (if a == b then 0 else 1) + (if b == c then 0 else 1)
differs_triangle a b c = ground arith

edit_distance_comm : (s t : String) → edit_distance s t ≡ edit_distance t s
unfolding edit_distance mismatches length
edit_distance_comm [] [] = refl
edit_distance_comm [] (d ∷ t) = ground arith
edit_distance_comm (c ∷ s) [] = ground arith
edit_distance_comm (c ∷ s) (d ∷ t) =
    ground (arith, edit_distance-cons c d s t, edit_distance-cons d c t s, edit_distance_comm s t)

length-edit_distance : (s t : String) → length t ≤ length s + edit_distance s t
unfolding edit_distance
length-edit_distance s t = omega arith

mismatches-length :
    (s t : String) → mismatches s t + gap (length s) (length t) ≤ length s + length t
unfolding mismatches length
mismatches-length [] t = ground arith
mismatches-length (c ∷ s) [] = ground arith
mismatches-length (c ∷ s) (d ∷ t) = ground (arith, mismatches-length s t)

edit_distance-empty : (t : String) → edit_distance [] t ≡ length t
unfolding edit_distance mismatches length
edit_distance-empty t = omega arith

-- when one of the three texts is empty
empty_triangle : (t u : String) → edit_distance [] u ≤ edit_distance [] t + edit_distance t u
empty_triangle t u =
    omega (arith, edit_distance-empty t, edit_distance-empty u, length-edit_distance t u)

comm_triangle : (s t : String) → edit_distance s [] ≤ edit_distance s t + edit_distance t []
comm_triangle s t = omega (
  arith,
  empty_triangle t s,
  edit_distance_comm s [],
  edit_distance_comm t [],
  edit_distance_comm s t,
)

rest_triangle : (s u : String) → edit_distance s u ≤ edit_distance s [] + edit_distance [] u
unfolding edit_distance
rest_triangle s u = omega (
  arith,
  edit_distance-empty s,
  edit_distance-empty u,
  edit_distance_comm s [],
  mismatches-length s u,
)

-- The triangle inequality: two edits in a row never count less than the one that replaces them.
pub edit_distance_triangle :
    (s t u : String) → edit_distance s u ≤ edit_distance s t + edit_distance t u
edit_distance_triangle [] t u = empty_triangle t u
edit_distance_triangle (c ∷ s) [] u = rest_triangle (c ∷ s) u
edit_distance_triangle (c ∷ s) (d ∷ t) [] = comm_triangle (c ∷ s) (d ∷ t)
edit_distance_triangle (c ∷ s) (d ∷ t) (e ∷ u) = omega (
  arith,
  edit_distance-cons c e s u,
  edit_distance-cons c d s t,
  edit_distance-cons d e t u,
  differs_triangle (code c) (code d) (code e),
  edit_distance_triangle s t u,
)

edit_distance_self : (s : String) → edit_distance s s ≡ 0
unfolding edit_distance mismatches length
edit_distance_self [] = refl
edit_distance_self (c ∷ s) =
    omega (arith, edit_distance-cons c c s s, same_code (code c), edit_distance_self s)

heads_agree : (m n d e : ℕ) → e ≡ (if m == n then 0 else 1) + d → e ≡ 0 → (m ≡ n) × (d ≡ 0)
heads_agree m n d e step h = ground (arith, step, h)

edit_distance-zero : (s t : String) → edit_distance s t ≡ 0 → s ≡ t
unfolding edit_distance mismatches length
edit_distance-zero [] [] h = refl
edit_distance-zero [] (d ∷ t) h = ground (arith, h)
edit_distance-zero (c ∷ s) [] h = ground (arith, h)
edit_distance-zero (c ∷ s) (d ∷ t) h =
    let (codes, rest) =
      heads_agree (code c) (code d) (edit_distance s t) (edit_distance (c ∷ s) (d ∷ t))
        (edit_distance-cons c d s t) h in
    cc (Char-path c d codes, edit_distance-zero s t rest)

-- The number is 0 exactly if the edit left the text as it was, so that a text that was cut or
-- lengthened is never counted as unchanged.
pub edit_distance_zero_iff : (s t : String) → (edit_distance s t ≡ 0) ↔ (s ≡ t)
edit_distance_zero_iff s t =
    (edit_distance-zero s t, λ e. subst (λ u. edit_distance s u ≡ 0) e (edit_distance_self s))

-- ===== src/Repository/DiffText/Writing.antt =====
-- A writer with a limit holds the first of the pieces that are written, up to one that does not fit.
use mathlib.Core.List.{append_assoc, append-nil}
use cope_code.Common.{
  ℕ, ◌+◌, ◌≤◌, ◌<◌, ◌≡◌, refl, sym, ap, ◌∙◌, ◌⊎◌, inl, inr, subst, Bool, true, false, List, [], ◌∷◌,
  ◌++◌, Text, if◌then◌else◌, ltb, Bool-cases, arith,
}
use cope_code.Protocol.Parser.{byte_length}
use cope_code.Repository.DiffText.{Writer, append, written, if_went}

-- The pieces of a text, written one after the other.
abbrev pub write_all : Writer → List Text → Writer
write_all w [] = w
write_all w (p ∷ ps) = write_all (written w p) ps

abbrev pub total : List Text → ℕ
total [] = 0
total (p ∷ ps) = byte_length p + total ps

-- The writer holds the first of the pieces: all of them, or those in front of one that is too long.
abbrev pub IsCut : Writer → List Text → Writer → Type 0
IsCut w pieces w' =
    (shown : List Text) × (cut : List Text) × (pieces ≡ shown ++ cut)
    × (w'.chunks ≡ w.chunks ++ shown)
    × (w'.retained_bytes ≡ w.retained_bytes + total shown)
    × (w'.retained_bytes ≤ w.max_bytes)
    × (((w'.truncated ≡ false) × (cut ≡ []))
        ⊎ ((w'.truncated ≡ true)
            × ((p : Text) × (ps : List Text) × (cut ≡ p ∷ ps)
                × (w.max_bytes < w'.retained_bytes + byte_length p))))

written-stuck : (w : Writer) (p : Text) → w.truncated ≡ true → written w p ≡ w
unfolding append
written-stuck w p h = rw h refl

pub write_all-stuck : (w : Writer) (ps : List Text) → w.truncated ≡ true → write_all w ps ≡ w
write_all-stuck w [] h = refl
write_all-stuck w (p ∷ ps) h =
    ap (λ v. write_all v ps) (written-stuck w p h) ∙ write_all-stuck w ps h

pub write_all-append :
    (w : Writer) (ps qs : List Text) → write_all w (ps ++ qs) ≡ write_all (write_all w ps) qs
write_all-append w [] qs = refl
write_all-append w (p ∷ ps) qs = write_all-append (written w p) ps qs

-- A call that returns wrote the pieces, and it says `false` only where the limit was met.
abbrev pub Follows : Writer → List Text → Writer × Bool → Type 0
Follows w ps (w', went) = (w' ≡ write_all w ps) × (went ≡ false → w'.truncated ≡ true)

pub append-Follows : (w : Writer) (p : Text) → Follows w (p ∷ []) (append w p)
unfolding append
append-Follows w p = (refl, λ h. ground arith)

pub if_went-Follows :
    (w : Writer) (ps qs : List Text) (r : Writer × Bool) (next : Writer → Writer × Bool)
    → Follows w ps r
    → ((w1 : Writer) → Follows w1 qs (next w1))
    → Follows w (ps ++ qs) (if_went r next)
if_went-Follows w ps qs (w1, true) next (is, h) then_next = (
  (then_next w1).0 ∙ ap (λ v. write_all v qs) is ∙ sym (write_all-append w ps qs),
  (then_next w1).1,
)
if_went-Follows w ps qs (w1, false) next (is, h) then_next = (
  sym (write_all-stuck w1 qs (h refl))
      ∙ ap (λ v. write_all v qs) is
      ∙ sym (write_all-append w ps qs),
  λ e. h refl,
)

abbrev closed : Writer → Writer
closed w = record w { truncated = true }

abbrev longer : Writer → Text → Writer
longer w p = record w {
  chunks = w.chunks ++ p ∷ [];
  retained_bytes = w.retained_bytes + byte_length p;
}

second_taken {ℓ} :
    {A : Type ℓ} (a b : Bool) (x y z : A)
    → a ≡ false
    → b ≡ true
    → (if a then x else if b then y else z) ≡ y
second_taken true b x y z h k = cc h
second_taken false true x y z h k = refl
second_taken false false x y z h k = cc k

third_taken {ℓ} :
    {A : Type ℓ} (a b : Bool) (x y z : A)
    → a ≡ false
    → b ≡ false
    → (if a then x else if b then y else z) ≡ z
third_taken true b x y z h k = cc h
third_taken false true x y z h k = cc k
third_taken false false x y z h k = refl

written-closed :
    (w : Writer) (p : Text)
    → w.truncated ≡ false
    → ltb w.max_bytes (w.retained_bytes + byte_length p) ≡ true
    → written w p ≡ closed w
unfolding append
written-closed w p going over =
    ap {A = Writer × Bool} (λ q. q.0) (second_taken w.truncated _ _ _ _ going over)

written-longer :
    (w : Writer) (p : Text)
    → w.truncated ≡ false
    → ltb w.max_bytes (w.retained_bytes + byte_length p) ≡ false
    → written w p ≡ longer w p
unfolding append
written-longer w p going under =
    ap {A = Writer × Bool} (λ q. q.0) (third_taken w.truncated _ _ _ _ going under)

IsCut-longer :
    (w w' : Writer) (p : Text) (ps : List Text) → IsCut (longer w p) ps w' → IsCut w (p ∷ ps) w'
IsCut-longer w w' p ps (shown, cut, whole, chunks, retained, fits, ends) = (
  p ∷ shown,
  cut,
  ap (◌∷◌ p) whole,
  chunks ∙ append_assoc w.chunks (p ∷ []) shown,
  omega arith,
  fits,
  ends,
)

pub write_all-IsCut :
    (w : Writer) (pieces : List Text)
    → w.truncated ≡ false
    → w.retained_bytes ≤ w.max_bytes
    → IsCut w pieces (write_all w pieces)
write_all-IsCut w [] going fits =
    ([], [], refl, sym (append-nil w.chunks), omega arith, fits, inl (going, refl))
write_all-IsCut w (p ∷ ps) going fits =
    elim (Bool-cases (ltb w.max_bytes (w.retained_bytes + byte_length p))) [
      | inl over ↦
          subst (IsCut w (p ∷ ps))
            (sym (
              ap (λ v. write_all v ps) (written-closed w p going over)
              ∙ write_all-stuck (closed w) ps refl))
            (
              [],
              p ∷ ps,
              refl,
              sym (append-nil w.chunks),
              omega arith,
              fits,
              inr (refl, (p, ps, refl, ground arith)),
            )
      | inr under ↦
          subst (λ v. IsCut w (p ∷ ps) (write_all v ps)) (sym (written-longer w p going under))
            (IsCut-longer w (write_all (longer w p) ps) p ps
              (write_all-IsCut (longer w p) ps going (ground arith)))
    ]

pub write_all-sequence :
    (w w1 w2 : Writer) (ps qs : List Text)
    → w1 ≡ write_all w ps
    → w2 ≡ write_all w1 qs
    → w2 ≡ write_all w (ps ++ qs)
write_all-sequence w w1 w2 ps qs h k =
    k ∙ ap (λ v. write_all v qs) h ∙ sym (write_all-append w ps qs)

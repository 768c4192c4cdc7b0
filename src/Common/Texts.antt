-- ===== src/Common/Texts.antt =====
-- Strings as lists of UTF-16 code units, with the string methods that the source calls.
use Prim.Native.Nat.{ℕ, ◌+◌}
use Prim.Native.Char.{code}
use Prim.Native.String.{String}
use mathlib.Core.Path.{◌≡◌, refl}
use mathlib.Core.Logic.{◌↔◌, inl, inr}
use mathlib.Core.Bool.{Bool, true, false, ◌&&◌, ◌||◌}
use mathlib.Core.List.{List, [], ◌∷◌, ◌++◌, map, reverse}
use native.Mathlib.Omega.{arith}
use cope_code.Common.Lists.{All}
use cope_code.Common.Tests.{Bool-cases, if◌then◌else◌, Eq, leb, nat_eq, nat_eq_iff}

abbrev pub Text : Type 0
Text = List ℕ

-- The code units of an ASCII literal.
abbrev pub text : String → Text
text String.[] = []
text (String.◌∷◌ c s) = code c ∷ text s

unfoldable pub text_eq : Text → Text → Bool
text_eq [] [] = true
text_eq [] (y ∷ ys) = false
text_eq (x ∷ xs) [] = false
text_eq (x ∷ xs) (y ∷ ys) = nat_eq x y && text_eq xs ys

pub text_eq_iff : (s t : Text) → (text_eq s t ≡ true) ↔ (s ≡ t)
unfolding text_eq
text_eq_iff [] [] = ground arith
text_eq_iff [] (y ∷ ys) = ground arith
text_eq_iff (x ∷ xs) [] = ground arith
text_eq_iff (x ∷ xs) (y ∷ ys) = ground (arith, text_eq_iff xs ys)

instance abbrev pub text_is_eq : Eq Text
text_is_eq = record { beq = text_eq; beq_iff = text_eq_iff }

-- `toLowerCase` on ASCII.
abbrev lower_unit : ℕ → ℕ
lower_unit c = if leb b'A' c && leb c b'Z' then c + 32 else c

unfoldable pub to_lower : Text → Text
to_lower s = map lower_unit s

-- `startsWith`.
unfoldable pub starts_with : Text → Text → Bool
starts_with [] s = true
starts_with (c ∷ p) [] = false
starts_with (c ∷ p) (d ∷ s) = nat_eq c d && starts_with p s

-- The white space and line ends that `trim` takes off.
unfoldable pub is_space : ℕ → Bool
is_space c =
    leb 9 c && leb c 13
    || (nat_eq c 32
        || (nat_eq c 160
            || (nat_eq c 0x1680
                || (leb 0x2000 c && leb c 0x200A
                    || (nat_eq c 0x2028
                        || (nat_eq c 0x2029
                            || (nat_eq c 0x202F
                                || (nat_eq c 0x205F || (nat_eq c 0x3000 || nat_eq c 0xFEFF)))))))))

-- `s.trim().length === 0`.
unfoldable pub is_blank : Text → Bool
is_blank [] = true
is_blank (c ∷ s) = is_space c && is_blank s

-- The code unit in front of the first piece of a split text.
abbrev pub glue : ℕ → List Text → List Text
glue c [] = (c ∷ []) ∷ []
glue c (piece ∷ pieces) = (c ∷ piece) ∷ pieces

-- `split` at one code unit: never an empty list.
unfoldable pub split : ℕ → Text → List Text
split d [] = [] ∷ []
split d (c ∷ s) = if nat_eq c d then [] ∷ split d s else glue c (split d s)

abbrev pub Lacks : ℕ → Text → Type 0
Lacks d s = All (λ c. nat_eq c d ≡ false) s

pub split-append :
    (d : ℕ) (piece rest : Text) → Lacks d piece → split d (piece ++ d ∷ rest) ≡ piece ∷ split d rest
unfolding split
split-append d [] rest h = rw ((nat_eq_iff d d).1 refl) refl
split-append d (c ∷ piece) rest (other, h) = rw (other, split-append d piece rest h) refl

pub All-glue {ℓ} :
    (Q : ℕ → Type ℓ) (c : ℕ) (pieces : List Text)
    → Q c
    → All (All Q) pieces
    → All (All Q) (glue c pieces)
All-glue Q c [] q h = ((q, tt), tt)
All-glue Q c (piece ∷ pieces) q (here, later) = ((q, here), later)

-- Every unit of a piece is a unit of the text that is no separator.
pub All-split {ℓ} :
    (Q : ℕ → Type ℓ) (d : ℕ) (s : Text)
    → All (λ c. nat_eq c d ≡ false → Q c) s
    → All (All Q) (split d s)
unfolding split
All-split Q d [] h = (tt, tt)
All-split Q d (c ∷ s) (here, later) = elim (Bool-cases (nat_eq c d)) [
  | inl same ↦ rw same (tt, All-split Q d s later)
  | inr other ↦ rw other (All-glue Q c (split d s) (here other) (All-split Q d s later))
]

unfoldable pub trim_start : Text → Text
trim_start [] = []
trim_start (c ∷ s) = if is_space c then trim_start s else c ∷ s

unfoldable pub trim : Text → Text
unfolding trim_start is_space
trim s = reverse (trim_start (reverse (trim_start s)))

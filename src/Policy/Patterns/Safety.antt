-- ===== src/Policy/Patterns/Safety.antt =====
-- What a normalized repository path is.
use cope_code.Common.{
  ℕ, ◌≡◌, refl, ◌≢◌, inl, inr, false, not, some, List, [], ◌∷◌, Text, text, text_is_eq, nat_is_eq,
  text_eq, arith, nat_eq, any, All, select, contains, split, All-split, Bool-cases,
}
use cope_code.Policy.Patterns.{
  normalize_repository_path, with_slashes, join, is_idle, is_up, or_dot,
}

-- No separator, backslash, colon or NUL.
abbrev pub IsNameUnit : ℕ → Type 0
IsNameUnit c =
    (nat_eq c b'/' ≡ false) × (nat_eq c 92 ≡ false) × (nat_eq c b':' ≡ false) × (nat_eq c 0 ≡ false)

-- A directory or file name: not empty, neither "." nor "..", of name units.
pub record IsName (s : Text) : Type 0 where
  pub not_idle : is_idle s ≡ false
  pub not_up : is_up s ≡ false
  pub units : All IsNameUnit s

-- The names of a path, joined by "/", or "." for the root.
pub data IsNormal : Text → Type 0 where
  root : IsNormal (text ".")
  names :
      {t : Text} (ss : List Text) → ss ≢ [] → All IsName ss → t ≡ join (text "/") ss → IsNormal t

slash_units :
    (s : Text)
    → contains 0 s ≡ false
    → contains b':' s ≡ false
    → All (λ c. nat_eq c b'/' ≡ false → IsNameUnit c) (with_slashes s)
unfolding contains with_slashes
slash_units [] h k = tt
slash_units (c ∷ s) h k = (λ e. ground arith, slash_units s (ground arith) (ground arith))

selected_names :
    (ss : List Text)
    → All (All IsNameUnit) ss
    → any is_up ss ≡ false
    → All IsName (select (λ s. not (is_idle s)) ss)
unfolding any select
selected_names [] u h = tt
selected_names (s ∷ ss) (here, later) h = elim (Bool-cases (is_idle s)) [
  | inl idle ↦ rw idle (selected_names ss later (ground arith))
  | inr name ↦ rw name (
    record { not_idle = name; not_up = ground arith; units = here },
    selected_names ss later (ground arith),
  )
]

join_names : (ss : List Text) → All IsName ss → IsNormal (or_dot (join (text "/") ss))
unfolding join text_eq
join_names [] h = root
join_names (s ∷ ss) h = names (s ∷ ss) (λ e. cc) h (first s ss h.0.not_idle)
  where
    first :
        (s : Text) (ss : List Text)
        → is_idle s ≡ false
        → or_dot (join (text "/") (s ∷ ss)) ≡ join (text "/") (s ∷ ss)
    first [] ss idle = cc
    first (c ∷ s) [] idle = refl
    first (c ∷ s) (t ∷ ts) idle = refl

abbrev segments_of : Text → List Text
segments_of candidate = split b'/' (with_slashes candidate)

normalized :
    (candidate t : Text)
    → normalize_repository_path candidate ≡ some t
    → (contains 0 candidate ≡ false)
      × (contains b':' candidate ≡ false)
      × (any is_up (segments_of candidate) ≡ false)
      × (t ≡ or_dot (join (text "/") (select (λ s. not (is_idle s)) (segments_of candidate))))
unfolding normalize_repository_path
normalized candidate t h = (ground arith, ground arith, ground arith, ground arith)

-- A path that is accepted is relative and in normal form: the root, or names joined by "/" that are
-- no "..", so that it stays below the repository whatever the candidate was.
pub normalize-IsNormal :
    (candidate t : Text) → normalize_repository_path candidate ≡ some t → IsNormal t
normalize-IsNormal candidate t h =
    let (no_nul, no_colon, no_up, made) = normalized candidate t h in
    rw made (
      join_names (select (λ s. not (is_idle s)) (segments_of candidate)) (
        selected_names (segments_of candidate)
          (All-split IsNameUnit b'/' (with_slashes candidate)
            (slash_units candidate no_nul no_colon))
          no_up))

with_slashes_units : (s : Text) → All IsNameUnit s → with_slashes s ≡ s
unfolding with_slashes
with_slashes_units [] h = refl
with_slashes_units (c ∷ s) (h, hs) = ground (arith, with_slashes_units s hs)

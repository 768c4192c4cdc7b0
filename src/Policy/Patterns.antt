-- ===== src/Policy/Patterns.antt =====
-- src/policy/patterns.ts. The glob matcher `minimatch` is a parameter.
pub mod Safety
use cope_code.Common.{
  ℕ, ◌+◌, ◌-◌, ◌≡◌, Bool, true, false, not, ◌&&◌, ◌||◌, Option, none, some, List, [], ◌∷◌, ◌++◌,
  map, Text, text, text_is_eq, nat_is_eq, text_eq, ◌==◌, if◌then◌else◌, leb, nat_eq, length, any,
  all, select, contains, split, to_lower,
}

-- `replaceAll("\\", "/")`.
abbrev slash : ℕ → ℕ
slash c = if nat_eq c 92 then 47 else c

unfoldable pub with_slashes : Text → Text
with_slashes s = map slash s

abbrev is_letter : ℕ → Bool
is_letter c = leb b'A' c && leb c b'Z' || leb b'a' c && leb c b'z'

-- `/^(?:[A-Za-z]:|[\\/])/`
unfoldable pub is_rooted : Text → Bool
is_rooted [] = false
is_rooted (c ∷ []) = nat_eq c 92 || nat_eq c 47
is_rooted (c ∷ d ∷ s) = nat_eq c 92 || nat_eq c 47 || is_letter c && nat_eq d b':'

unfoldable pub join : Text → List Text → Text
join separator [] = []
join separator (s ∷ []) = s
join separator (s ∷ t ∷ ts) = s ++ (separator ++ join separator (t ∷ ts))

-- A segment that stands for no step.
abbrev is_idle : Text → Bool
is_idle segment = text_eq segment [] || text_eq segment (text ".")

abbrev is_up : Text → Bool
is_up segment = text_eq segment (text "..")

abbrev or_dot : Text → Text
or_dot [] = text "."
or_dot (c ∷ s) = c ∷ s

unfoldable pub normalize_repository_path : Text → Option Text
unfolding contains any select with_slashes is_rooted
normalize_repository_path candidate =
    if nat_eq (length candidate) 0
      || (contains 0 candidate || (contains b':' candidate || is_rooted candidate))
    then none
    else (let segments = split b'/' (with_slashes candidate) in
        if any is_up segments
        then none
        else some (or_dot (join (text "/") (select (λ s. not (is_idle s)) segments))))

unfoldable pub is_safe_policy_pattern : Text → Bool
unfolding contains any with_slashes is_rooted
is_safe_policy_pattern pattern =
    if nat_eq (length pattern) 0
      || (contains 0 pattern || (contains b':' pattern || is_rooted pattern))
    then false
    else not (any is_up (split b'/' (with_slashes pattern)))

-- `replace(/^\.\/+/, "")`: a leading dot with the slashes behind it.
unfoldable pub drop_slashes : Text → Text
drop_slashes [] = []
drop_slashes (c ∷ s) = if nat_eq c b'/' then drop_slashes s else c ∷ s

unfoldable pub strip_here : Text → Text
unfolding drop_slashes
strip_here [] = []
strip_here (c ∷ []) = c ∷ []
strip_here (c ∷ d ∷ s) = if nat_eq c b'.' && nat_eq d b'/' then drop_slashes s else c ∷ d ∷ s

-- The text in front of a final `/**`, where it ends so.
unfoldable pub before_globstar : Text → Option Text
before_globstar [] = none
before_globstar (c ∷ s) =
    if text_eq (c ∷ s) (text "/**")
    then some []
    else elim (before_globstar s) [ none ↦ none | some t ↦ some (c ∷ t) ]

module _ (minimatch : Bool → Text → Text → Bool) where
  -- `minimatch nocase value pattern`; the other options are fixed.
  unfoldable pub match_policy_pattern : Bool → Text → Text → Bool
  unfolding with_slashes strip_here before_globstar
  match_policy_pattern case_sensitive value pattern =
      let v = or_dot (strip_here (with_slashes value)) in
      let p = strip_here (with_slashes pattern) in
      if text_eq v (text ".") && (text_eq p (text "**") || text_eq p (text "**/*"))
      then true
      else elim (before_globstar p) [
        | none ↦ minimatch (not case_sensitive) v p
        | some directory ↦ if text_eq v directory then true else minimatch (not case_sensitive) v p
      ]

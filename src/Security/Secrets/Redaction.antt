-- ===== src/Security/Secrets/Redaction.antt =====
-- The redacted text is the pieces outside of the findings, with a marker for each finding.
use cope_code.Common.{
  ℕ, suc, ◌-◌, ◌≤◌, ◌<◌, ◌≡◌, refl, sym, ap, ◌∙◌, false, List, [], ◌∷◌, ◌++◌, Text, leb, length,
  take, drop, drop-nil, take-append-drop, All, arith, map,
}
use cope_code.Security.Secrets.{
  SecretFinding, Matcher, insert_by, sort_by, later_first, marker_of, redact_one, redact_each,
  candidates_of, scan, redact,
}
use cope_code.Security.Secrets.Layout.{All-sort_by, IsWithin, IsLaidOut, remove_overlaps-IsLaidOut}

-- What a text has outside of the findings, from an index on: one piece more than there are findings.
unfoldable pub outside : ℕ → Text → List SecretFinding → List Text
outside from content [] = content ∷ []
outside from content (f ∷ fs) =
    take (f.start - from) content ∷ outside f.end (drop (f.end - from) content) fs

-- Pieces, with markers between them.
unfoldable pub marked : List Text → List Text → Text
marked [] ms = []
marked (p ∷ ps) [] = p
marked (p ∷ ps) (m ∷ ms) = p ++ (m ++ marked ps ms)

length-take : (n : ℕ) (s : Text) → n ≤ length s → length (take n s) ≡ n
unfolding take
length-take ℕ.zero s h = refl
length-take (ℕ.suc n) [] h = omega arith
length-take (ℕ.suc n) (c ∷ s) h = omega (arith, length-take n s (omega arith))

drop-append : (s t : Text) → drop (length s) (s ++ t) ≡ t
unfolding drop
drop-append [] t = refl
drop-append (c ∷ s) t = drop-append s t

take-take-append : (m n : ℕ) (s t : Text) → m ≤ n → n ≤ length s → take m (take n s ++ t) ≡ take m s
unfolding take
take-take-append ℕ.zero n s t h k = refl
take-take-append (ℕ.suc m) ℕ.zero s t h k = absurd (omega arith)
take-take-append (ℕ.suc m) (ℕ.suc n) [] t h k = absurd (omega arith)
take-take-append (ℕ.suc m) (ℕ.suc n) (c ∷ s) t h k =
    ap (◌∷◌ c) (take-take-append m n s t (omega arith) (omega arith))

-- A longer front is a shorter one and what follows it.
take-split : (m n : ℕ) (s : Text) → m ≤ n → take n s ≡ take m s ++ take (n - m) (drop m s)
unfolding take drop
take-split ℕ.zero n s h = ap (λ k. take k s) (omega arith)
take-split (ℕ.suc m) ℕ.zero s h = absurd (omega arith)
take-split (ℕ.suc m) (ℕ.suc n) [] h = sym (take-nil (suc n - suc m))
  where
    take-nil : (k : ℕ) → take {A = ℕ} k [] ≡ []
    take-nil ℕ.zero = refl
    take-nil (ℕ.suc k) = refl
take-split (ℕ.suc m) (ℕ.suc n) (c ∷ s) h =
    ap (◌∷◌ c)
      (take-split m n s (omega arith) ∙ ap (λ k. take m s ++ take k (drop m s)) (omega arith))

drop-drop : (m n : ℕ) (s : Text) → m ≤ n → drop (n - m) (drop m s) ≡ drop n s
unfolding drop
drop-drop ℕ.zero n s h = ap (λ k. drop k s) (omega arith)
drop-drop (ℕ.suc m) ℕ.zero s h = absurd (omega arith)
drop-drop (ℕ.suc m) (ℕ.suc n) [] h = drop-nil (suc n - suc m)
drop-drop (ℕ.suc m) (ℕ.suc n) (c ∷ s) h =
    ap (λ k. drop k (drop m s)) (omega arith) ∙ drop-drop m n s (omega arith)

-- The markers that are put in from the last finding on.
redact_back : List SecretFinding → Text → Text
redact_back [] content = content
redact_back (f ∷ fs) content = redact_one f (redact_back fs content)

append_assoc : (a b c : Text) → (a ++ b) ++ c ≡ a ++ (b ++ c)
append_assoc [] b c = refl
append_assoc (x ∷ a) b c = ap (◌∷◌ x) (append_assoc a b c)

redact_one_lem :
    (f : SecretFinding) (content tail : Text)
    → f.end ≤ length content
    → f.start ≤ f.end
    → redact_one f (take f.end content ++ tail) ≡ take f.start content ++ (marker_of f ++ tail)
unfolding redact_one
redact_one_lem f content tail room order =
    let front = take f.end content in
    let back : drop f.end (front ++ tail) ≡ tail =
      ap (λ k. drop k (front ++ tail)) (sym (length-take f.end content room))
      ∙ drop-append front tail in
    rw (take-take-append f.start f.end content tail order room, back) refl

redact_back-outside :
    (content : Text) (from : ℕ) (fs : List SecretFinding)
    → IsLaidOut (length content) from fs
    → redact_back fs content
      ≡ take from content ++ marked (outside from (drop from content) fs) (map marker_of fs)
unfolding redact_back outside marked
redact_back-outside content from [] h = sym (take-append-drop from content)
redact_back-outside content from (f ∷ fs) (h1, h2, h3) =
    let tail = marked (outside f.end (drop f.end content) fs) (map marker_of fs) in
    let room : f.end ≤ length content = laid_out_end f.end fs h3 in
    ap (redact_one f) (redact_back-outside content f.end fs h3)
    ∙ redact_one_lem f content tail room (omega arith)
    ∙ ap (λ t. t ++ (marker_of f ++ tail)) (take-split from f.start content h1)
    ∙ append_assoc (take from content) (take (f.start - from) (drop from content))
        (marker_of f ++ tail)
    ∙ ap
        (λ t.
          take from content
          ++ (take (f.start - from) (drop from content)
              ++ (marker_of f ++ marked (outside f.end t fs) (map marker_of fs))))
        (sym (drop-drop from f.end content (omega arith)))
  where
    laid_out_end :
        (from : ℕ) (fs : List SecretFinding)
        → IsLaidOut (length content) from fs
        → from ≤ length content
    laid_out_end from [] h = h
    laid_out_end from (g ∷ gs) (k1, k2, k3) = let r = laid_out_end g.end gs k3 in omega arith

redact_each-append :
    (fs : List SecretFinding) (f : SecretFinding) (content : Text)
    → redact_each (fs ++ f ∷ []) content ≡ redact_one f (redact_each fs content)
unfolding redact_each
redact_each-append [] f content = refl
redact_each-append (g ∷ fs) f content = redact_each-append fs f (redact_one g content)

-- A finding before all others goes to the end.
insert_last :
    (f : SecretFinding) (fs : List SecretFinding)
    → All (λ g. f.start < g.start) fs
    → insert_by later_first f fs ≡ fs ++ f ∷ []
unfolding insert_by later_first
insert_last f [] h = refl
insert_last f (g ∷ gs) (h, hs) =
    let apart : leb g.start f.start ≡ false = ground arith in
    rw apart (ap (◌∷◌ g) (insert_last f gs hs))

starts_after :
    (size from m : ℕ) (fs : List SecretFinding)
    → m < from
    → IsLaidOut size from fs
    → All (λ g. m < g.start) fs
starts_after size from m [] h l = tt
starts_after size from m (f ∷ fs) h (l1, l2, l3) =
    (omega arith, starts_after size f.end m fs (omega arith) l3)

redact_each-back :
    (size from : ℕ) (fs : List SecretFinding) (content : Text)
    → IsLaidOut size from fs
    → redact_each (sort_by later_first fs) content ≡ redact_back fs content
unfolding sort_by redact_each redact_back
redact_each-back size from [] content l = refl
redact_each-back size from (f ∷ fs) content (l1, l2, l3) =
    ap (λ gs. redact_each gs content)
      (insert_last f (sort_by later_first fs) (
        All-sort_by (λ g. f.start < g.start) later_first fs
          (starts_after size f.end f.start fs l2 l3)))
    ∙ redact_each-append (sort_by later_first fs) f content
    ∙ ap (redact_one f) (redact_each-back size f.end fs content l3)

module _ (matcher : Matcher) where
  -- `matchAll` gives matches that are not empty and lie in the text.
  abbrev pub IsSound : Text → Type 0
  IsSound content = All (IsWithin (length content)) (candidates_of matcher content)

  -- A redaction leaves of the text exactly the pieces outside of the findings, in order, with a marker
  -- in the place of each finding; the findings do not overlap and lie in the text. It is assumed that
  -- the matches of the expressions are not empty and lie in the text.
  pub redact_lem :
      (content : Text)
      → IsSound content
      → ((redact matcher content).content
          ≡ marked
              (outside 0 content (scan matcher content))
              (map marker_of (scan matcher content)))
        × IsLaidOut (length content) 0 (scan matcher content)
  unfolding redact scan drop take
  redact_lem content sound =
      let laid_out =
        remove_overlaps-IsLaidOut (length content) (candidates_of matcher content) sound in
      (
        redact_each-back (length content) 0 (scan matcher content) content laid_out
            ∙ redact_back-outside content 0 (scan matcher content) laid_out,
        laid_out,
      )

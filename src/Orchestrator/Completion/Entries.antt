-- ===== src/Orchestrator/Completion/Entries.antt =====
-- The maps of verifyCompletion, read by one key.
use cope_code.Common.{
  subst, ◌≡◌, refl, sym, ap, ◌∙◌, inl, inr, Bool, true, false, Option, none, some, List, [], ◌∷◌,
  ◌++◌, Text, ◌==◌, ==_iff, text_is_eq, Bool-cases, if◌then◌else◌, select, All, arith, concat_map,
}
use cope_code.Orchestrator.Completion.Types.{ValidationRecord, Reason}
use cope_code.Orchestrator.Completion.Repository.{if_push, is_some}
use cope_code.Orchestrator.Completion.Claims.{
  entry, has_entry, with_entry, newest_from, kept_claims, repeated_claims,
}

pub append_nil {ℓ} : {A : Type ℓ} (xs ys : List A) → xs ++ ys ≡ [] → (xs ≡ []) × (ys ≡ [])
append_nil [] ys h = (refl, h)
append_nil (x ∷ xs) ys h = cc

pub concat_map_nil {ℓ κ} :
    {A : Type ℓ} {B : Type κ} (f : A → List B) (xs : List A)
    → concat_map f xs ≡ []
    → All (λ x. f x ≡ []) xs
unfolding concat_map
concat_map_nil f [] h = tt
concat_map_nil f (x ∷ xs) h =
    let (here, later) = append_nil (f x) (concat_map f xs) h in (here, concat_map_nil f xs later)

pub if_push_nil {ℓ} :
    {A : Type ℓ} (test : Bool) (reason : A) → if_push test reason ≡ [] → test ≡ false
if_push_nil true reason h = cc
if_push_nil false reason h = refl

pub All-map {ℓ κ μ} :
    {A : Type ℓ} {P : A → Type κ} {Q : A → Type μ} (f : (x : A) → P x → Q x) (xs : List A)
    → All P xs
    → All Q xs
All-map f [] h = tt
All-map f (x ∷ xs) (here, later) = (f x here, All-map f xs later)

abbrev pub or_else {ℓ} : {A : Type ℓ} → Option A → Option A → Option A
or_else none b = b
or_else (some a) b = some a

abbrev pub listed {ℓ} : {A : Type ℓ} → Option A → List A
listed none = []
listed (some a) = a ∷ []

module _ {ℓ} {A : Type ℓ} where
  pub entry-with_entry :
      (j k : Text) (a : A) (es : List (Text × A))
      → entry j (with_entry k a es) ≡ (if k == j then some a else entry j es)
  unfolding entry with_entry
  entry-with_entry j k a [] = refl
  entry-with_entry j k a ((l, b) ∷ es) =
      ground (arith, entry-with_entry j k a es, ==_iff l k, ==_iff l j, ==_iff k j)

  pub has_entry-entry : (k : Text) (es : List (Text × A)) → has_entry k es ≡ is_some (entry k es)
  unfolding entry has_entry
  has_entry-entry k [] = refl
  has_entry-entry k ((l, b) ∷ es) = ground (arith, has_entry-entry k es)

  -- What holds of all entries holds of the one that is found.
  pub All-entry {κ} :
      (P : Text × A → Type κ) (k : Text) (es : List (Text × A)) (a : A)
      → All P es
      → entry k es ≡ some a
      → P (k, a)
  unfolding entry
  All-entry P k [] a h e = cc
  All-entry P k ((l, b) ∷ es) a (here, later) e = elim (Bool-cases (l == k)) [
    | inl same ↦
        subst (λ (p : Text × A). P p) (pair_eq ((==_iff l k).0 same) (some_eq (rw same at e))) here
    | inr apart ↦ All-entry P k es a later (rw apart at e)
  ]
    where
      pair_eq : {k l : Text} {a b : A} → l ≡ k → b ≡ a → ◌≡◌ {A = Text × A} (l, b) (k, a)
      pair_eq p q = cc

      some_eq : {a b : A} → some b ≡ some a → b ≡ a
      some_eq p = cc

-- The last record of a command.
unfoldable pub newest_of : Text → List ValidationRecord → Option ValidationRecord
newest_of command [] = none
newest_of command (v ∷ vs) =
    or_else (newest_of command vs) (if v.command_id == command then some v else none)

or_else_assoc {ℓ} :
    {A : Type ℓ} (a : Option A) (b c : Option A) → or_else a (or_else b c) ≡ or_else (or_else a b) c
or_else_assoc none b c = refl
or_else_assoc (some a) b c = refl

pub entry-newest_from :
    (command : Text) (es : List (Text × ValidationRecord)) (vs : List ValidationRecord)
    → entry command (newest_from es vs) ≡ or_else (newest_of command vs) (entry command es)
unfolding newest_from newest_of
entry-newest_from command es [] = refl
entry-newest_from command es (v ∷ vs) =
    rw
      (
        entry-newest_from command (with_entry v.command_id v es) vs,
        entry-with_entry command v.command_id v es,
        ← or_else_assoc (newest_of command vs) (if v.command_id == command then some v else none)
            (entry command es),
      )
      (ap (or_else (newest_of command vs)) (chosen (v.command_id == command)))
  where
    chosen :
        (b : Bool)
        → (if b then some v else entry command es)
          ≡ or_else (if b then some v else none) (entry command es)
    chosen true = refl
    chosen false = refl

module _ {ℓ} {A : Type ℓ} (key : A → Text) where
  abbrev pub claims_on : Text → List A → List A
  claims_on k cs = select (λ c. key c == k) cs

  module _ (repeated : Text → Reason) where
    kept_once :
        (k : Text) (es : List (Text × A)) (c : A) (cs : List A)
        → repeated_claims key repeated es (c ∷ cs) ≡ []
        → (entry (key c) es ≡ none)
          × (repeated_claims key repeated (with_entry (key c) c es) cs ≡ [])
          × (kept_claims key es (c ∷ cs) ≡ kept_claims key (with_entry (key c) c es) cs)
    unfolding repeated_claims kept_claims
    kept_once k es c cs h = ground (arith, has_entry-entry (key c) es)

    -- A key that has been seen occurs no more, and its entry stays.
    kept_seen :
        (k : Text) (es : List (Text × A)) (cs : List A) (a : A)
        → repeated_claims key repeated es cs ≡ []
        → entry k es ≡ some a
        → (claims_on k cs ≡ []) × (entry k (kept_claims key es cs) ≡ some a)
    unfolding select kept_claims
    kept_seen k es [] a h seen = (refl, seen)
    kept_seen k es (c ∷ cs) a h seen =
        let (new, later, kept) = kept_once k es c cs h in
        let other : (key c == k) ≡ false = elim (Bool-cases (key c == k)) [
          | inr apart ↦ apart
          | inl same ↦ cc (sym new ∙ ap (λ j. entry j es) ((==_iff (key c) k).0 same) ∙ seen)
        ] in
        let (none_left, still) =
          kept_seen k (with_entry (key c) c es) cs a later
            (entry-with_entry k (key c) c es ∙ rw other seen) in
        (rw other none_left, ap (entry k) kept ∙ still)

    -- Where no key is repeated, the claims on a key are its one entry.
    pub claims_on-entry :
        (k : Text) (es : List (Text × A)) (cs : List A)
        → repeated_claims key repeated es cs ≡ []
        → entry k es ≡ none
        → claims_on k cs ≡ listed (entry k (kept_claims key es cs))
    unfolding select kept_claims
    claims_on-entry k es [] h new = rw new refl
    claims_on-entry k es (c ∷ cs) h new =
        let (_, later, kept) = kept_once k es c cs h in
        elim (Bool-cases (key c == k)) [
          | inl same ↦
              let (none_left, still) =
                kept_seen k (with_entry (key c) c es) cs c later
                  (entry-with_entry k (key c) c es ∙ rw same refl) in
              rw (same, none_left, kept, still) refl
          | inr other ↦
              rw (other, kept)
                (claims_on-entry k (with_entry (key c) c es) cs later
                  (entry-with_entry k (key c) c es ∙ rw other new))
        ]

-- ===== src/Audit/Log/Chain.antt =====
-- What `verifyAuditText` accepts, and what it shows about two logs.
use cope_code.Common.{
  then_ok, ℕ, ◌+◌, suc, ◌≡◌, refl, sym, ap, ◌∙◌, ◌≢◌, ◌⊎◌, inl, inr, false, some, List, [], ◌∷◌,
  ◌++◌, map, Text, text_is_eq, nat_is_eq, ok, length, arith, text_eq, text_eq_iff, is_blank,
  Option-cases, Result-cases, split, Lacks, split-append,
}
use native.Mathlib.Decide.{ℕ_discrete}
use cope_code.Audit.Log.{
  EventBase, AuditEvent, Runtime, inconsistent, verify_from, verify_audit_text, genesis_hash, init,
  ends_open,
}

EventBase-discrete : Discrete EventBase
EventBase-discrete = hlevel ℕ_discrete

module _ (host : Runtime) (session_id : Text) where
  open host use {digest, print, parse}

  -- A chain of events: each one is numbered, points at the hash before it and carries its own.
  abbrev pub IsChain : ℕ → Text → List AuditEvent → Text → Type 0
  IsChain expected previous [] final = previous ≡ final
  IsChain expected previous (e ∷ es) final =
      (inconsistent host session_id expected previous e ≡ false)
      × (digest e.base ≡ e.event_hash)
      × IsChain (expected + 1) e.event_hash es final

  inconsistent_links :
      (expected : ℕ) (previous : Text) (e : AuditEvent)
      → inconsistent host session_id expected previous e ≡ false
      → (e.sequence ≡ expected) × (e.previous_hash ≡ previous) × (e.session_id ≡ session_id)
  unfolding inconsistent
  inconsistent_links expected previous e h =
      ground (arith, text_eq_iff e.session_id session_id, text_eq_iff e.previous_hash previous)

  abbrev pub Collision : Type 0
  Collision = (a b : EventBase) × (a ≢ b) × (digest a ≡ digest b)

  same_event :
      (a b : AuditEvent)
      → digest a.base ≡ a.event_hash
      → digest b.base ≡ b.event_hash
      → a.event_hash ≡ b.event_hash
      → (a ≡ b) ⊎ Collision
  same_event a b ga gb same = elim (EventBase-discrete a.base b.base) [
    | yes e ↦ inl (ground arith)
    | no differ ↦ inr (a.base, b.base, differ, ga ∙ same ∙ sym gb)
  ]

  -- Two chains of one length with the same last hash are the same, unless two events collide.
  IsChain-unique :
      (expected : ℕ) (p q : Text) (xs ys : List AuditEvent) (final : Text)
      → length xs ≡ length ys
      → IsChain expected p xs final
      → IsChain expected q ys final
      → ((p ≡ q) × (xs ≡ ys)) ⊎ Collision
  IsChain-unique expected p q [] [] final size a b = inl (a ∙ sym b, refl)
  IsChain-unique expected p q [] (y ∷ ys) final size a b = absurd (omega arith)
  IsChain-unique expected p q (x ∷ xs) [] final size a b = absurd (omega arith)
  IsChain-unique expected p q (x ∷ xs) (y ∷ ys) final size (ix, gx, cx) (iy, gy, cy) =
      elim (IsChain-unique (expected + 1) x.event_hash y.event_hash xs ys final (omega arith) cx
        cy) [
          | inr collision ↦ inr collision
          | inl (hashes, rest) ↦ elim (same_event x y gx gy hashes) [
            | inr collision ↦ inr collision
            | inl same ↦
                let (_, px, _) = inconsistent_links expected p x ix in
                let (_, py, _) = inconsistent_links expected q y iy in
                inl (sym px ∙ ap (λ (e : AuditEvent). e.previous_hash) same ∙ py, ground arith)
          ]
        ]

  -- One round of the loop, taken apart.
  verify_cons :
      (expected : ℕ) (previous line : Text) (lines : List Text) (es : List AuditEvent)
      (final : Text)
      → verify_from host session_id expected previous (line ∷ lines) ≡ ok (es, final)
      → (e : AuditEvent) × (rest : List AuditEvent) × (es ≡ e ∷ rest)
        × (inconsistent host session_id expected previous e ≡ false)
        × (digest e.base ≡ e.event_hash)
        × (verify_from host session_id (expected + 1) e.event_hash lines ≡ ok (rest, final))
  unfolding verify_from
  verify_cons expected previous line lines es final h = elim (Option-cases (parse line)) [
    | inl bad ↦ absurd (ground arith)
    | inr (e, parsed) ↦
        elim (Result-cases (verify_from host session_id (expected + 1) e.event_hash lines)) [
          | inr (fault, bad) ↦ absurd (ground arith)
          | inl ((rest, last_hash), good) ↦ (
            e,
            rest,
            ground arith,
            ground arith,
            ground (arith, text_eq_iff e.event_hash (digest e.base)),
            good ∙ ap (λ (f : Text). ok (rest, f)) (ground arith),
          )
        ]
  ]

  -- What the loop accepts is a chain, with an event for each line.
  pub verify_from-IsChain :
      (expected : ℕ) (previous : Text) (lines : List Text) (es : List AuditEvent) (final : Text)
      → verify_from host session_id expected previous lines ≡ ok (es, final)
      → IsChain expected previous es final × (length es ≡ length lines)
  unfolding verify_from
  verify_from-IsChain expected previous [] es final h =
      let none_read : es ≡ [] = ground arith in
      let same : previous ≡ final = ground arith in rw none_read (same, refl)
  verify_from-IsChain expected previous (line ∷ lines) es final h =
      let (e, rest, made, links, genuine, later) =
        verify_cons expected previous line lines es final h in
      let (chain, size) = verify_from-IsChain (expected + 1) e.event_hash lines rest final later in
      rw made ((links, genuine, chain), ap suc size)

  -- The last event of a chain carries the last hash, and its number counts the events.
  last_event :
      (expected : ℕ) (previous : Text) (e : AuditEvent) (es : List AuditEvent) (final : Text)
      → IsChain expected previous (e ∷ es) final
      → (b : EventBase) × (digest b ≡ final) × (b.sequence ≡ expected + length es)
  last_event expected previous e [] final (links, genuine, same) =
      (e.base, genuine ∙ same, (inconsistent_links expected previous e links).0 ∙ omega arith)
  last_event expected previous e (x ∷ es) final (links, genuine, later) =
      let (b, hashed, number) = last_event (expected + 1) e.event_hash x es final later in
      (b, hashed, number ∙ omega arith)

  -- An event whose hash is the one that the first event points at.
  abbrev pub Genesis : Type 0
  Genesis = (b : EventBase) × (digest b ≡ genesis_hash)

  IsChain-same :
      (xs ys : List AuditEvent) (final : Text)
      → IsChain 1 genesis_hash xs final
      → IsChain 1 genesis_hash ys final
      → (xs ≡ ys) ⊎ Collision ⊎ Genesis
  IsChain-same [] [] final a b = inl refl
  IsChain-same [] (y ∷ ys) final a b =
      let (base, hashed, _) = last_event 1 genesis_hash y ys final b in
      inr (inr (base, hashed ∙ sym a))
  IsChain-same (x ∷ xs) [] final a b =
      let (base, hashed, _) = last_event 1 genesis_hash x xs final a in
      inr (inr (base, hashed ∙ sym b))
  IsChain-same (x ∷ xs) (y ∷ ys) final a b =
      let (p, hp, np) = last_event 1 genesis_hash x xs final a in
      let (q, hq, nq) = last_event 1 genesis_hash y ys final b in
      elim (EventBase-discrete p q) [
        | no differ ↦ inr (inl (p, q, differ, hp ∙ sym hq))
        | yes same ↦
            let numbers : p.sequence ≡ q.sequence = ap (λ (b : EventBase). b.sequence) same in
            elim (IsChain-unique 1 genesis_hash genesis_hash (x ∷ xs) (y ∷ ys) final
              (omega (arith, np, nq, numbers)) a b) [
                | inl (_, equal) ↦ inl equal
                | inr collision ↦ inr (inl collision)
              ]
      ]

  -- Two files that verify with the same last hash hold the same events: none can be changed, dropped,
  -- added or moved without that hash showing it, unless two different events have one hash, or an
  -- event has the hash that the chain starts from.
  pub verify_audit_text_unique :
      (first second : Text) (xs ys : List AuditEvent) (final : Text)
      → verify_audit_text host session_id first ≡ ok (xs, final)
      → verify_audit_text host session_id second ≡ ok (ys, final)
      → (xs ≡ ys) ⊎ Collision ⊎ Genesis
  unfolding verify_audit_text
  verify_audit_text_unique first second xs ys final h k =
      let (_, read) = then_ok (ends_open (split 10 first)) _ _ _ h in
      let (_, read_too) = then_ok (ends_open (split 10 second)) _ _ _ k in
      IsChain-same xs ys final
        (verify_from-IsChain 1 genesis_hash (init (split 10 first)) xs final read).0
        (verify_from-IsChain 1 genesis_hash (init (split 10 second)) ys final read_too).0

  -- A printed event is one line that is not blank and reads back as the event.
  pub record PrintsLines : Type 0 where
    pub parse-print : (e : AuditEvent) → parse (print e) ≡ some e
    pub one_line : (e : AuditEvent) → Lacks 10 (print e)
    pub not_blank : (e : AuditEvent) → is_blank (print e) ≡ false

  IsChain-verify_from :
      (prints : PrintsLines) (expected : ℕ) (previous : Text) (es : List AuditEvent) (final : Text)
      → IsChain expected previous es final
      → verify_from host session_id expected previous (map print es) ≡ ok (es, final)
  unfolding verify_from
  IsChain-verify_from prints expected previous [] final c = rw c refl
  IsChain-verify_from prints expected previous (e ∷ es) final (links, genuine, c) =
      rw
        (
          prints.not_blank e,
          prints.parse-print e,
          links,
          (text_eq_iff e.event_hash (digest e.base)).1 (sym genuine),
          IsChain-verify_from prints (expected + 1) e.event_hash es final c,
          verify_from,
        )
        refl

  -- The file of a list of events.
  abbrev pub file_of : List AuditEvent → Text
  file_of [] = []
  file_of (e ∷ es) = print e ++ 10 ∷ file_of es

  split-file_of :
      (prints : PrintsLines) (es : List AuditEvent)
      → split 10 (file_of es) ≡ map print es ++ [] ∷ []
  unfolding split
  split-file_of prints [] = refl
  split-file_of prints (e ∷ es) =
      split-append 10 (print e) (file_of es) (prints.one_line e)
      ∙ ap (◌∷◌ (print e)) (split-file_of prints es)

  init-snoc : (xs : List Text) (x : Text) → init (xs ++ x ∷ []) ≡ xs
  unfolding init
  init-snoc [] x = refl
  init-snoc (y ∷ []) x = refl
  init-snoc (y ∷ z ∷ xs) x = ap (◌∷◌ y) (init-snoc (z ∷ xs) x)

  ends_open-snoc : (xs : List Text) → ends_open (xs ++ [] ∷ []) ≡ false
  unfolding ends_open text_eq
  ends_open-snoc [] = refl
  ends_open-snoc (x ∷ []) = refl
  ends_open-snoc (x ∷ y ∷ xs) = ends_open-snoc (y ∷ xs)

  -- A file that holds a chain of events, one to a line, verifies and reads back as those events.
  pub verify_audit_text-file_of :
      (prints : PrintsLines) (es : List AuditEvent) (final : Text)
      → IsChain 1 genesis_hash es final
      → verify_audit_text host session_id (file_of es) ≡ ok (es, final)
  unfolding verify_audit_text
  verify_audit_text-file_of prints es final c =
      rw (split-file_of prints es, ends_open-snoc (map print es), init-snoc (map print es) [])
        (IsChain-verify_from prints 1 genesis_hash es final c)

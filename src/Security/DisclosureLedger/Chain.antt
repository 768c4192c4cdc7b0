-- ===== src/Security/DisclosureLedger/Chain.antt =====
-- A ledger that records stays verified, and a restart reads back what it recorded.
use mathlib.Core.List.{reverse-append, reverse-reverse, append_assoc}
use mathlib.Core.Option.{get_or}
use cope_code.Common.{
  All-append, ℕ, subst, ◌≡◌, refl, sym, ap, ◌∙◌, Bool, true, false, not, Option, none, some, List,
  [], ◌∷◌, ◌++◌, map, reverse, Text, text_eq, text_is_eq, option_is_eq, ◌==◌, ==_iff, if◌then◌else◌,
  last, split, split-append, Lacks, All, Result, ok, err, ErrorCode, recovery_required, fail_if,
  ◌>>=◌, ◌>>◌, arith,
}
use cope_code.Security.DisclosureLedger.{
  DisclosureRecordInput, DisclosureRecord, Host, Ledger, last_hash, without_return, strip_return,
  strip_returns, split_lines, before_end, without_end, body_of, record_of, settled, recorded,
  record_disclosure, verify_from, read_records, hydrated, hydrate_existing,
}

if_taken {ℓ} : {A : Type ℓ} (b : Bool) (x y z : A) → b ≡ true → (if b then x else y) ≡ z → x ≡ z
if_taken true x y z e h = h
if_taken false x y z e h = cc e

abbrev last_from : Option Text → List DisclosureRecord → Option Text
last_from previous [] = previous
last_from previous (r ∷ rs) = last_from (some r.record_hash) rs

last_from-last : (rs : List DisclosureRecord) → last_from none rs ≡ last_hash (last rs)
unfolding last
last_from-last [] = refl
last_from-last (r ∷ rs) = last_of r rs
  where
    last_of :
        (r : DisclosureRecord) (rs : List DisclosureRecord)
        → last_from (some r.record_hash) rs ≡ last_hash (last (r ∷ rs))
    last_of r [] = refl
    last_of r (s ∷ rs) = last_of s rs

module _ (host : Host) where
  open host use {sha256, digest, print, parse, append_file}

  -- What the code expects of JSON and of appending to a file: a record's line reads back as the record,
  -- holds no line break and ends in a brace; an append that does not throw adds the text at the end.
  pub record IsFaithful : Type 0 where
    pub reads : (r : DisclosureRecord) → parse (print r) ≡ some r
    pub one_line : (r : DisclosureRecord) → Lacks 10 (print r)
    pub braced : (r : DisclosureRecord) → (s : Text) × (print r ≡ s ++ b'}' ∷ [])
    pub appends :
        (before after : Option Text) (s : Text)
        → append_file before s ≡ (after, ok tt)
        → after ≡ some (get_or before [] ++ s)

  unfoldable pub file_of : List DisclosureRecord → Text
  file_of [] = []
  file_of (r ∷ rs) = print r ++ 10 ∷ file_of rs

  -- A ledger whose file holds its entries, which are of its session and verify.
  pub record IsDurable (l : Ledger) : Type 0 where
    pub verified : verify_from host none l.entries ≡ true
    pub own : All (λ r. r.session_id ≡ l.session_id) l.entries
    pub held : get_or l.file [] ≡ file_of l.entries

  verify_from-append :
      (previous : Option Text) (rs : List DisclosureRecord) (r : DisclosureRecord)
      → verify_from host previous rs ≡ true
      → r.previous_record_hash ≡ last_from previous rs
      → digest r.body ≡ r.record_hash
      → verify_from host previous (rs ++ r ∷ []) ≡ true
  unfolding verify_from
  verify_from-append previous [] r h p g =
      ground (arith, ==_iff r.previous_record_hash previous, ==_iff (digest r.body) r.record_hash)
  verify_from-append previous (s ∷ rs) r h p g =
      ground (arith, verify_from-append (some s.record_hash) rs r)

  file_of-append :
      (rs : List DisclosureRecord) (r : DisclosureRecord)
      → file_of (rs ++ r ∷ []) ≡ file_of rs ++ (print r ++ 10 ∷ [])
  unfolding file_of
  file_of-append [] r = refl
  file_of-append (s ∷ rs) r =
      ap (λ t. print s ++ 10 ∷ t) (file_of-append rs r)
      ∙ sym (append_assoc (print s) (10 ∷ file_of rs) (print r ++ 10 ∷ []))

  lines_of : DisclosureRecord → List DisclosureRecord → Text
  lines_of r [] = print r
  lines_of r (s ∷ rs) = print r ++ 10 ∷ lines_of s rs

  file_of-lines_of :
      (r : DisclosureRecord) (rs : List DisclosureRecord)
      → file_of (r ∷ rs) ≡ lines_of r rs ++ 10 ∷ []
  unfolding file_of lines_of
  file_of-lines_of r [] = refl
  file_of-lines_of r (s ∷ rs) =
      ap (λ t. print r ++ 10 ∷ t) (file_of-lines_of s rs)
      ∙ sym (append_assoc (print r) (10 ∷ lines_of s rs) (10 ∷ []))

  without_end-append : (s : Text) → without_end (s ++ 10 ∷ []) ≡ some s
  without_end-append s = ap before_end (reverse-append s (10 ∷ [])) ∙ ap some (reverse-reverse s)

  split-Lacks : (s : Text) → Lacks 10 s → split 10 s ≡ s ∷ []
  unfolding split
  split-Lacks [] h = refl
  split-Lacks (c ∷ s) (h, hs) = rw (h, split-Lacks s hs) refl

  settled-ok :
      (l : Ledger) (r0 : DisclosureRecord) (p : Option Text × Result {0} Unit) (l' : Ledger)
      (r : DisclosureRecord)
      → settled host l r0 p ≡ (l', ok r)
      → (p.1 ≡ ok tt) × (r0 ≡ r) × (record l { file = p.0; entries = l.entries ++ r0 ∷ [] } ≡ l')
  settled-ok l r0 (file, ok done) l' r h = (refl, cc h, ap (λ q. q.0) h)
  settled-ok l r0 (file, err e) l' r h = absurd (cc (ap (λ q. q.1) h))

  recorded-ok :
      (l : Ledger) (r0 : DisclosureRecord) (failed : Option ErrorCode) (l' : Ledger)
      (r : DisclosureRecord)
      → l.writes_file ≡ true
      → recorded host l r0 failed ≡ (l', ok r)
      → ((append_file l.file (print r0 ++ 10 ∷ [])).1 ≡ ok tt)
        × (r0 ≡ r)
        × (record l {
          file = (append_file l.file (print r0 ++ 10 ∷ [])).0;
          entries = l.entries ++ r0 ∷ [];
        }
            ≡ l')
  recorded-ok l r0 (some e) l' r writes h = absurd (cc (ap (λ q. q.1) h))
  recorded-ok l r0 none l' r writes h =
      settled-ok l r0 (append_file l.file (print r0 ++ 10 ∷ [])) l' r
        (if_taken l.writes_file _ _ _ writes h)

  snoc-filled : (s : Text) (c : ℕ) → [] ≡ s ++ c ∷ [] → ⊥
  snoc-filled [] c h = absurd (cc h)
  snoc-filled (d ∷ s) c h = absurd (cc h)

  module _ (faithful : IsFaithful) where
    split-lines_of :
        (r : DisclosureRecord) (rs : List DisclosureRecord)
        → split 10 (lines_of r rs) ≡ map print (r ∷ rs)
    unfolding lines_of
    split-lines_of r [] = split-Lacks (print r) (faithful.one_line r)
    split-lines_of r (s ∷ rs) =
        split-append 10 (print r) (lines_of s rs) (faithful.one_line r)
        ∙ ap (◌∷◌ (print r)) (split-lines_of s rs)

    strip_return-print : (r : DisclosureRecord) → strip_return (print r) ≡ print r
    strip_return-print r =
        let (s, is) = faithful.braced r in
        ap without_return (ap reverse is ∙ reverse-append s (b'}' ∷ []))
        ∙ ap reverse (sym (reverse-append s (b'}' ∷ [])) ∙ sym (ap reverse is))
        ∙ reverse-reverse (print r)

    strip_returns-print : (rs : List DisclosureRecord) → strip_returns (map print rs) ≡ map print rs
    unfolding strip_returns
    strip_returns-print [] = refl
    strip_returns-print (r ∷ []) = refl
    strip_returns-print (r ∷ s ∷ rs) =
        ap (λ line. line ∷ strip_returns (map print (s ∷ rs))) (strip_return-print r)
        ∙ ap (◌∷◌ (print r)) (strip_returns-print (s ∷ rs))

    print-filled : (r : DisclosureRecord) → (print r == []) ≡ false
    unfolding text_eq
    print-filled r = let (s, is) = faithful.braced r in ap (λ t. t == []) is ∙ filled s
      where
        filled : (s : Text) → ((s ++ b'}' ∷ []) == []) ≡ false
        filled [] = refl
        filled (c ∷ s) = refl

    read_records-print :
        (session_id : Text) (rs : List DisclosureRecord)
        → All (λ r. r.session_id ≡ session_id) rs
        → read_records host session_id (map print rs) ≡ ok rs
    unfolding read_records
    read_records-print session_id [] own = refl
    read_records-print session_id (r ∷ rs) (own, owns) =
        rw
          (
            print-filled r,
            faithful.reads r,
            (==_iff r.session_id session_id).1 own,
            read_records-print session_id rs owns,
          )
          refl

    hydrate_existing-file_of :
        (session_id : Text) (rs : List DisclosureRecord) (file : Option Text)
        → get_or file [] ≡ file_of rs
        → All (λ r. r.session_id ≡ session_id) rs
        → verify_from host none rs ≡ true
        → hydrate_existing host session_id file ≡ ok rs
    unfolding hydrate_existing hydrated split_lines file_of
    hydrate_existing-file_of session_id [] none held own verified = refl
    hydrate_existing-file_of session_id [] (some []) held own verified = refl
    hydrate_existing-file_of session_id [] (some (c ∷ raw)) held own verified = absurd (cc held)
    hydrate_existing-file_of session_id (r ∷ rs) none held own verified =
        absurd (snoc-filled (lines_of r rs) 10 (held ∙ file_of-lines_of r rs))
    hydrate_existing-file_of session_id (r ∷ rs) (some []) held own verified =
        absurd (snoc-filled (lines_of r rs) 10 (held ∙ file_of-lines_of r rs))
    hydrate_existing-file_of session_id (r ∷ rs) (some (c ∷ raw)) held own verified =
        let whole : without_end (c ∷ raw) ≡ some (lines_of r rs) =
          ap without_end (held ∙ file_of-lines_of r rs) ∙ without_end-append (lines_of r rs) in
        let lines : split_lines (lines_of r rs) ≡ map print (r ∷ rs) =
          ap strip_returns (split-lines_of r rs) ∙ strip_returns-print (r ∷ rs) in
        ap (hydrated host session_id) whole
        ∙ ap
            (λ ls. read_records host session_id ls >>= λ records.
              fail_if (not (verify_from host none records)) recovery_required >> ok records)
            lines
        ∙ rw (read_records-print session_id (r ∷ rs) own, verified) refl

    -- A successful call appends one record to the entries and to the file: the ledger stays verified,
    -- and a restart of the session reads back exactly its entries.
    pub record_disclosure-IsDurable :
        (l : Ledger) (id now : Text) (input : DisclosureRecordInput) (l' : Ledger)
        (r : DisclosureRecord)
        → IsDurable l
        → l.writes_file ≡ true
        → record_disclosure host l id now input ≡ (l', ok r)
        → (l'.entries ≡ l.entries ++ r ∷ [])
          × IsDurable l'
          × (hydrate_existing host l.session_id l'.file ≡ ok l'.entries)
    unfolding record_disclosure body_of
    record_disclosure-IsDurable l id now input l' r d writes h =
        let r0 = record_of host l id now input in
        let line = print r0 ++ 10 ∷ [] in
        let (written, same, next) = recorded-ok l r0 l.failed l' r writes h in
        let more : Ledger = record l {
          file = (append_file l.file line).0;
          entries = l.entries ++ r0 ∷ [];
        } in
        let content : get_or more.file [] ≡ file_of more.entries =
          ap (λ f. get_or f [])
            (faithful.appends l.file (append_file l.file line).0 line
              (ap (λ w. ((append_file l.file line).0, w)) written))
          ∙ ap (λ t. t ++ line) d.held
          ∙ sym (file_of-append l.entries r0) in
        let durable : IsDurable more = record {
          verified =
              verify_from-append none l.entries r0 d.verified (sym (last_from-last l.entries)) refl;
          own = All-append (λ e. e.session_id ≡ l.session_id) l.entries (r0 ∷ []) d.own (refl, tt);
          held = content;
        } in
        (
          ap (λ k. k.entries) (sym next) ∙ ap (λ e. l.entries ++ e ∷ []) same,
          subst IsDurable next durable,
          subst (λ k. hydrate_existing host l.session_id k.file ≡ ok k.entries) next
              (hydrate_existing-file_of l.session_id more.entries more.file content durable.own
                durable.verified),
        )

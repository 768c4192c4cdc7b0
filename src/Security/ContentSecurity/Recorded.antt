-- ===== src/Security/ContentSecurity/Recorded.antt =====
-- Nothing is disclosed without a record, and nothing that is to be blocked.
use cope_code.Common.{
  ◌≡◌, refl, sym, ap, ◌∙◌, ◌⊎◌, inl, inr, Bool, true, false, ◌&&◌, Option, none, some, List, [],
  ◌∷◌, ◌++◌, Text, if◌then◌else◌, Result, ok, err, ErrorCode, policy_denied, arith,
}
use cope_code.Protocol.Parser.{byte_length}
use cope_code.Security.Secrets.{SecretFinding, Matcher, redact}
use cope_code.Security.DisclosureLedger.{
  DisclosureRecordInput, DisclosureRecord, Host, Ledger, body_of, record_of, pushed, settled,
  recorded, record_disclosure,
}
use cope_code.Security.ContentSecurity.{
  ContentProcessingInput, ContentProcessingResult, ContentSecurity, blocks, blocked_findings,
  is_filled, blocked_input, disclosed_input, after_record, process,
}

abbrev IsRecorded : Ledger → DisclosureRecord → Ledger × Result DisclosureRecord → Type 0
IsRecorded l r (l', result) =
    ((result ≡ ok r) × (l'.entries ≡ l.entries ++ r ∷ []))
    ⊎ ((e : ErrorCode) × (result ≡ err e) × (l'.entries ≡ l.entries))

module _ (host : Host) where
  settled-IsRecorded :
      (l : Ledger) (r : DisclosureRecord) (p : Option Text × Result {0} Unit)
      → IsRecorded l r (settled host l r p)
  settled-IsRecorded l r (file, ok done) = inl (refl, refl)
  settled-IsRecorded l r (file, err e) = inr (e, refl, refl)

  recorded-IsRecorded :
      (l : Ledger) (r : DisclosureRecord) (failed : Option ErrorCode)
      → IsRecorded l r (recorded host l r failed)
  recorded-IsRecorded l r (some e) = inr (e, refl, refl)
  recorded-IsRecorded l r none = either l.writes_file
    where
      either :
          (b : Bool)
          → IsRecorded l r (
              if b
              then settled host l r (host.append_file l.file (host.print r ++ 10 ∷ []))
              else pushed host l r)
      either true = settled-IsRecorded l r (host.append_file l.file (host.print r ++ 10 ∷ []))
      either false = inl (refl, refl)

  record_disclosure-IsRecorded :
      (l : Ledger) (id now : Text) (input : DisclosureRecordInput)
      → IsRecorded l (record_of host l id now input) (record_disclosure host l id now input)
  unfolding record_disclosure
  record_disclosure-IsRecorded l id now input =
      recorded-IsRecorded l (record_of host l id now input) l.failed

  -- The result and the ledger after the record of a call.
  after_record-ok {ℓ} :
      {A : Type ℓ} (l l' : Ledger) (r : DisclosureRecord) (done : Ledger × Result DisclosureRecord)
      (a b : A)
      → IsRecorded l r done
      → after_record done (ok a) ≡ (l', ok b)
      → (a ≡ b) × (l'.entries ≡ l.entries ++ r ∷ [])
  after_record-ok l l' r (k, ok s) a b (inl (is, more)) h =
      (cc (ap (λ q. q.1) h), ap (λ q. q.0.entries) (sym h) ∙ more)
  after_record-ok l l' r (k, ok s) a b (inr (e, is, same)) h = cc is
  after_record-ok l l' r (k, err e) a b recorded h = cc (ap (λ q. q.1) h)

  after_record-err {ℓ} :
      {A : Type ℓ} (l : Ledger) (r : DisclosureRecord) (done : Ledger × Result DisclosureRecord)
      → IsRecorded l r done
      → let (l', result) : Ledger × Result A = after_record done (err policy_denied) in
        (e : ErrorCode) × (result ≡ err e)
        × ((l'.entries ≡ l.entries ++ r ∷ []) ⊎ (l'.entries ≡ l.entries))
  after_record-err l r (k, ok s) (inl (is, more)) = (policy_denied, refl, inl more)
  after_record-err l r (k, ok s) (inr (e, is, same)) = (policy_denied, refl, inr same)
  after_record-err l r (k, err e) (inl (is, more)) = (e, refl, inl more)
  after_record-err l r (k, err e) (inr (f, is, same)) = (e, refl, inr same)

if_cases {ℓ} :
    {A : Type ℓ} (t : Bool) (x y z : A)
    → (if t then x else y) ≡ z
    → ((t ≡ true) × (x ≡ z)) ⊎ ((t ≡ false) × (y ≡ z))
if_cases true x y z h = inl (refl, h)
if_cases false x y z h = inr (refl, h)

both_true {ℓ} :
    {A : Type ℓ} (b f : Bool) (x y : A) → b ≡ true → f ≡ true → (if b && f then x else y) ≡ x
both_true true true x y h k = refl
both_true true false x y h k = cc k
both_true false f x y h k = cc h

side_of : (b f : Bool) → (b && f) ≡ false → b ≡ true → f ≡ false
side_of b f h e = ground arith

no_filled : (fs : List SecretFinding) → is_filled fs ≡ false → fs ≡ []
no_filled [] h = refl
no_filled (f ∷ fs) h = cc h

module _ (host : Host) (matcher : Matcher) (security : ContentSecurity) (l : Ledger) (id now : Text)
    (input : ContentProcessingInput) where
  -- Nothing is disclosed without a record of it: what a call returns is the redacted content, and the
  -- ledger has one more entry, which says that it was disclosed, with its hash and its size. Where
  -- the source is to be blocked, the content had no finding of a blocked severity.
  pub process-IsDisclosed :
      (l' : Ledger) (result : ContentProcessingResult)
      → process host matcher security l id now input ≡ (l', ok result)
      → (r : DisclosureRecord) × (l'.entries ≡ l.entries ++ r ∷ [])
        × (r.disclosed ≡ true)
        × (r.disclosed_sha256 ≡ host.sha256 result.content)
        × (r.disclosed_byte_count ≡ byte_length result.content)
        × (result.content ≡ (redact matcher input.content).content)
        × (blocks (security.modes input.source) ≡ true
            → blocked_findings security (redact matcher input.content).findings ≡ [])
  unfolding process body_of
  process-IsDisclosed l' result h =
      let redaction = redact matcher input.content in
      let found = blocked_findings security redaction.findings in
      let blocked = blocked_input security input found in
      let open_input = disclosed_input security input redaction in
      let outcome : ContentProcessingResult = record {
        content = redaction.content;
        redaction_count = redaction.redaction_count;
      } in
      elim (if_cases (blocks (security.modes input.source) && is_filled found)
        (after_record (record_disclosure host l id now blocked) (err policy_denied))
        (after_record (record_disclosure host l id now open_input) (ok outcome)) (l', ok result)
        h) [
          | inl (_, threw) ↦
              let (e, failed, _) =
                after_record-err host {A = ContentProcessingResult} l
                  (record_of host l id now blocked) (record_disclosure host l id now blocked)
                  (record_disclosure-IsRecorded host l id now blocked) in
              cc (sym failed ∙ ap (λ q. q.1) threw)
          | inr (free, done) ↦
              let (same, more) =
                after_record-ok host l l' (record_of host l id now open_input)
                  (record_disclosure host l id now open_input) outcome result
                  (record_disclosure-IsRecorded host l id now open_input) done in
              (
                record_of host l id now open_input,
                more,
                refl,
                ap (λ o. host.sha256 o.content) same,
                ap (λ o. byte_length o.content) same,
                sym (ap (λ o. o.content) same),
                λ blocking. no_filled found (
                    side_of (blocks (security.modes input.source)) (is_filled found) free blocking),
              )
        ]

  -- A content that is to be blocked is never disclosed: the call throws, and if the ledger has a new
  -- entry, it says that nothing was disclosed, of 0 bytes.
  pub process-blocked :
      blocks (security.modes input.source) ≡ true
      → is_filled (blocked_findings security (redact matcher input.content).findings) ≡ true
      → let (l', result) = process host matcher security l id now input in
        (e : ErrorCode) × (result ≡ err e)
        × (((r : DisclosureRecord) × (l'.entries ≡ l.entries ++ r ∷ [])
              × (r.disclosed ≡ false)
              × (r.disclosed_byte_count ≡ 0))
            ⊎ (l'.entries ≡ l.entries))
  unfolding process body_of byte_length
  process-blocked blocking filled =
      let found = blocked_findings security (redact matcher input.content).findings in
      let blocked = blocked_input security input found in
      let done = record_disclosure host l id now blocked in
      let taken : process host matcher security l id now input
          ≡ after_record done (err policy_denied) =
        both_true (blocks (security.modes input.source)) (is_filled found) _ _ blocking filled in
      let (e, failed, more) =
        after_record-err host {A = ContentProcessingResult} l (record_of host l id now blocked) done
          (record_disclosure-IsRecorded host l id now blocked) in
      (
        e,
        ap (λ q. q.1) taken ∙ failed,
        elim more [
          | inl added ↦
              inl (record_of host l id now blocked, ap (λ q. q.0.entries) taken ∙ added, refl, refl)
          | inr same ↦ inr (ap (λ q. q.0.entries) taken ∙ same)
        ],
      )

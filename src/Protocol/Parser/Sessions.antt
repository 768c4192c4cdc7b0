-- ===== src/Protocol/Parser/Sessions.antt =====
-- A parser over the responses of a session: no operation runs twice under one identifier.
use cope_code.Common.{◌≡◌, refl, List, [], ◌∷◌, ◌++◌, Text, Number, ◌⊎◌, inl, inr}
use cope_code.Protocol.Fences.{Parsed, parsed, refused, ProtocolErrorCode}
use cope_code.Protocol.Parser.{Body, tool_request, answers, Decoded, ParseContext, ids_of, parse}
use cope_code.Protocol.Parser.Replay.{Fresh, Fresh-append, Admits, request, answer, parse-Admits}

-- A response of the model, and what the session expects when it comes.
pub record Response : Type 0 where
  pub input : Text
  pub context : ParseContext

abbrev pub request_ids : Body → List Text
request_ids (tool_request ops) = ids_of ops
request_ids (answers ids) = []

Parsed-cases {ℓ} :
    {A : Type ℓ} (m : Parsed A)
    → ((a : A) × (m ≡ parsed a)) ⊎ ((code : ProtocolErrorCode) × (m ≡ refused code))
Parsed-cases (parsed a) = inl (a, refl)
Parsed-cases (refused code) = inr (code, refl)

module _ (decode : Text → Decoded) (maximum : Number) where
  -- The identifiers of the operations that are accepted, in order; a response that is refused leaves
  -- the parser as it was.
  unfoldable pub accepted : List Text → List Response → List Text
  accepted seen [] = []
  accepted seen (r ∷ rs) = elim (parse decode seen maximum r.input r.context) [
    | refused code ↦ accepted seen rs
    | parsed done ↦ request_ids done.0.body ++ accepted done.1 rs
  ]

  after_message :
      (seen : List Text) (b : Body) (later ids : List Text)
      → Admits seen b later
      → Fresh later ids
      → Fresh seen (request_ids b ++ ids)
  after_message seen (tool_request ops) later ids (request _ new batch) f =
      Fresh-append (ids_of ops) ids seen new f
  after_message seen (answers given) later ids (answer _ new) f = f

  -- Whatever the model responds, the operations that the parser accepts in a session have valid
  -- identifiers, none of which was seen before, and no two of which are the same.
  pub accepted-Fresh :
      (seen : List Text) (responses : List Response) → Fresh seen (accepted seen responses)
  unfolding accepted
  accepted-Fresh seen [] = tt
  accepted-Fresh seen (r ∷ rs) = elim (Parsed-cases (parse decode seen maximum r.input r.context)) [
    | inr (code, e) ↦ rw (accepted, e) (accepted-Fresh seen rs)
    | inl ((m, later), e) ↦
        let (_, _, admitted) = parse-Admits decode r.context seen m later maximum r.input e in
        rw (accepted, e)
          (after_message seen m.body later (accepted later rs) admitted (accepted-Fresh later rs))
  ]

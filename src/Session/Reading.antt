-- ===== src/Session/Reading.antt =====
-- src/backend/session/SessionStore.cpp: `decode`, and `read_disk` with the document that it opened.
use mydbg.Base.{
  ◌≡◌, refl, ap, ◌∙◌, inl, inr, true, arith, Bool-cases, Option, none, some, leb, ltb, length,
  if◌then◌else◌,
}
use mydbg.Base.Bytes.{Bytes}
use mydbg.Session.Data.{
  Result, ok, err, malformed, Utf8Decode, ◌>>=◌, ◌>>◌, require, limit, max_document, SessionData,
}
use mydbg.Session.Decode.{decode_root}
use mydbg.Session.WellFormed.{WellFormed, decode-WellFormed, bind-ok, ok-inj}
use mydbg.Session.Store.{Codec}
use mydbg.Session.Json.{Json}
use mydbg.Session.Preflight.{check}

-- The check before the parser. It always comes to an end: there is no `none`.
abbrev pub preflight : Option (Result (Unit {0})) → Result (Unit {0})
preflight none = err malformed
preflight (some r) = r

abbrev pub parsed : Option Json → Result Json
parsed none = err malformed
parsed (some node) = ok node

unfoldable pub decode : Codec → Bytes → Bytes → Result SessionData
unfolding check decode_root
decode codec contents sha256 = do
  preflight (check codec.utf8_decode contents)
  node ← parsed (codec.parse contents)
  decode_root codec.utf8_decode node sha256

unfoldable pub read_document : Codec → Bytes → Option Bytes → Result (Option SessionData)
unfolding decode
read_document codec sha256 none = ok none
read_document codec sha256 (some contents) = do
  require (leb (length contents) max_document) limit
  session ← decode codec contents sha256
  ok (some session)

decode-of :
    (codec : Codec) (contents sha256 : Bytes) (session : SessionData)
    → decode codec contents sha256 ≡ ok session
    → (node : Json) × (decode_root codec.utf8_decode node sha256 ≡ ok session)
unfolding decode
decode-of codec contents sha256 session e =
    bind-ok (preflight (check codec.utf8_decode contents)) _ e
      (λ u h e₁. bind-ok (parsed (codec.parse contents)) _ e₁ (λ node h₁ e₂. (node, e₂)))

-- A text that the check accepts is no larger than a document may be.
check-size :
    (utf8_decode : Utf8Decode) (contents : Bytes)
    → check utf8_decode contents ≡ some (ok tt)
    → leb (length contents) max_document ≡ true
unfolding check
check-size utf8_decode contents e = elim (Bool-cases (ltb max_document (length contents))) [
  | inl large ↦ refused _ large e
  | inr fits ↦ ground (arith, fits)
]
  where
    refused :
        (o : Option (Result (Unit {0})))
        → ltb max_document (length contents) ≡ true
        → (if ltb max_document (length contents) then some (err limit) else o) ≡ some (ok tt)
        → leb (length contents) max_document ≡ true
    refused o large h = ground (arith, large, h)

-- A document whose check accepts it, and that the parser reads as a tree, gives the session of the
-- tree.
pub read_document-accepted :
    (codec : Codec) (sha256 contents : Bytes) (node : Json) (session : SessionData)
    → check codec.utf8_decode contents ≡ some (ok tt)
    → codec.parse contents ≡ some node
    → decode_root codec.utf8_decode node sha256 ≡ ok session
    → (decode codec contents sha256 ≡ ok session)
      × (read_document codec sha256 (some contents) ≡ ok (some session))
unfolding read_document decode
read_document-accepted codec sha256 contents node session checked is_node reads = (
  rw (checked, is_node) reads,
  rw (check-size codec.utf8_decode contents checked, checked, is_node, reads) refl,
)

-- A document that is read gives a well-formed session of the hash that names the document.
pub read_document-WellFormed :
    (codec : Codec) (sha256 : Bytes) (o : Option Bytes) (session : SessionData)
    → read_document codec sha256 o ≡ ok (some session)
    → WellFormed session × (session.identity.sha256 ≡ sha256)
unfolding read_document
read_document-WellFormed codec sha256 none session e = cc
read_document-WellFormed codec sha256 (some contents) session e =
    bind-ok (require (leb (length contents) max_document) limit) _ e (λ u h e₁.
      bind-ok (decode codec contents sha256) _ e₁ (λ s h₂ e₃.
        let (node, reads) = decode-of codec contents sha256 s h₂ in
        decode-WellFormed codec.utf8_decode node sha256 session
          (reads ∙ ap ok (some-inj (ok-inj e₃)))))
  where
    some-inj : {a b : SessionData} → some a ≡ some b → a ≡ b
    some-inj e = cc

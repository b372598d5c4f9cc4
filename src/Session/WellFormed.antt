-- ===== src/Session/WellFormed.antt =====
-- What `decode` reads is well formed.
use mydbg.Base.{
  ℕ, ◌+◌, ◌≤◌, ◌≡◌, refl, sym, Bool, true, false, not, ◌&&◌, List, [], ◌∷◌, arith, leb, ◌==◌,
  leb→le, length, all,
}
use mydbg.Base.Bytes.{Bytes, codes, equal, equal_iff}
use mydbg.Session.Data.{
  Key, Result, ok, err, ◌>>=◌, require, Utf8Decode, max_records, max_comment, SessionDebuggerState,
  SessionAddress, SessionModuleAnalysis, SessionComment, SessionData, is_empty, check_hash, limit,
  invalid_record, invalid_hash, invalid_epoch, version, hash_mismatch,
}
use mydbg.Session.Json.{
  Json, Fields, Items, no_item, item, open_object, get, text_of, number_of, array_items,
}
use mydbg.Session.Decode.{
  same_address, decode_address, decode_debugger, decode_edits, decode_module, decode_modules,
  decode_comment, decode_comments, decode_lists, decode_tail, decode_root,
}
use mydbg.Session.Analysis.{FreshModule, UniqueModules, UnseenModules}
use mydbg.Session.Comments.{FreshComment, UniqueComments, UnseenComments}

-- No module and no commented address occurs twice, and the analysis revision is not past the revision.
abbrev pub WellFormed : SessionData → Type 0
WellFormed session =
    UniqueModules session.analysis
    × UniqueComments session.comments
    × (session.analysis_revision ≤ session.revision)

-- A chain that ends in a value passed each of its steps.
pub bind-ok :
    {A B : Type 0} (m : Result A) (f : A → Result B) {r : B} {P : Type 0}
    → m >>= f ≡ ok r
    → ((a : A) → m ≡ ok a → f a ≡ ok r → P)
    → P
bind-ok (ok a) f e k = k a refl e
bind-ok (err x) f e k = cc

required : (b : Bool) (key : Key) (u : Unit {0}) → require b key ≡ ok u → b ≡ true
required b key u h = ground (arith, h)

pub ok-inj : {A : Type 0} {a b : A} → Path (Result A) (ok a) (ok b) → a ≡ b
ok-inj e = cc

seen_before :
    (sha256 : Bytes) (seen : List Bytes) (ms : List SessionModuleAnalysis)
    → UnseenModules (sha256 ∷ seen) ms
    → FreshModule sha256 ms × UnseenModules seen ms
seen_before sha256 seen [] unseen = (tt, tt)
seen_before sha256 seen (m ∷ ms) (u, unseen) =
    let (fresh, others) = seen_before sha256 seen ms unseen in
    let (f, o) = split (equal sha256 m.sha256) _ u in ((f, fresh), (o, others))
  where
    split : (same others : Bool) → (not same && others) ≡ true → (same ≡ false) × (others ≡ true)
    split same others u = ground (arith, u)

commented_before :
    (address : SessionAddress) (seen : List SessionAddress) (cs : List SessionComment)
    → UnseenComments (address ∷ seen) cs
    → FreshComment address cs × UnseenComments seen cs
commented_before address seen [] unseen = (tt, tt)
commented_before address seen (c ∷ cs) (u, unseen) =
    let (fresh, others) = commented_before address seen cs unseen in
    let (f, o) = split (same_address address c.address) _ u in ((f, fresh), (o, others))
  where
    split : (same others : Bool) → (not same && others) ≡ true → (same ≡ false) × (others ≡ true)
    split same others u = ground (arith, u)

module _ (utf8_decode : Utf8Decode) where
  decode_module-unseen :
      (seen : List Bytes) (count : ℕ) (j : Json) (m : SessionModuleAnalysis)
      → decode_module utf8_decode seen count j ≡ ok m
      → all (λ s. not (equal s m.sha256)) seen ≡ true
  unfolding decode_module
  decode_module-unseen seen count j m e = bind-ok (open_object j _) _ e (λ fields h e₁.
      bind-ok (text_of utf8_decode fields (codes "sha256")) _ e₁ (λ sha256 h₁ e₂.
        bind-ok (text_of utf8_decode fields (codes "path")) _ e₂ (λ path h₂ e₃.
          bind-ok (check_hash sha256 invalid_hash) _ e₃ (λ u h₃ e₄.
            bind-ok (require (all (λ s. not (equal s sha256)) seen) invalid_record) _ e₄
              (λ u₁ h₄ e₅. bind-ok (get (codes "edits") fields) _ e₅ (λ node h₅ e₆.
                bind-ok (array_items node max_records) _ e₆ (λ items h₆ e₇.
                  bind-ok (decode_edits utf8_decode count items) _ e₇
                    (λ edits h₇ e₈. rw (sym (ok-inj e₈)) (required _ _ u₁ h₄)))))))))

  decode_modules-UniqueModules :
      (seen : List Bytes) (count : ℕ) (items : Items) (ms : List SessionModuleAnalysis)
      → decode_modules utf8_decode seen count items ≡ ok ms
      → UniqueModules ms × UnseenModules seen ms
  unfolding decode_modules
  decode_modules-UniqueModules seen count no_item ms e = rw (sym (ok-inj e)) (tt, tt)
  decode_modules-UniqueModules seen count (item node items) ms e =
      bind-ok (decode_module utf8_decode seen count node) _ e (λ m h e₁.
        bind-ok (decode_modules utf8_decode (m.sha256 ∷ seen) (count + length m.edits) items) _ e₁
          (λ others h₁ e₂.
            let (unique, unseen) =
              decode_modules-UniqueModules (m.sha256 ∷ seen) (count + length m.edits) items others
                h₁ in
            let (fresh, rest) = seen_before m.sha256 seen others unseen in
            rw (sym (ok-inj e₂))
              ((fresh, unique), (decode_module-unseen seen count node m h, rest))))

  decode_comment-unseen :
      (seen : List SessionAddress) (j : Json) (c : SessionComment)
      → decode_comment utf8_decode seen j ≡ ok c
      → all (λ a. not (same_address a c.address)) seen ≡ true
  unfolding decode_comment
  decode_comment-unseen seen j c e = bind-ok (open_object j _) _ e (λ fields h e₁.
      bind-ok (get (codes "address") fields) _ e₁ (λ node h₁ e₂.
        bind-ok (decode_address utf8_decode node) _ e₂ (λ address h₂ e₃.
          bind-ok (text_of utf8_decode fields (codes "text")) _ e₃ (λ text h₃ e₄.
            bind-ok (require (leb (length text) max_comment) limit) _ e₄ (λ u₁ h₄ e₅.
              bind-ok (require (not (is_empty text)) invalid_record) _ e₅ (λ u₂ h₅ e₆.
                bind-ok (require (all (λ a. not (same_address a address)) seen) invalid_record) _ e₆
                  (λ u₃ h₆ e₇. rw (sym (ok-inj e₇)) (required _ _ u₃ h₆))))))))

  decode_comments-UniqueComments :
      (seen : List SessionAddress) (items : Items) (cs : List SessionComment)
      → decode_comments utf8_decode seen items ≡ ok cs
      → UniqueComments cs × UnseenComments seen cs
  unfolding decode_comments
  decode_comments-UniqueComments seen no_item cs e = rw (sym (ok-inj e)) (tt, tt)
  decode_comments-UniqueComments seen (item node items) cs e =
      bind-ok (decode_comment utf8_decode seen node) _ e (λ c h e₁.
        bind-ok (decode_comments utf8_decode (c.address ∷ seen) items) _ e₁ (λ others h₁ e₂.
          let (unique, unseen) =
            decode_comments-UniqueComments (c.address ∷ seen) items others h₁ in
          let (fresh, rest) = commented_before c.address seen others unseen in
          rw (sym (ok-inj e₂)) ((fresh, unique), (decode_comment-unseen seen node c h, rest))))

  lists-WellFormed :
      (fields : Fields) (sha256 stored epoch path : Bytes) (revision analysed : ℕ)
      (debugger : SessionDebuggerState) (session : SessionData)
      → stored ≡ sha256
      → leb analysed revision ≡ true
      → decode_lists utf8_decode fields stored epoch path revision analysed debugger ≡ ok session
      → WellFormed session × (session.identity.sha256 ≡ sha256)
  unfolding decode_lists
  lists-WellFormed fields sha256 stored epoch path revision analysed debugger session same ordered
        e =
      bind-ok (get (codes "analysis") fields) _ e (λ analysis_node h₁ e₁.
        bind-ok (array_items analysis_node 1024) _ e₁ (λ module_items h₂ e₂.
          bind-ok (decode_modules utf8_decode [] 0 module_items) _ e₂ (λ analysis h₃ e₃.
            bind-ok (get (codes "comments") fields) _ e₃ (λ comments_node h₄ e₄.
              bind-ok (array_items comments_node max_records) _ e₄ (λ comment_items h₅ e₅.
                bind-ok (decode_comments utf8_decode [] comment_items) _ e₅ (λ comments h₆ e₆.
                  let (modules, _) = decode_modules-UniqueModules [] 0 module_items analysis h₃ in
                  let (unique, _) = decode_comments-UniqueComments [] comment_items comments h₆ in
                  rw (sym (ok-inj e₆)) ((modules, unique, leb→le _ _ ordered), same)))))))

  tail-WellFormed :
      (fields : Fields) (sha256 stored epoch : Bytes) (session : SessionData)
      → stored ≡ sha256
      → decode_tail utf8_decode fields stored epoch ≡ ok session
      → WellFormed session × (session.identity.sha256 ≡ sha256)
  unfolding decode_tail
  tail-WellFormed fields sha256 stored epoch session same e =
      bind-ok (text_of utf8_decode fields (codes "binary_path")) _ e (λ path h₁ e₁.
        bind-ok (number_of fields (codes "revision")) _ e₁ (λ revision h₂ e₂.
          bind-ok (number_of fields (codes "analysis_revision")) _ e₂ (λ analysed h₃ e₃.
            bind-ok (require (leb analysed revision) invalid_record) _ e₃ (λ u₄ h₄ e₄.
              bind-ok (get (codes "debugger") fields) _ e₄ (λ debugger_node h₅ e₅.
                bind-ok (decode_debugger utf8_decode debugger_node) _ e₅ (λ debugger h₆ e₆.
                  lists-WellFormed fields sha256 stored epoch path revision analysed debugger
                    session same (required _ _ u₄ h₄) e₆))))))

  -- Whatever `decode` reads has no module twice, no two comments at one address, and no analysis
  -- revision past its revision, and it is of the hash that was asked for.
  pub decode-WellFormed :
      (j : Json) (sha256 : Bytes) (session : SessionData)
      → decode_root utf8_decode j sha256 ≡ ok session
      → WellFormed session × (session.identity.sha256 ≡ sha256)
  unfolding decode_root
  decode-WellFormed j sha256 session e = bind-ok (open_object j _) _ e (λ fields h e₁.
      bind-ok (number_of fields (codes "version")) _ e₁ (λ format h₁ e₂.
        bind-ok (require (format == 1) version) _ e₂ (λ u₂ h₂ e₃.
          bind-ok (text_of utf8_decode fields (codes "sha256")) _ e₃ (λ stored h₃ e₄.
            bind-ok (text_of utf8_decode fields (codes "epoch")) _ e₄ (λ epoch h₄ e₅.
              bind-ok (require (equal stored sha256) hash_mismatch) _ e₅ (λ u₅ h₅ e₆.
                bind-ok (check_hash epoch invalid_epoch) _ e₆ (λ u₆ h₆ e₇.
                  tail-WellFormed fields sha256 stored epoch session
                    ((equal_iff stored sha256).0 (required _ _ u₅ h₅)) e₇)))))))

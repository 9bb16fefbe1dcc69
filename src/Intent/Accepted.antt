-- ===== src/Intent/Accepted.antt =====
-- Which intents, requests and frames validation lets through, in words of their own.
use apolysis.Common.{
  ℕ, ◌≤◌, ◌<◌, ◌≡◌, ◌≢◌, ◌↔◌, ◌⊎◌, inl, refl, Bool, true, false, not, ◌||◌, List, [], ◌∷◌, ltb,
  Result, ok, all, length, All, arith,
}
use apolysis.Common.Text.{Text, trim, byte_len, is_nil, is_whitespace}
use apolysis.Intent.{
  SessionIntent, IntentRequest, intent_schema_v1, max_intent_frame_bytes, is_id_char,
  validate_session_id, validate_tenant_id, validate_intent, validate_request, decode_intent_frame,
  register, renew, close, query, list_sessions, apply_retention, health,
}

-- Some character is no white space.
abbrev pub IsInked : Text → Type 0
IsInked [] = ⊥
IsInked (c ∷ s) = (is_whitespace c ≡ false) ⊎ IsInked s

-- An identifier of at most `n` characters, each a letter, a digit, a dot, an underscore or a hyphen.
abbrev pub IsIdentifier : ℕ → Text → Type 0
IsIdentifier n s = (s ≢ []) × (length s ≤ n) × All (λ c. is_id_char c ≡ true) s

id_char_ascii : (c : ℕ) → is_id_char c ≡ true → (c < 128) × (is_whitespace c ≡ false)
unfolding is_id_char is_whitespace
id_char_ascii c h = ground arith

all-All : (p : ℕ → Bool) (s : Text) → (all p s ≡ true) ↔ All (λ c. p c ≡ true) s
all-All p [] = ground arith
all-All p (c ∷ s) = ground (arith, all-All p s)

-- What trimming leaves is empty exactly if all of the text is white space.
pub is_nil-trim : (s : Text) → (is_nil (trim s) ≡ false) ↔ IsInked s
unfolding trim
is_nil-trim [] = ground arith
is_nil-trim (c ∷ s) = ground (arith, is_nil-trim s)

-- An identifier is one byte to a character, and no white space.
byte_len-identifier : (s : Text) → All (λ c. is_id_char c ≡ true) s → byte_len s ≡ length s
unfolding byte_len
byte_len-identifier [] h = refl
byte_len-identifier (c ∷ s) h = ground (arith, id_char_ascii c h.0, byte_len-identifier s h.1)

identifier-IsInked : (s : Text) → s ≢ [] → All (λ c. is_id_char c ≡ true) s → IsInked s
identifier-IsInked [] n h = absurd (n refl)
identifier-IsInked (c ∷ s) n h = inl (id_char_ascii c h.0).1

nil_not_inked : is_nil (trim []) ≡ true
unfolding trim
nil_not_inked = refl

IsIdentifier-test :
    (n : ℕ) (s : Text)
    → ((is_nil (trim s) ≡ false) × ((ltb n (byte_len s) || not (all is_id_char s)) ≡ false))
      ↔ IsIdentifier n s
IsIdentifier-test n s = (to, from)
  where
    to :
        (is_nil (trim s) ≡ false) × ((ltb n (byte_len s) || not (all is_id_char s)) ≡ false)
        → IsIdentifier n s
    to (t, u) =
        let valid = (all-All is_id_char s).0 (ground arith) in
        (
          (λ e. ground (arith, nil_not_inked, e)),
          ground (arith, byte_len-identifier s valid),
          valid,
        )

    from :
        IsIdentifier n s
        → (is_nil (trim s) ≡ false) × ((ltb n (byte_len s) || not (all is_id_char s)) ≡ false)
    from (ne, le, valid) = (
      (is_nil-trim s).1 (identifier-IsInked s ne valid),
      ground (arith, byte_len-identifier s valid, (all-All is_id_char s).1 valid),
    )

-- A session id is accepted exactly if it is an identifier of 1 to 128 characters.
pub validate_session_id-IsIdentifier :
    (s : Text) → (validate_session_id s ≡ ok tt) ↔ IsIdentifier 128 s
unfolding validate_session_id
validate_session_id-IsIdentifier s = ground (arith, IsIdentifier-test 128 s)

-- A tenant id is accepted exactly if it is an identifier of 1 to 63 characters.
pub validate_tenant_id-IsIdentifier :
    (s : Text) → (validate_tenant_id s ≡ ok tt) ↔ IsIdentifier 63 s
unfolding validate_tenant_id
validate_tenant_id-IsIdentifier s = ground (arith, IsIdentifier-test 63 s)

-- An intent that is in order at a time: the schema is known, both identifiers are well formed, it
-- has not expired, and the policy reference is no white space.
pub record IsInOrder (i : SessionIntent) (now : ℕ) : Type 0 where
  pub schema : i.schema_version ≡ intent_schema_v1
  pub tenant : IsIdentifier 63 i.tenant_id
  pub session : IsIdentifier 128 i.session_id
  pub current : now < i.expires_at_unix_ms
  pub policy : IsInked i.policy_ref

-- Validation accepts exactly the intents with the known schema, well formed identifiers, an
-- expiry after the time given, and a policy reference that is not white space.
pub validate_intent-IsInOrder :
    (i : SessionIntent) (now : ℕ) → (validate_intent i now ≡ ok tt) ↔ IsInOrder i now
unfolding validate_intent
validate_intent-IsInOrder i now = (to, from)
  where
    to : validate_intent i now ≡ ok tt → IsInOrder i now
    to h = record {
      schema = ground arith;
      tenant = (validate_tenant_id-IsIdentifier i.tenant_id).0 (ground arith);
      session = (validate_session_id-IsIdentifier i.session_id).0 (ground arith);
      current = ground arith;
      policy = (is_nil-trim i.policy_ref).0 (ground arith);
    }

    from : IsInOrder i now → validate_intent i now ≡ ok tt
    from o = ground (
      arith,
      o.schema,
      o.current,
      (validate_tenant_id-IsIdentifier i.tenant_id).1 o.tenant,
      (validate_session_id-IsIdentifier i.session_id).1 o.session,
      (is_nil-trim i.policy_ref).1 o.policy,
    )

-- The same for the requests of the intent socket.
abbrev pub RequestIsInOrder : IntentRequest → ℕ → Type 0
RequestIsInOrder (register intent) now = IsInOrder intent now
RequestIsInOrder (renew session expires) now = IsIdentifier 128 session × (now < expires)
RequestIsInOrder (close session) now = IsIdentifier 128 session
RequestIsInOrder (query tenant session) now = IsIdentifier 63 tenant × IsIdentifier 128 session
RequestIsInOrder (list_sessions tenant tier) now = IsIdentifier 63 tenant
RequestIsInOrder (apply_retention tenant dry_run at) now = IsIdentifier 63 tenant
RequestIsInOrder health now = Unit

-- Validation accepts exactly the requests that are in order: a registration whose intent is, a
-- renewal of an identifier to a time that has not passed, any other request whose identifiers
-- are well formed.
pub validate_request-IsInOrder :
    (r : IntentRequest) (now : ℕ) → (validate_request r now ≡ ok tt) ↔ RequestIsInOrder r now
unfolding validate_request
validate_request-IsInOrder (register intent) now = validate_intent-IsInOrder intent now
validate_request-IsInOrder (renew session expires) now = (
  λ h. ((validate_session_id-IsIdentifier session).0 (ground arith), ground arith),
  λ (o, c). ground (arith, (validate_session_id-IsIdentifier session).1 o),
)
validate_request-IsInOrder (close session) now = validate_session_id-IsIdentifier session
validate_request-IsInOrder (query tenant session) now = (
  λ h. (
    (validate_tenant_id-IsIdentifier tenant).0 (ground arith),
    (validate_session_id-IsIdentifier session).0 (ground arith),
  ),
  λ (t, o). ground (
    arith,
    (validate_tenant_id-IsIdentifier tenant).1 t,
    (validate_session_id-IsIdentifier session).1 o,
  ),
)
validate_request-IsInOrder (list_sessions tenant tier) now = validate_tenant_id-IsIdentifier tenant
validate_request-IsInOrder (apply_retention tenant dry_run at) now =
    validate_tenant_id-IsIdentifier tenant
validate_request-IsInOrder health now = (λ h. tt, λ u. refl)

-- Whatever the JSON reader is, a frame decodes to a request exactly if it has at most 64 KiB,
-- reads as that request, and the request is in order at the time.
pub decode_intent_frame-ok :
    (from_slice : List ℕ → Result IntentRequest Text) (frame : List ℕ) (now : ℕ) (r : IntentRequest)
    → (decode_intent_frame from_slice frame now ≡ ok r) ↔ (
        (length frame ≤ max_intent_frame_bytes)
        × (from_slice frame ≡ ok r)
        × RequestIsInOrder r now)
unfolding decode_intent_frame
decode_intent_frame-ok from_slice frame now r = (to, from)
  where
    to :
        decode_intent_frame from_slice frame now ≡ ok r
        → (length frame ≤ max_intent_frame_bytes)
          × (from_slice frame ≡ ok r)
          × RequestIsInOrder r now
    to h = (ground arith, ground arith, (validate_request-IsInOrder r now).0 (ground arith))

    from :
        (length frame ≤ max_intent_frame_bytes) × (from_slice frame ≡ ok r) × RequestIsInOrder r now
        → decode_intent_frame from_slice frame now ≡ ok r
    from (short, e, o) =
        rw (e, decode_intent_frame) (ground (arith, (validate_request-IsInOrder r now).1 o))

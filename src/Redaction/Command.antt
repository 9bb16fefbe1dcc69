-- ===== src/Redaction/Command.antt =====
-- crates/apolysis-observer/src/redaction.rs: the text of a command, word by word. The parsers of
-- socket addresses and of IP addresses are parameters.
pub mod Concealed
use apolysis.Common.{
  ℕ, ◌+◌, Bool, true, false, ◌&&◌, ◌||◌, Option, none, some, List, [], ◌∷◌, ◌++◌, ◌==◌, leb, any,
  if◌then◌else◌,
}
use apolysis.Common.Text.{
  Text, text, is_nil, eqb, is_whitespace, trim_start_by, trim_end_by, starts_with, ends_with,
  contains_text,
}
use apolysis.Policy.{EventType, file_open, network_connect, credential_read}
use apolysis.Redaction.{Redactor, RedactedValue, redact_resource}

-- `str::split_whitespace`, with the letters of the word that is being read.
abbrev pub with_word : Text → List Text → List Text
with_word word rest = if is_nil word then rest else word ∷ rest

unfoldable pub words_from : Text → Text → List Text
words_from word [] = with_word word []
words_from word (c ∷ s) =
    let later = words_from [] s in
    let longer = words_from (word ++ c ∷ []) s in
    if is_whitespace c then with_word word later else longer

unfoldable pub split_whitespace : Text → List Text
split_whitespace s = words_from [] s

-- `str::split_once`.
unfoldable pub split_once : ℕ → Text → Option (Text × Text)
split_once a [] = none
split_once a (c ∷ s) =
    let rest : Option (Text × Text) = elim (split_once a s) [
      | none ↦ none
      | some (before, after) ↦ some (c ∷ before, after)
    ] in
    if c == a then some ([], s) else rest

-- `[T]::join`.
unfoldable pub join : Text → List Text → Text
join separator [] = []
join separator (s ∷ []) = s
join separator (s ∷ t ∷ ss) = s ++ (separator ++ join separator (t ∷ ss))

unfoldable pub to_ascii_lowercase : Text → Text
to_ascii_lowercase [] = []
to_ascii_lowercase (c ∷ s) = (if leb b'A' c && leb c b'Z' then c + 32 else c) ∷ to_ascii_lowercase s

abbrev is_quote : ℕ → Bool
is_quote c = c == 39 || c == b'"' || c == b',' || c == b';'

-- `trim_matches` with quotes, commas and semicolons.
unfoldable pub unquoted : Text → Text
unquoted s = trim_end_by is_quote (trim_start_by is_quote s)

unfoldable pub secret_word : Text → Bool
secret_word value =
    let normalized = to_ascii_lowercase value in
    any (λ word. contains_text word normalized)
      (text "token"
        ∷ text "secret"
        ∷ text "password"
        ∷ text "passwd"
        ∷ text "credential"
        ∷ text "api-key"
        ∷ text "apikey"
        ∷ text "authorization"
        ∷ [])

unfoldable pub secret_flag : Text → Bool
secret_flag value =
    starts_with (text "--") value && secret_word (trim_start_by (λ c. c == b'-') value)

unfoldable pub looks_like_secret_value : Text → Bool
looks_like_secret_value value =
    let normalized = unquoted value in
    starts_with (text "sk-") normalized
    || starts_with (text "ghp_") normalized
    || starts_with (text "github_pat_") normalized
    || starts_with (text "Bearer ") normalized

unfoldable pub authorization_marker : Text → Bool
authorization_marker value =
    let normalized = to_ascii_lowercase (trim_end_by (λ c. c == b':') (unquoted value)) in
    eqb normalized (text "authorization") || eqb normalized (text "bearer")

unfoldable pub looks_like_path_argument : Text → Bool
looks_like_path_argument value =
    starts_with (text "/") value
    || starts_with (text "./") value
    || starts_with (text "../") value
    || starts_with (text "~/") value

unfoldable pub looks_like_credential_path : Text → Bool
looks_like_credential_path value =
    ends_with (text "/.env") value
    || contains_text (text "/.env.") value
    || contains_text (text "/.ssh/") value
    || contains_text (text "/.aws/") value
    || contains_text (text "/var/run/secrets/") value

abbrev pub unhidden : Text → RedactedValue
unhidden value = record { value = value; redacted = false }

abbrev pub concealed : Text → RedactedValue
concealed value = record { value = value; redacted = true }

-- Words after which the next one is hidden.
unfoldable pub announces_secret : Text → Bool
announces_secret word = secret_flag word || authorization_marker word

-- Whether the next word is hidden, after a word.
unfoldable pub redact_next_after : Bool → Text → Bool
redact_next_after true word = false
redact_next_after false word = announces_secret word

abbrev map_values : List RedactedValue → List Text
map_values [] = []
map_values (a ∷ args) = a.value ∷ map_values args

module _ (sha256 : List ℕ → List ℕ) (parses_socket_addr parses_ip_addr : Text → Bool) where
  unfoldable pub network_argument_resource : Text → Option Text
  network_argument_resource value =
      let trimmed = unquoted value in
      let ip = trim_end_by (λ c. c == b']') (trim_start_by (λ c. c == b'[') trimmed) in
      if parses_socket_addr trimmed
      then some trimmed
      else if parses_ip_addr ip
      then some ip
      else none

  unfoldable pub redact_command_argument_resource : Redactor → Text → RedactedValue
  redact_command_argument_resource r value = elim (network_argument_resource value) [
    | some resource ↦ redact_resource sha256 r network_connect resource
    | none ↦
        if looks_like_path_argument value
        then redact_resource sha256 r
            (if looks_like_credential_path value then credential_read else file_open) value
        else unhidden value
  ]

  -- A word that is no assignment, or whose assignment hides nothing.
  unfoldable pub redact_plain_word : Redactor → Text → RedactedValue
  redact_plain_word r word =
      if looks_like_secret_value word
      then concealed (text "<redacted>")
      else redact_command_argument_resource r word

  unfoldable pub redact_assignment : Redactor → Text → RedactedValue
  redact_assignment r word = elim (split_once b'=' word) [
    | none ↦ redact_plain_word r word
    | some (key, value) ↦
        let resource = redact_command_argument_resource r value in
        if secret_word key
        then concealed (key ++ text "=<redacted>")
        else if resource.redacted
        then concealed (key ++ (text "=" ++ resource.value))
        else redact_plain_word r word
  ]

  unfoldable pub redact_word : Redactor → Bool → Text → RedactedValue
  redact_word r true word = concealed (text "<redacted>")
  redact_word r false word =
      if announces_secret word then unhidden word else redact_assignment r word

  unfoldable pub redact_words : Redactor → Bool → List Text → List RedactedValue
  redact_words r next [] = []
  redact_words r next (word ∷ words) =
      redact_word r next word ∷ redact_words r (redact_next_after next word) words

  unfoldable pub redact_command_text_for_persistence : Text → Text → Text → RedactedValue
  redact_command_text_for_persistence session_id workspace_root command =
      let r : Redactor = record { session_id = session_id; workspace_root = workspace_root } in
      let args = redact_words r false (split_whitespace command) in
      record { value = join (text " ") (map_values args); redacted = any (λ a. a.redacted) args }

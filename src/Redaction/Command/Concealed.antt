-- ===== src/Redaction/Command/Concealed.antt =====
-- crates/apolysis-observer/src/redaction.rs: the words that follow a secret's announcement.
use apolysis.Common.{ℕ, ◌≡◌, refl, ap, Bool, true, false, List, [], ◌∷◌, ◌++◌, arith}
use apolysis.Common.Text.{Text}
use apolysis.Redaction.{Redactor}
use apolysis.Redaction.Command.{
  announces_secret, redact_next_after, redact_word, redact_words, split_whitespace,
  redact_command_text_for_persistence,
}

-- Whether the word after these is hidden.
unfoldable pub redact_next_from : Bool → List Text → Bool
redact_next_from next [] = next
redact_next_from next (word ∷ words) = redact_next_from (redact_next_after next word) words

module _ (sha256 : List ℕ → List ℕ) (parses_socket_addr parses_ip_addr : Text → Bool) where
  redact_words-same :
      (r : Redactor) (next : Bool) (before after : List Text) (flag x y : Text)
      → redact_next_from next before ≡ false
      → announces_secret flag ≡ true
      → redact_words sha256 parses_socket_addr parses_ip_addr r next (before ++ flag ∷ x ∷ after)
        ≡ redact_words sha256 parses_socket_addr parses_ip_addr r next (before ++ flag ∷ y ∷ after)
  unfolding redact_words redact_next_from redact_next_after redact_word
  redact_words-same r true [] after flag x y n f = ground arith
  redact_words-same r false [] after flag x y n f = rw f refl
  redact_words-same r next (word ∷ before) after flag x y n f =
      ap (λ rest. redact_word sha256 parses_socket_addr parses_ip_addr r next word ∷ rest)
        (redact_words-same r (redact_next_after next word) before after flag x y n f)

  -- Take two commands whose words differ only in the one that follows an announcement of a
  -- secret: a flag with a secret's name or the name of an authorization header, itself not
  -- hidden. They are written as the same text.
  pub redact_command-Concealed :
      (session_id workspace_root c d : Text) (before after : List Text) (flag x y : Text)
      → split_whitespace c ≡ before ++ flag ∷ x ∷ after
      → split_whitespace d ≡ before ++ flag ∷ y ∷ after
      → redact_next_from false before ≡ false
      → announces_secret flag ≡ true
      → redact_command_text_for_persistence sha256 parses_socket_addr parses_ip_addr session_id
          workspace_root c
        ≡ redact_command_text_for_persistence sha256 parses_socket_addr parses_ip_addr session_id
            workspace_root d
  unfolding redact_command_text_for_persistence
  redact_command-Concealed session_id workspace_root c d before after flag x y hc hd n f =
      let s =
        redact_words-same (record { session_id = session_id; workspace_root = workspace_root })
          false before after flag x y n f in
      cc

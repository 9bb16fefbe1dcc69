-- ===== src/Server/Examples.antt =====
-- Answers on the small daemon.
use apolysis.Common.{ℕ, zero, suc, ◌≡◌, true, false, List, [], ◌∷◌, Result, ok, err, is_ok}
use apolysis.Common.Text.{Text, text}
use apolysis.Intent.{IntentRequest, decode_intent_frame, close, health}
use apolysis.Daemon.Examples.{sample, sample_documented, renewed}
use apolysis.Server.{handle_connection}
use apolysis.Server.Answers.{is_error, only_reads, handle_connection_errors}

-- A reader of one byte: zero asks for the health, another closes a session.
abbrev reader : List ℕ → Result IntentRequest Text
reader (zero ∷ []) = ok health
reader (suc n ∷ []) = ok (close (text "a"))
reader _ = err (text "unknown request")

handle_connection_errors_example :
    let x = handle_connection sample reader 1 (1 ∷ []) 150 renewed in
    (is_error x.1 ≡ true → x.0.registry ≡ renewed.registry)
    × ((r : IntentRequest)
        → decode_intent_frame reader (1 ∷ []) 150 ≡ ok r
        → only_reads r ≡ true
        → x.0 ≡ renewed)
    × (is_ok (decode_intent_frame reader (1 ∷ []) 150) ≡ false
        → (x.0 ≡ renewed) × (is_error x.1 ≡ true))
handle_connection_errors_example =
    handle_connection_errors sample sample_documented reader 1 (1 ∷ []) 150 renewed

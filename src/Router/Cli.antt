-- ===== src/Router/Cli.antt =====
-- crates/boardproof-router/src/cli.rs: the router that asks at a terminal.
use uniclaw.Prelude.{
  ℕ, zero, suc, ◌+◌, [], ◌∷◌, ◌++◌, Option, none, some, Result, ok, err, map_err, Step, ◌>>=◌, ◌>>◌,
  done, ite, Text, Text-discrete, text, decimal, trim, trim_end, to_ascii_lowercase,
}
use uniclaw.Receipt.{Receipt}
use uniclaw.Receipt.Crypto.{Foreign}
use uniclaw.Kernel.{ApprovalDecision, approves, denies, Proposal}
use uniclaw.Explain.{explain}
use uniclaw.Explain.Render.{render_text}
use uniclaw.Router.{RouterError, io, invalid_input, cancelled}

-- An input that gives a line or an error at each reading, the empty text at its end; an output that
-- takes or refuses each writing. Both count. An error is its text.
pub record CliApprovalRouter : Type 0 where
  pub line : ℕ → Result Text Text
  pub lines_read : ℕ
  pub accepts : ℕ → Result Text (Unit {0})
  pub writes : ℕ
  pub output : Text

-- `MAX_PROMPT_RETRIES`
abbrev pub max_prompt_retries : ℕ
max_prompt_retries = 3

abbrev pub Run : Type 0 → Type 0
Run A = Step CliApprovalRouter RouterError A

-- A call that writes, its error turned into a `RouterError`.
abbrev pub say : Text → Run (Unit {0})
say s c =
    (map_err io (c.accepts c.writes), record c { writes = c.writes + 1; output = c.output ++ s })

abbrev pub flush : Run (Unit {0})
flush c = (map_err io (c.accepts c.writes), record c { writes = c.writes + 1 })

abbrev pub read_line : Run Text
read_line c = (map_err io (c.line c.lines_read), record c { lines_read = c.lines_read + 1 })

-- The words that count as an answer.
abbrev answer_of : Text → Option ApprovalDecision
answer_of s = ite (Text-discrete s (text "y")) (some approves) (
    ite (Text-discrete s (text "yes")) (some approves) (
      ite (Text-discrete s (text "n")) (some denies)
        (ite (Text-discrete s (text "no")) (some denies) none)))

unfoldable pub parse_response : Text → Option ApprovalDecision
parse_response line = answer_of (to_ascii_lowercase (trim line))

abbrev echo : ApprovalDecision → Text
echo approves = text "approved"
echo denies = text "denied"

-- The bytes of the arrow and of the double bar.
abbrev arrow : Text
arrow = 0xE2 ∷ 0x86 ∷ 0x92 ∷ []

abbrev double_bars : Text
double_bars = 0xE2 ∷ 0x95 ∷ 0x90 ∷ 0xE2 ∷ 0x95 ∷ 0x90 ∷ 0xE2 ∷ 0x95 ∷ 0x90 ∷ []

abbrev newline : Text
newline = 10 ∷ []

-- `{:?}` of a text is a parameter: it escapes by tables of Unicode.
module _ (lib : Foreign) (debug : Text → Text) where
  abbrev pub unparsed : ℕ → Text → Run ApprovalDecision → Run ApprovalDecision
  unparsed zero line again = done (
      err (
        invalid_input
          (text "could not parse " ++ (debug (trim_end line) ++ text " as approve/deny"))))
  unparsed (suc left) line again = do
    say (
        text "Please answer y/yes/n/no ("
        ++ (decimal (suc left) ++ (text " attempt(s) left)." ++ newline)))
    again

  abbrev pub parsed :
      ℕ → Text → Option ApprovalDecision → Run ApprovalDecision → Run ApprovalDecision
  parsed left line (some decision) again = do
    say (arrow ++ (text " " ++ (echo decision ++ newline)))
    done (ok decision)
  parsed left line none again = unparsed left line again

  -- What is done with a line: the end of the input is a cancellation.
  abbrev pub answered : ℕ → Text → Run ApprovalDecision → Run ApprovalDecision
  answered left line again = elim line [
    | [] ↦ done (err cancelled)
    | c ∷ cs ↦ parsed left (c ∷ cs) (parse_response (c ∷ cs)) again
  ]

  -- The loop, by the attempts left.
  unfoldable pub ask : ℕ → Run ApprovalDecision
  ask zero = done (err (invalid_input (text "retry budget exhausted")))
  ask (suc left) = do
    say (text "Approve this action? (y/n) ")
    flush
    line ← read_line
    answered left line (ask left)

  unfoldable pub route :
      CliApprovalRouter
      → Receipt
      → Proposal
      → Result RouterError ApprovalDecision × CliApprovalRouter
  route c pending original_proposal =
      (do
        say (
            double_bars
            ++ (text " Pending action requires your approval " ++ (double_bars ++ newline)))
        say (render_text (explain lib pending))
        say newline
        ask max_prompt_retries)
        c

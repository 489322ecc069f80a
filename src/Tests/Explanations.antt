-- ===== src/Tests/Explanations.antt =====
-- The theorem on explanations (crates/boardproof-explain) at a concrete denial, and a rendering.
use uniclaw.Prelude.{◌≡◌, refl, true, some, text, starts_with}
use uniclaw.Receipt
use uniclaw.Kernel.{evaluate_proposal, Proposal}
use uniclaw.Kernel.Machine.{handle}
use uniclaw.Kernel.Machine.Authority.{outcome}
use uniclaw.Explain.{explain, constitution}
use uniclaw.Explain.Render.{render_rule_line, short_hex}
use uniclaw.Explain.Agreement.{AllWritten, told, explain-handle}
use uniclaw.Tests.{lib, kernel, rules, shell, propose, signer-IsHonest}

rules_written : AllWritten rules
unfolding starts_with
rules_written = (refl, (refl, tt))

abbrev denial : Proposal
denial = propose shell Receipt.allowed

explain-handle_example :
    told
      (outcome lib kernel denial).kind
      (outcome lib kernel denial).receipt.body.constitution_rules
    ≡ some (explain lib (outcome lib kernel denial).receipt).verdict
unfolding handle
explain-handle_example =
    explain-handle lib kernel rules refl rules_written signer-IsHonest (evaluate_proposal denial)
      (refl, λ e. cc) refl

rule_line :
    render_rule_line (record { id = text "no_shell"; matched = true; kind = constitution })
    ≡ text "  [+] no_shell  (constitution, matched)"
unfolding render_rule_line
rule_line = refl

short_hex_runs : short_hex (text "0123456789abcdef0") ≡ text "01234567...9abcdef0"
unfolding short_hex
short_hex_runs = refl

-- ===== src/Explain/Render.antt =====
-- crates/boardproof-explain/src/render.rs: an explanation as text.
use uniclaw.Prelude.{
  ℕ, zero, suc, ◌-◌, List, [], ◌∷◌, ◌++◌, if◌then◌else◌, leb, ◌==◌, length, take, drop, Text, text,
  decimal,
}
use uniclaw.Receipt.{Decision}
use uniclaw.Receipt
use uniclaw.Explain.{
  SignatureStatus, verified, failed, RuleKind, constitution, kernel_budget, kernel_approval,
  unknown_kernel, RuleEntry, Verdict, ProvenanceInfo, Explanation,
}

abbrev newline : Text
newline = 10 ∷ []

abbrev quote : Text
quote = 34 ∷ []

-- A line of its own: `writeln!`.
abbrev line : Text → Text
line s = s ++ newline

-- The box-drawing dash and the long dash in UTF-8.
abbrev bars : ℕ → Text
bars zero = []
bars (suc n) = 0xE2 ∷ 0x94 ∷ 0x80 ∷ bars n

abbrev long_dash : Text
long_dash = 0xE2 ∷ 0x80 ∷ 0x94 ∷ []

unfoldable pub render_sig_line : SignatureStatus → Text
render_sig_line verified = text "verified"
render_sig_line (failed detail) = text "FAILED (" ++ (detail ++ text ")")

unfoldable pub render_decision : Decision → Text
render_decision Receipt.allowed = text "ALLOWED"
render_decision Receipt.denied = text "DENIED"
render_decision Receipt.approved = text "APPROVED"
render_decision Receipt.pending = text "PENDING"

-- The phrase, or the short name where there is none.
abbrev phrase_or : Text → Text → Text
phrase_or [] short_name = short_name
phrase_or (c ∷ cs) short_name = c ∷ cs

abbrev tag : RuleKind → Text
tag constitution = text "constitution"
tag (kernel_budget reason) = text "kernel-budget: " ++ phrase_or reason.display reason.short_name
tag (kernel_approval reason) =
    text "kernel-approval: " ++ phrase_or reason.display reason.short_name
tag unknown_kernel = text "kernel-internal"

unfoldable pub render_rule_line : RuleEntry → Text
render_rule_line r =
    text "  ["
    ++ ((if r.matched then text "+" else text "-")
        ++ (text "] "
            ++ (r.id
                ++ (text "  ("
                    ++ (tag r.kind
                        ++ (text ", "
                            ++ ((if r.matched then text "matched" else text "not matched")
                                ++ text ")")))))))

abbrev lease_phrase : Text → Text → Text
lease_phrase [] short_name = text "budget exhausted (" ++ (short_name ++ text ")")
lease_phrase (c ∷ cs) short_name = c ∷ cs

unfoldable pub render_verdict : Verdict → Text
render_verdict (Verdict.allowed n) =
    if n == 0
    then line (text "  No rules consulted; no budget exhausted. Action allowed.")
    else line (text "  No matched rule blocked the action and no budget was exhausted.")
      ++ (text "  ("
          ++ (decimal n ++ line (text " rule(s) consulted, none matched.) Action allowed.")))
render_verdict (Verdict.denied_by_constitution id) =
    text "  Denied because constitution rule "
    ++ (quote ++ (id ++ (quote ++ line (text " matched."))))
render_verdict (Verdict.denied_by_budget reason) =
    text "  Denied because the capability lease was exhausted: "
    ++ (lease_phrase reason.display reason.short_name ++ line (text "."))
render_verdict Verdict.denied_as_proposed =
    line (text "  Caller proposed Denied; no rule fired and no budget was exhausted.")
    ++ line (text "  The kernel recorded the proposed decision.")
render_verdict Verdict.approved =
    line (text "  Operator approved a previously-pending action.")
    ++ line (text "  The budget re-check at approve time succeeded; action was Approved.")
render_verdict (Verdict.pending n) =
    text "  Constitution required operator review ("
    ++ (decimal n
        ++ (line (text " rule(s) consulted).")
            ++ line (text "  Awaiting a ResolveApproval event to finalize.")))
render_verdict Verdict.denied_by_operator =
    line (text "  Operator denied a previously-pending action.")

-- The first and the last eight characters of a longer text.
unfoldable pub short_hex : Text → Text
short_hex s = if leb (length s) 16 then s else take 8 s ++ (text "..." ++ drop (length s - 8) s)

abbrev rule_lines : List RuleEntry → Text
rule_lines [] = []
rule_lines (r ∷ rs) = line (render_rule_line r) ++ rule_lines rs

abbrev rules_block : List RuleEntry → Text
rules_block [] = line (text "  (no rules consulted)")
rules_block (r ∷ rs) = rule_lines (r ∷ rs)

abbrev warning : SignatureStatus → Text
warning verified = []
warning (failed detail) =
    text "[!] SIGNATURE INVALID "
    ++ (long_dash ++ (line (text " fields below are NOT trustworthy.") ++ newline))

abbrev edge_lines : List ProvenanceInfo → Text
edge_lines [] = []
edge_lines (p ∷ ps) =
    line (text "  " ++ (p.from ++ (text " -> " ++ (p.to ++ (text "  [" ++ (p.kind ++ text "]"))))))
    ++ edge_lines ps

abbrev provenance_block : List ProvenanceInfo → Text
provenance_block [] = []
provenance_block (p ∷ ps) = newline ++ (line (text "Provenance") ++ edge_lines (p ∷ ps))

unfoldable pub render_text : Explanation → Text
unfolding render_sig_line render_decision render_rule_line render_verdict short_hex
render_text e =
    line (bars 3 ++ (text " BoardProof Explain " ++ bars 41))
    ++ (line (text "Receipt    " ++ e.canonical_url)
        ++ (line (text "Issued at  " ++ e.issued_at)
            ++ (line (text "Issuer     " ++ e.issuer)
                ++ (line (text "Signature  " ++ render_sig_line e.signature)
                    ++ (newline ++ (warning e.signature ++ described))))))
  where
    position : Text
    position =
        newline
        ++ (line (text "Merkle position")
            ++ (line (text "  sequence  " ++ decimal e.merkle.sequence)
                ++ (line (text "  leaf_hash " ++ short_hex e.merkle.leaf_hash)
                    ++ (if e.merkle.is_genesis
                        then line (text "  prev_hash 00...00 (genesis)")
                        else line (text "  prev_hash " ++ short_hex e.merkle.prev_hash)))))

    described : Text
    described =
        line (text "Action     " ++ (e.action.kind ++ (text " -> " ++ e.action.target)))
        ++ (line (text "Decision   " ++ render_decision e.decision)
            ++ (newline
                ++ (line (text "Rules (" ++ (decimal (length e.rules) ++ text ")"))
                    ++ (rules_block e.rules
                        ++ (newline
                            ++ (line (text "Why")
                                ++ (render_verdict e.verdict
                                    ++ (newline
                                        ++ (provenance_block e.provenance ++ position)))))))))

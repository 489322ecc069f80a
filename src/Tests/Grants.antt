-- ===== src/Tests/Grants.antt =====
-- The theorems on globs, capabilities and names (crates/boardproof-tools, crates/boardproof-budget) at
-- concrete values.
use uniclaw.Prelude.{◌≡◌, ◌↔◌, true, List, [], ◌∷◌, text}
use uniclaw.Tools.Glob.{glob_match}
use uniclaw.Tools.Glob.Wildcards.{Globs, glob_match-Globs}
use uniclaw.Tools.Capabilities.{Capability, is_granted_by}
use uniclaw.Tools.Grants.{Grants, is_granted_by-Grants}

abbrev declared : List Capability
declared = Capability.file_read (text "/tmp/*") ∷ Capability.net_connect (text "api.*.com") ∷ []

abbrev requested : Capability
requested = Capability.net_connect (text "api.a.com")

glob_match-Globs_example :
    (glob_match (text "api.*.com") (text "api.a.com") ≡ true)
    ↔ Globs (text "api.*.com") (text "api.a.com")
glob_match-Globs_example = glob_match-Globs (text "api.*.com") (text "api.a.com")

is_granted_by-Grants_example : (is_granted_by declared requested ≡ true) ↔ Grants declared requested
is_granted_by-Grants_example = is_granted_by-Grants declared requested

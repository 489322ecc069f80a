-- ===== src/Tests/Requests.antt =====
-- The theorems on the kernel's answers, the log and the server (crates/boardproof-kernel,
-- crates/boardproof-store, crates/boardproof-host) at concrete requests.
use uniclaw.Host.Requests.{
  ProposeRequest, parse_action, receipt_response, post_proposal, proposed, post_proposal_lem,
}
use uniclaw.Prelude.{◌≡◌, refl, ◌⊎◌, ◌↔◌, [], ◌∷◌, some, ok, err, arith, text}
use uniclaw.Receipt.{Action, Receipt, PublicKey-discrete, Digest-discrete}
use uniclaw.Receipt.Hex.{to_hex}
use uniclaw.Receipt.Crypto
use uniclaw.Receipt.Crypto.{verify, verify-sign, content_id}
use uniclaw.Kernel.{Kernel, KernelOutcome, KernelError, zero_digest, mint, read_clock}
use uniclaw.Kernel.Proposals.{handle_proposal}
use uniclaw.Kernel.Machine.{handle}
use uniclaw.Kernel.Machine.Chain.{Mints, handle-cases}
use uniclaw.Kernel.Machine.Authority.{outcome}
use uniclaw.Store.{check, position, AppendError, append, verify_chain, get_by_id}
use uniclaw.Store.Verifies.{IsChain, verify_chain-ok_iff}
use uniclaw.Store.Lookup.{IsSound, append-IsSound}
use uniclaw.Host.{
  ApiError, Server, map_kernel_error, append_refused, ed25519_signer, drive, store, handle_event,
  serve,
}
use uniclaw.Host.Serving.{InStep, CollidesAt, CollidesIn, handle_event_lem, serve-InStep}
use uniclaw.Host.Race.{swapped_requests_wedge}
use uniclaw.Host.Interleaving.{Shared, Reach, begins, later, drives, stores, Holds, interleaved_log}
use uniclaw.Tests.{log-IsSound, server-InStep, allowance, lib, kernel, log, server, event}

serve-InStep_example :
    (InStep lib (serve lib server (event ∷ event ∷ []))
      × (verify_chain lib (serve lib server (event ∷ event ∷ [])).log ≡ ok tt))
    ⊎ CollidesIn lib server (event ∷ event ∷ [])
serve-InStep_example = serve-InStep lib (event ∷ event ∷ []) server server-InStep (omega arith)

handle_event_lem_example :
    ((r : Receipt) × ((handle_event lib server event).0 ≡ ok r)
      × (get_by_id (handle_event lib server event).1.log (content_id lib r) ≡ some r)
      × InStep lib (handle_event lib server event).1
      × ((handle_event lib server event).1.kernel.state.sequence ≡ 1))
    ⊎ ((x : KernelError) × (handle_event lib server event ≡ (err (map_kernel_error x), server)))
    ⊎ CollidesAt lib server event
handle_event_lem_example = handle_event_lem lib server event server-InStep (omega arith)

handle-cases_example :
    ((o : KernelOutcome) × (k' : Kernel) × (handle lib kernel event ≡ (ok o, k'))
      × Mints lib kernel o.receipt k')
    ⊎ ((x : KernelError) × (handle lib kernel event ≡ (err x, kernel)))
handle-cases_example = handle-cases lib kernel event

abbrev first : Receipt
first = (outcome lib kernel allowance).receipt

abbrev behind : Server
behind = record server { kernel = (handle_proposal lib kernel allowance).1 }

abbrev second : Receipt
second = (outcome lib behind.kernel allowance).receipt

abbrev ahead : Server
ahead = record server { kernel = (handle_proposal lib behind.kernel allowance).1 }

first_driven : drive lib server event ≡ (ok first, behind)
unfolding drive handle
first_driven = refl

second_driven : drive lib behind event ≡ (ok second, ahead)
unfolding drive handle
second_driven = refl

swapped_requests_wedge_example :
    ((x : AppendError) × (store lib ahead second ≡ (err (append_refused x), ahead)))
    × ((serve lib (store lib ahead first).1 (event ∷ [])).log ≡ (store lib ahead first).1.log)
swapped_requests_wedge_example =
    swapped_requests_wedge lib server behind ahead event event first second (event ∷ [])
      server-InStep (omega arith) first_driven second_driven

-- Both requests have passed the kernel's lock, and the second one got the log's lock first.
abbrev crossed : Shared
crossed = record {
  server = (store lib (store lib ahead second).1 first).1;
  minted = first ∷ second ∷ [];
  waiting = [];
}

crossed_reached : Reach lib server crossed
crossed_reached =
    later
      (later
        (later (later begins (drives event first first_driven)) (drives event second second_driven))
        (stores [] second (first ∷ []) refl))
      (stores [] first [] refl)

interleaved_log_example :
    (verify_chain lib crossed.server.log ≡ ok tt)
    × Holds log (first ∷ second ∷ []) crossed.server.log
interleaved_log_example =
    interleaved_log lib server crossed server-InStep crossed_reached (omega arith)

first_taken : (append lib log first).0 ≡ ok tt
unfolding append check handle_proposal mint read_clock ed25519_signer Crypto.sign PublicKey-discrete
    Digest-discrete verify position
first_taken = refl

append-IsSound_example :
    IsSound lib (append lib log first).1 × (verify_chain lib (append lib log first).1 ≡ ok tt)
append-IsSound_example = append-IsSound lib log first log-IsSound

verify_chain-ok_iff_example :
    (verify_chain lib (append lib log first).1 ≡ ok tt)
    ↔ IsChain lib 0 zero_digest (append lib log first).1.receipts
verify_chain-ok_iff_example = verify_chain-ok_iff lib (append lib log first).1

abbrev posted_fetch : ProposeRequest
posted_fetch = record {
  action = record {
    kind = text "http.fetch";
    target = text "https://a";
    input_hash = to_hex zero_digest;
  };
}

post_proposal_lem_example :
    ((a : Action) × (r : Receipt) × (parse_action posted_fetch.action ≡ ok a)
      × ((post_proposal lib server posted_fetch).0 ≡ ok (receipt_response lib r))
      × (get_by_id (post_proposal lib server posted_fetch).1.log (content_id lib r) ≡ some r)
      × InStep lib (post_proposal lib server posted_fetch).1)
    ⊎ ((e : ApiError) × (parse_action posted_fetch.action ≡ err e)
        × (post_proposal lib server posted_fetch ≡ (err e, server)))
    ⊎ ((a : Action) × (parse_action posted_fetch.action ≡ ok a)
        × CollidesAt lib server (proposed lib a))
post_proposal_lem_example = post_proposal_lem lib server posted_fetch server-InStep (omega arith)

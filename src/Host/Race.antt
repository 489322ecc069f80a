-- ===== src/Host/Race.antt =====
-- Two requests whose receipts reach the log in the other order (crates/boardproof-host/src/api.rs):
-- `handle_event` leaves the kernel's lock before it takes the log's.
use uniclaw.Prelude.{
  ◌+◌, ◌≤◌, ◌<◌, ◌≡◌, refl, sym, ap, ◌∙◌, subst, subst₂, inl, inr, List, [], ◌∷◌, Result, ok, err,
  arith, length, length-append,
}
use uniclaw.Budget.{u64_max}
use uniclaw.Receipt.{Receipt, ReceiptBody}
use uniclaw.Receipt.Crypto.{Foreign}
use uniclaw.Kernel.{Kernel, KernelEvent}
use uniclaw.Kernel.Machine.Chain.{Mints}
use uniclaw.Store.{ReceiptLog, AppendError, push}
use uniclaw.Store.Verifies.{append-cases}
use uniclaw.Host.{
  Server, ApiError, map_kernel_error, append_refused, drive, store, handle_event, serve,
}
use uniclaw.Host.Tracking.{IsHonest}
use uniclaw.Host.Serving.{InStep, handle_event-cases}

module _ (lib : Foreign) where
  -- The kernel has minted more receipts than the log holds, and no receipt waits.
  pub record Ahead (s : Server) : Type 0 where
    pub honest : IsHonest lib s.kernel.signer
    pub beyond : length s.log.receipts < s.kernel.state.sequence
    pub in_range : s.kernel.state.sequence ≤ u64_max

  pub minted_number :
      {k k' : Kernel} {r : Receipt}
      → IsHonest lib k.signer
      → Mints lib k r k'
      → r.body.merkle_leaf.sequence ≡ k.state.sequence
  minted_number honest m =
      ap (λ (b : ReceiptBody). b.merkle_leaf.sequence)
        (ap (λ (x : Receipt). x.body) m.signed ∙ honest.body_kept m.body)
      ∙ m.numbered

  -- A receipt with a number beyond the log's end is refused.
  store_refused :
      (s : Server) (r : Receipt)
      → length s.log.receipts < r.body.merkle_leaf.sequence
      → (x : AppendError) × (store lib s r ≡ (err (append_refused x), s))
  unfolding store
  store_refused s r h = elim (append-cases lib s.log r) [
    | inl (x, _) ↦ absurd (omega (arith, x.next_number))
    | inr (x, e) ↦ (x, rw (e, store) refl)
  ]

  -- What an event does to a server whose kernel is ahead of its log.
  event_refused :
      (s : Server) (e : KernelEvent)
      → Ahead s
      → (x : ApiError) × ((handle_event lib s e).0 ≡ err x)
        × ((handle_event lib s e).1.log ≡ s.log)
        × Ahead (handle_event lib s e).1
  event_refused s e a = elim (handle_event-cases lib s e) [
    | inr (x, _, h) ↦ rw h (map_kernel_error x, refl, refl, a)
    | inl (r, k', m, _, h) ↦
        let (x, no_room) =
          store_refused (record s { kernel = k' }) r
            (omega (arith, minted_number a.honest m, a.beyond)) in
        rw (h, no_room)
          (
            append_refused x,
            refl,
            refl,
            record {
              honest = subst (IsHonest lib) (sym m.same_signer) a.honest;
              beyond = omega (arith, m.counted, a.beyond, a.in_range);
              in_range = omega (arith, m.counted);
            },
          )
  ]

  -- Once the kernel is ahead of the log, every later request fails and the log never grows again.
  Ahead-stays :
      (es : List KernelEvent) (s : Server)
      → Ahead s
      → ((serve lib s es).log ≡ s.log) × Ahead (serve lib s es)
  unfolding serve
  Ahead-stays [] s a = (refl, a)
  Ahead-stays (e ∷ es) s a =
      let (x, _, same, next) = event_refused s e a in
      let later = Ahead-stays es (handle_event lib s e).1 next in (later.0 ∙ same, later.1)

  pub drive-Mints :
      (s t : Server) (e : KernelEvent) (r : Receipt)
      → drive lib s e ≡ (ok r, t)
      → Mints lib s.kernel r t.kernel × (t.log ≡ s.log)
  drive-Mints s t e r h = elim (handle_event-cases lib s e) [
    | inl (r', k', m, d, _) ↦
        let same : ◌≡◌ {A = Result ApiError Receipt × Server} (ok r', record s { kernel = k' })
            (ok r, t) =
          sym d ∙ h in
        let receipt : r' ≡ r = ground arith in
        let server : record s { kernel = k' } ≡ t =
          ap (λ (p : Result ApiError Receipt × Server). p.1) same in
        (
          subst₂ (Mints lib s.kernel) receipt (ap (λ (x : Server). x.kernel) server) m,
          sym (ap (λ (x : Server). x.log) server),
        )
    | inr (x, d, _) ↦ absurd (ground arith)
  ]

  pub length-push :
      (log : ReceiptLog) (r : Receipt) → length (push lib log r).receipts ≡ length log.receipts + 1
  unfolding push
  length-push log r = omega (arith, length-append log.receipts (r ∷ []))

  swapped-Ahead :
      (s t u : Server) (e f : KernelEvent) (r q : Receipt)
      → InStep lib s
      → s.kernel.state.sequence + 1 < u64_max
      → drive lib s e ≡ (ok r, t)
      → drive lib t f ≡ (ok q, u)
      → ((x : AppendError) × (store lib u q ≡ (err (append_refused x), u)))
        × Ahead (store lib u r).1
  unfolding store
  swapped-Ahead s t u e f r q i room first second =
      let (m, same) = drive-Mints s t e r first in
      let (n, same') = drive-Mints t u f q second in
      let honest : IsHonest lib t.kernel.signer =
        subst (IsHonest lib) (sym m.same_signer) i.honest in
      let honest' : IsHonest lib u.kernel.signer =
        subst (IsHonest lib) (sym n.same_signer) honest in
      let size : length u.log.receipts ≡ s.kernel.state.sequence =
        ap (λ (l : ReceiptLog). length l.receipts) (same' ∙ same) ∙ i.tracks.count in
      let number : u.kernel.state.sequence ≡ s.kernel.state.sequence + 2 =
        omega (arith, m.counted, n.counted, room) in
      (
        store_refused u q (omega (arith, minted_number honest n, m.counted, size)),
        elim (append-cases lib u.log r) [
          | inl (_, a) ↦
              rw (a, store)
                (record {
                  honest = honest';
                  beyond = omega (arith, length-push u.log r, size, number);
                  in_range = omega (arith, number, room);
                })
          | inr (_, a) ↦
              rw (a, store)
                (record {
                  honest = honest';
                  beyond = omega (arith, size, number);
                  in_range = omega (arith, number, room);
                })
        ],
      )

  -- Two requests pass the kernel in one order and reach the log in the other, on a server in step
  -- that has two sequence numbers to spare in a u64. The second request's receipt is refused
  -- although the kernel has minted it, and from the moment when the first one's is stored,
  -- requests that follow one after another never make the log grow.
  pub swapped_requests_wedge :
      (s t u : Server) (e f : KernelEvent) (r q : Receipt) (es : List KernelEvent)
      → InStep lib s
      → s.kernel.state.sequence + 1 < u64_max
      → drive lib s e ≡ (ok r, t)
      → drive lib t f ≡ (ok q, u)
      → ((x : AppendError) × (store lib u q ≡ (err (append_refused x), u)))
        × ((serve lib (store lib u r).1 es).log ≡ (store lib u r).1.log)
  swapped_requests_wedge s t u e f r q es i room first second =
      let (refused, ahead) = swapped-Ahead s t u e f r q i room first second in
      (refused, (Ahead-stays es (store lib u r).1 ahead).0)

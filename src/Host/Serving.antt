-- ===== src/Host/Serving.antt =====
-- Requests that are served one after another keep the kernel and the log in step
-- (crates/boardproof-host/src/api.rs).
use uniclaw.Prelude.{
  ◌+◌, ◌≤◌, ◌<◌, ◌≡◌, refl, sym, ap, subst, ◌⊎◌, inl, inr, List, [], ◌∷◌, some, Result, ok, err,
  arith, length,
}
use uniclaw.Budget.{u64_max}
use uniclaw.Receipt.{Receipt}
use uniclaw.Receipt.Crypto.{Foreign, content_id}
use uniclaw.Kernel.{Kernel, KernelEvent, KernelError}
use uniclaw.Kernel.Machine.Chain.{Mints, handle-cases}
use uniclaw.Store.{ReceiptLog, append, push, get_by_id, verify_chain}
use uniclaw.Store.Verifies.{verify_chain-ok_iff}
use uniclaw.Store.Lookup.{IsSound, append-IsSound, append_lookup}
use uniclaw.Host.{Server, ApiError, map_kernel_error, drive, store, handle_event, serve}
use uniclaw.Host.Tracking.{IsHonest, Tracks, Collides, minted_appends}

module _ (lib : Foreign) where
  -- A server whose signer is honest, whose log is a verified chain, and whose kernel stands where
  -- the log ends.
  pub record InStep (s : Server) : Type 0 where
    pub honest : IsHonest lib s.kernel.signer
    pub sound : IsSound lib s.log
    pub tracks : Tracks lib s.kernel s.log

  -- What an event does before its receipt is appended.
  pub handle_event-cases :
      (s : Server) (e : KernelEvent)
      → ((r : Receipt) × (k' : Kernel) × Mints lib s.kernel r k'
          × (drive lib s e ≡ (ok r, record s { kernel = k' }))
          × (handle_event lib s e ≡ store lib (record s { kernel = k' }) r))
        ⊎ ((x : KernelError) × (drive lib s e ≡ (err (map_kernel_error x), s))
            × (handle_event lib s e ≡ (err (map_kernel_error x), s)))
  unfolding handle_event drive
  handle_event-cases s e = elim (handle-cases lib s.kernel e) [
    | inl (o, k', h, m) ↦
        inl (o.receipt, k', m, rw (h, drive) refl, rw (h, handle_event, drive) refl)
    | inr (x, h) ↦ inr (x, rw (h, drive) refl, rw (h, handle_event, drive) refl)
  ]

  store-eq :
      (s : Server) (r : Receipt)
      → append lib s.log r ≡ (ok tt, push lib s.log r)
      → store lib s r ≡ (ok r, record s { log = push lib s.log r })
  unfolding store
  store-eq s r h = rw (h, store) refl

  push-IsSound_of_append :
      (log : ReceiptLog) (r : Receipt)
      → IsSound lib log
      → append lib log r ≡ (ok tt, push lib log r)
      → IsSound lib (push lib log r)
  push-IsSound_of_append log r sound h =
      subst (IsSound lib) (ap (λ (p : Result _ (Unit {0}) × ReceiptLog). p.1) h)
        (append-IsSound lib log r sound).0

  -- The receipt that the kernel mints for an event shares its content id with one of the log that has
  -- another sequence number.
  abbrev pub CollidesAt : Server → KernelEvent → Type 0
  CollidesAt s e = (r : Receipt) × ((drive lib s e).0 ≡ ok r) × Collides lib s.log r

  -- A server in step, its sequence number below the largest u64, answers an event with a receipt
  -- that the log then returns under its content id, or with the error that its kernel's refusal
  -- maps to and no change, unless the receipt that its kernel minted shares its content id with
  -- one of the log that has another sequence number. With a receipt it stays in step and its
  -- sequence number is one more.
  pub handle_event_lem :
      (s : Server) (e : KernelEvent)
      → InStep s
      → s.kernel.state.sequence < u64_max
      → ((r : Receipt) × ((handle_event lib s e).0 ≡ ok r)
          × (get_by_id (handle_event lib s e).1.log (content_id lib r) ≡ some r)
          × InStep (handle_event lib s e).1
          × ((handle_event lib s e).1.kernel.state.sequence ≡ s.kernel.state.sequence + 1))
        ⊎ ((x : KernelError) × (handle_event lib s e ≡ (err (map_kernel_error x), s)))
        ⊎ CollidesAt s e
  handle_event_lem s e i room = elim (handle_event-cases s e) [
    | inr (x, _, same) ↦ inr (inl (x, same))
    | inl (r, k', m, d, h) ↦ elim (minted_appends lib s.log i.honest i.tracks m i.sound room) [
      | inr c ↦ inr (inr (r, ap (λ (p : Result ApiError Receipt × Server). p.0) d, c))
      | inl (a, t) ↦ inl (
          rw (h, store-eq (record s { kernel = k' }) r a)
            (
              r,
              refl,
              found r a,
              record {
                honest = subst (IsHonest lib) (sym m.same_signer) i.honest;
                sound = push-IsSound_of_append s.log r i.sound a;
                tracks = t;
              },
              omega (arith, m.counted, room),
            ))
    ]
  ]
    where
      found :
          (r : Receipt)
          → append lib s.log r ≡ (ok tt, push lib s.log r)
          → get_by_id (push lib s.log r) (content_id lib r) ≡ some r
      found r a =
          rw a at
            (append_lookup lib s.log r (ap (λ (p : Result _ (Unit {0}) × ReceiptLog). p.0) a)).0

  -- Some request of a run is answered with a receipt that collides.
  pub data CollidesIn : Server → List KernelEvent → Type 0 where
    here :
        {s : Server} {e : KernelEvent} {es : List KernelEvent}
        → CollidesAt s e
        → CollidesIn s (e ∷ es)
    later :
        {s : Server} {e : KernelEvent} {es : List KernelEvent}
        → CollidesIn (handle_event lib s e).1 es
        → CollidesIn s (e ∷ es)

  -- After any requests, served one after another from a server in step whose sequence number
  -- leaves room for them in a u64, the server is in step and the log is a verified chain, unless
  -- for one of these requests the kernel minted a receipt that shares its content id with one of
  -- the log that has another sequence number.
  pub serve-InStep :
      (es : List KernelEvent) (s : Server)
      → InStep s
      → s.kernel.state.sequence + length es ≤ u64_max
      → (InStep (serve lib s es) × (verify_chain lib (serve lib s es).log ≡ ok tt))
        ⊎ CollidesIn s es
  unfolding serve
  serve-InStep [] s i room = inl (i, (verify_chain-ok_iff lib s.log).1 i.sound.chain)
  serve-InStep (e ∷ es) s i room = elim (handle_event_lem s e i (omega arith)) [
    | inl (r, _, _, next, n) ↦
        elim (serve-InStep es (handle_event lib s e).1 next (omega (arith, n, room))) [
          | inl served ↦ inl served
          | inr c ↦ inr (later c)
        ]
    | inr (inl (x, same)) ↦
        let unchanged : s ≡ (handle_event lib s e).1 =
          sym (ap (λ (p : Result ApiError Receipt × Server). p.1) same) in
        elim (serve-InStep es (handle_event lib s e).1 (subst InStep unchanged i) (
          subst (λ (t : Server). t.kernel.state.sequence + length es ≤ u64_max) unchanged
            (omega arith))) [ inl served ↦ inl served | inr c ↦ inr (later c) ]
    | inr (inr c) ↦ inr (here c)
  ]

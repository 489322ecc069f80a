-- ===== src/Host/Interleaving.antt =====
-- Requests whose two locked steps interleave (crates/boardproof-host/src/api.rs, `handle_event`): any
-- number of them wait for the log's lock at once, and get it in any order.
use mathlib.Core.List.{append_assoc, append-nil}
use uniclaw.Prelude.{
  ℕ, zero, suc, ◌+◌, ◌≤◌, ◌<◌, ◌≡◌, refl, sym, ap, ◌∙◌, subst, inl, inr, List, [], ◌∷◌, ◌++◌, some,
  Result, ok, err, arith, length, length-append, take,
}
use uniclaw.Budget.{u64_max}
use uniclaw.Receipt.{Receipt}
use uniclaw.Receipt.Crypto.{Foreign}
use uniclaw.Kernel.{KernelEvent}
use uniclaw.Store.{ReceiptLog, nth, append, push, verify_chain}
use uniclaw.Store.Verifies.{Extends, append-cases, verify_chain-ok_iff}
use uniclaw.Store.Lookup.{
  IsSound, append-IsSound, nth-append_left, nth-append_last, nth-append_inv, receipts-push,
}
use uniclaw.Host.{Server, ApiError, map_kernel_error, drive, store}
use uniclaw.Host.Tracking.{IsHonest}
use uniclaw.Host.Serving.{InStep, handle_event-cases}
use uniclaw.Host.Race.{minted_number, drive-Mints}

-- The server, the receipts that its kernel has minted, in that order, and those of them whose requests
-- wait for the log.
pub record Shared : Type 0 where
  pub server : Server
  pub minted : List Receipt
  pub waiting : List Receipt

abbrev pub start : Server → Shared
start s = record { server = s; minted = []; waiting = [] }

module _ (lib : Foreign) where
  -- One of a request's two locked steps: the kernel mints a receipt that then waits for the log, or
  -- refuses the event; a receipt that waits, whichever it is, goes to the log.
  pub data Step (s : Shared) : Shared → Type 0 where
    drives :
        (e : KernelEvent) (r : Receipt) {t : Server}
        → drive lib s.server e ≡ (ok r, t)
        → Step s (record { server = t; minted = s.minted ++ r ∷ []; waiting = r ∷ s.waiting })
    refuses :
        (e : KernelEvent) (x : ApiError) {t : Server}
        → drive lib s.server e ≡ (err x, t)
        → Step s (record { server = t; minted = s.minted; waiting = s.waiting })
    stores :
        (pre : List Receipt) (r : Receipt) (post : List Receipt)
        → s.waiting ≡ pre ++ r ∷ post
        → Step s
            (record { server = (store lib s.server r).1; minted = s.minted; waiting = pre ++ post })

  pub data Reach (base : Server) : Shared → Type 0 where
    begins : Reach base (start base)
    later : {s t : Shared} → Reach base s → Step s t → Reach base t

-- Each of the receipts that wait stands among those minted.
abbrev AllAmong : List Receipt → List Receipt → Type 0
AllAmong minted [] = Unit
AllAmong minted (r ∷ rs) = ((i : ℕ) × (nth minted i ≡ some r)) × AllAmong minted rs

take-suc :
    (xs : List Receipt) (n : ℕ) (r : Receipt)
    → nth xs n ≡ some r
    → (take (suc n) xs ≡ take n xs ++ r ∷ []) × (suc n ≤ length xs)
take-suc [] n r h = absurd (ground arith)
take-suc (x ∷ xs) zero r h = (ground arith, omega arith)
take-suc (x ∷ xs) (suc n) r h =
    let (ih, le) = take-suc xs n r h in (ap (λ (t : List Receipt). x ∷ t) ih, omega arith)

take-append : (xs ys : List Receipt) (n : ℕ) → n ≤ length xs → take n (xs ++ ys) ≡ take n xs
take-append xs ys zero h = refl
take-append [] ys (suc n) h = absurd (omega arith)
take-append (x ∷ xs) ys (suc n) h =
    ap (λ (t : List Receipt). x ∷ t) (take-append xs ys n (omega arith))

length-take : (xs : List Receipt) (n : ℕ) → n ≤ length xs → length (take n xs) ≡ n
length-take xs zero h = refl
length-take [] (suc n) h = absurd (omega arith)
length-take (x ∷ xs) (suc n) h = omega (arith, length-take xs n)

AllAmong-append :
    (minted : List Receipt) (y : Receipt) (rs : List Receipt)
    → AllAmong minted rs
    → AllAmong (minted ++ y ∷ []) rs
AllAmong-append minted y [] h = tt
AllAmong-append minted y (r ∷ rs) h =
    ((h.0.0, nth-append_left minted h.0.0 y r h.0.1), AllAmong-append minted y rs h.1)

-- The one that is taken out, and the rest.
AllAmong-split :
    (minted pre : List Receipt) (r : Receipt) (post : List Receipt)
    → AllAmong minted (pre ++ r ∷ post)
    → ((i : ℕ) × (nth minted i ≡ some r)) × AllAmong minted (pre ++ post)
AllAmong-split minted [] r post h = h
AllAmong-split minted (x ∷ pre) r post h =
    let (here, rest) = AllAmong-split minted pre r post h.1 in (here, (h.0, rest))

-- The log is the one it started as, followed by an initial segment of what was minted.
abbrev pub Holds : ReceiptLog → List Receipt → ReceiptLog → Type 0
Holds log minted log' =
    (n : ℕ) × (n ≤ length minted) × (log'.receipts ≡ log.receipts ++ take n minted)

module _ (lib : Foreign) (base : Server) where
  -- What every step keeps.
  record Ordered (s : Shared) : Type 0 where
    honest : IsHonest lib s.server.kernel.signer
    sound : IsSound lib s.server.log
    holds : Holds base.log s.minted s.server.log
    numbered :
        (i : ℕ) (r : Receipt)
        → nth s.minted i ≡ some r
        → r.body.merkle_leaf.sequence ≡ length base.log.receipts + i
    counted : s.server.kernel.state.sequence ≡ length base.log.receipts + length s.minted
    among : AllAmong s.minted s.waiting

  start-Ordered : InStep lib base → Ordered (start base)
  start-Ordered i = record {
    honest = i.honest;
    sound = i.sound;
    holds = (0, omega arith, sym (append-nil base.log.receipts));
    numbered = λ i r h. absurd (ground arith);
    counted = omega (arith, i.tracks.count);
    among = tt;
  }

  drives-Ordered :
      (s : Shared) (e : KernelEvent) (r : Receipt) (t : Server)
      → drive lib s.server e ≡ (ok r, t)
      → length base.log.receipts + length s.minted < u64_max
      → Ordered s
      → Ordered (record { server = t; minted = s.minted ++ r ∷ []; waiting = r ∷ s.waiting })
  drives-Ordered s e r t d room o =
      let (m, same) = drive-Mints lib s.server t e r d in
      let number : r.body.merkle_leaf.sequence ≡ length base.log.receipts + length s.minted =
        minted_number lib o.honest m ∙ o.counted in
      record {
        honest = subst (IsHonest lib) (sym m.same_signer) o.honest;
        sound = subst (IsSound lib) (sym same) o.sound;
        holds = (
          o.holds.0,
          omega (arith, o.holds.1, length-append s.minted (r ∷ [])),
          ap (λ (l : ReceiptLog). l.receipts) same
              ∙ o.holds.2
              ∙ ap (λ x. base.log.receipts ++ x)
                  (sym (take-append s.minted (r ∷ []) o.holds.0 o.holds.1)),
        );
        numbered = λ i q h. elim (nth-append_inv s.minted i r q h) [
          | inl old ↦ o.numbered i q old
          | inr (at, new) ↦ rw (at, new) number
        ];
        counted = omega (arith, m.counted, o.counted, length-append s.minted (r ∷ []));
        among = (
          (length s.minted, nth-append_last s.minted r),
          AllAmong-append s.minted r s.waiting o.among,
        );
      }

  -- The log takes a receipt that waits only if it is the next one in the minting order.
  push_next :
      (s : Shared) (r : Receipt) (i : ℕ)
      → nth s.minted i ≡ some r
      → Extends lib s.server.log r
      → Ordered s
      → Holds base.log s.minted (push lib s.server.log r)
  push_next s r i here x o =
      let (n, inside, eq) = o.holds in
      let size : length s.server.log.receipts ≡ length base.log.receipts + n = omega (
        arith,
        ap (λ (l : List Receipt). length l) eq,
        length-append base.log.receipts (take n s.minted),
        length-take s.minted n inside,
      ) in
      let place : i ≡ n = omega (arith, x.next_number, o.numbered i r here, size) in
      let (longer, fits) = take-suc s.minted n r (rw place at here) in
      (
        suc n,
        fits,
        receipts-push lib s.server.log r
            ∙ ap (λ (l : List Receipt). l ++ r ∷ []) eq
            ∙ append_assoc base.log.receipts (take n s.minted) (r ∷ [])
            ∙ ap (λ (l : List Receipt). base.log.receipts ++ l) (sym longer),
      )

  stores-Ordered :
      (s : Shared) (pre : List Receipt) (r : Receipt) (post : List Receipt)
      → s.waiting ≡ pre ++ r ∷ post
      → Ordered s
      → Ordered
          (record { server = (store lib s.server r).1; minted = s.minted; waiting = pre ++ post })
  unfolding store
  stores-Ordered s pre r post w o =
      let ((i, here), rest) =
        AllAmong-split s.minted pre r post (subst (AllAmong s.minted) w o.among) in
      let sound : IsSound lib (append lib s.server.log r).1 =
        (append-IsSound lib s.server.log r o.sound).0 in
      elim (append-cases lib s.server.log r) [
        | inl (x, a) ↦
            rw (a, store)
              (record {
                honest = o.honest;
                sound = rw a at sound;
                holds = push_next s r i here x o;
                numbered = o.numbered;
                counted = o.counted;
                among = rest;
              })
        | inr (x, a) ↦
            rw (a, store)
              (record {
                honest = o.honest;
                sound = o.sound;
                holds = o.holds;
                numbered = o.numbered;
                counted = o.counted;
                among = rest;
              })
      ]

  refuses-Ordered :
      (s : Shared) (e : KernelEvent) (x : ApiError) (t : Server)
      → drive lib s.server e ≡ (err x, t)
      → Ordered s
      → Ordered (record { server = t; minted = s.minted; waiting = s.waiting })
  refuses-Ordered s e x t d o = elim (handle_event-cases lib s.server e) [
    | inl (r, k', _, h, _) ↦ absurd (ground (arith, d, h))
    | inr (y, h, _) ↦
        let answer : ◌≡◌ {A = Result ApiError Receipt × Server} (err (map_kernel_error y), s.server)
            (err x, t) =
          sym h ∙ d in
        subst
          (λ (u : Server). Ordered (record { server = u; minted = s.minted; waiting = s.waiting }))
          (ap (λ (p : Result ApiError Receipt × Server). p.1) answer) o
  ]

  Reach-Ordered :
      (s : Shared)
      → InStep lib base
      → Reach lib base s
      → length base.log.receipts + length s.minted ≤ u64_max
      → Ordered s
  Reach-Ordered _ i begins room = start-Ordered i
  Reach-Ordered _ i (later {s} path (drives e r d)) room =
      drives-Ordered s e r _ d (omega (arith, length-append s.minted (r ∷ [])))
        (Reach-Ordered s i path (omega (arith, length-append s.minted (r ∷ []))))
  Reach-Ordered _ i (later {s} path (refuses e x d)) room =
      refuses-Ordered s e x _ d (Reach-Ordered s i path room)
  Reach-Ordered _ i (later {s} path (stores pre r post w)) room =
      stores-Ordered s pre r post w (Reach-Ordered s i path room)

  -- In whatever order the requests take the kernel's lock and then the log's, from a server in step:
  -- as long as its log's length and the receipts minted since fit together in a u64, `verify_chain`
  -- accepts the log, and the log is the one it started as followed by an initial segment of the
  -- receipts that the kernel minted since, in the order of the minting.
  pub interleaved_log :
      (s : Shared)
      → InStep lib base
      → Reach lib base s
      → length base.log.receipts + length s.minted ≤ u64_max
      → (verify_chain lib s.server.log ≡ ok tt) × Holds base.log s.minted s.server.log
  interleaved_log s i path room =
      let o = Reach-Ordered s i path room in
      ((verify_chain-ok_iff lib s.server.log).1 o.sound.chain, o.holds)

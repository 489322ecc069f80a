-- ===== src/Host/Tracking.antt =====
-- The kernel and the log in step (crates/boardproof-host/src/api.rs).
use uniclaw.Prelude.{
  ℕ, zero, suc, ◌+◌, ◌≤◌, ◌<◌, ◌≡◌, refl, sym, ap, ◌∙◌, ◌⊎◌, inl, inr, ◌≢◌, List, [], ◌∷◌, Option,
  none, some, ok, arith, length, length-append, Text, Option-cases,
}
use uniclaw.Budget.{u64_max}
use uniclaw.Constitution.{Constitution}
use uniclaw.Receipt.{Digest, ReceiptBody, Receipt, receipt_format_version}
use uniclaw.Receipt.Crypto.{Foreign, SignsSoundly, verify, content_id, verify-sign}
use uniclaw.Receipt.Crypto
use uniclaw.Kernel.{Kernel, Signer, Clock, zero_digest}
use uniclaw.Kernel.Machine.Chain.{Mints}
use uniclaw.Store.{ReceiptLog, position, last_leaf, last, nth, append, push}
use uniclaw.Store.Verifies.{IsChain, Extends, Extends-check, last_leaf-append}
use uniclaw.Store.Lookup.{IsSound}
use uniclaw.Host.{ed25519_signer, build_kernel_from_log}

module _ (lib : Foreign) where
  -- A signer whose receipts carry the body, this version and its own key, and verify.
  pub record IsHonest (s : Signer) : Type 0 where
    pub body_kept : (b : ReceiptBody) → (s.sign b).body ≡ b
    pub current : (b : ReceiptBody) → (s.sign b).version ≡ receipt_format_version
    pub own_key : (b : ReceiptBody) → (s.sign b).issuer ≡ s.public_key
    pub valid : (b : ReceiptBody) → verify lib (s.sign b) ≡ ok tt

  pub ed25519_signer-IsHonest :
      SignsSoundly lib
      → (key : lib.SigningKey) (id : Option Text) → IsHonest (ed25519_signer lib key id)
  ed25519_signer-IsHonest sound key id = record {
    body_kept = λ b. unfold ed25519_signer Crypto.sign in refl;
    current = λ b. unfold ed25519_signer Crypto.sign in refl;
    own_key = λ b. unfold ed25519_signer Crypto.sign in refl;
    valid = λ b. unfold ed25519_signer in verify-sign lib sound b key;
  }

  -- The log ends where the kernel's chain stands.
  pub record Tracks (k : Kernel) (log : ReceiptLog) : Type 0 where
    pub issuer : log.issuer ≡ k.signer.public_key
    pub count : length log.receipts ≡ k.state.sequence
    pub end : last_leaf zero_digest log.receipts ≡ k.state.prev_hash

  -- Two receipts of different places with one content id: a collision of the hash.
  unfoldable pub Collides : ReceiptLog → Receipt → Type 0
  Collides log r =
      (i : ℕ) × (s : Receipt) × (nth log.receipts i ≡ some s)
      × (content_id lib s ≡ content_id lib r)
      × (s.body.merkle_leaf.sequence ≢ r.body.merkle_leaf.sequence)

  IsChain-nth :
      (i j : ℕ) (d : Digest) (rs : List Receipt) (s : Receipt)
      → IsChain lib i d rs
      → nth rs j ≡ some s
      → (s.body.merkle_leaf.sequence ≡ i + j) × (j < length rs)
  IsChain-nth i j d [] s c h = absurd (ground arith)
  IsChain-nth i zero d (x ∷ rs) s c h =
      let same : s ≡ x = ground arith in (rw same (omega (arith, c.0)), omega arith)
  IsChain-nth i (suc j) d (x ∷ rs) s c h =
      let ih = IsChain-nth (suc i) j x.body.merkle_leaf.leaf_hash rs s c.3 h in
      (omega (arith, ih.0), omega (arith, ih.1))

  module _ {k k' : Kernel} {r : Receipt} (log : ReceiptLog) (honest : IsHonest k.signer)
      (t : Tracks k log) (m : Mints lib k r k') where
    body-eq : r.body ≡ m.body
    body-eq = rw m.signed (honest.body_kept m.body)

    minted-Extends : position (content_id lib r) log.by_id ≡ none → Extends lib log r
    minted-Extends fresh = record {
      known_version = rw m.signed (honest.current m.body);
      pinned = ap (λ (x : Receipt). x.issuer) m.signed ∙ (honest.own_key m.body ∙ sym t.issuer);
      next_number =
          ap (λ (b : ReceiptBody). b.merkle_leaf.sequence) body-eq ∙ (m.numbered ∙ sym t.count);
      chained = ap (λ (b : ReceiptBody). b.merkle_leaf.prev_hash) body-eq ∙ (m.linked ∙ sym t.end);
      signed = rw m.signed (honest.valid m.body);
      fresh = fresh;
    }

    minted-Tracks : k.state.sequence < u64_max → Tracks k' (push lib log r)
    minted-Tracks room = record {
      issuer = unfold push in t.issuer ∙ sym (ap (λ (s : Signer). s.public_key) m.same_signer);
      count =
          unfold push in
          omega (arith, length-append log.receipts (r ∷ []), t.count, m.counted, room);
      end =
          unfold push in
          last_leaf-append zero_digest log.receipts r
          ∙ (ap (λ (b : ReceiptBody). b.merkle_leaf.leaf_hash) body-eq ∙ sym m.advanced);
    }

    entry-Collides :
        (i : ℕ) → IsSound lib log → position (content_id lib r) log.by_id ≡ some i → Collides log r
    entry-Collides i sound h =
        let (s, at, same) = sound.index.sound (content_id lib r) i h in
        let place = IsChain-nth 0 i zero_digest log.receipts s sound.chain at in
        let number : r.body.merkle_leaf.sequence ≡ length log.receipts =
          ap (λ (b : ReceiptBody). b.merkle_leaf.sequence) body-eq ∙ (m.numbered ∙ sym t.count) in
        unfold Collides in
        (i, s, at, same, λ e. absurd (omega (arith, e, number, place.0, place.1)))

    -- The log that the kernel is in step with takes the receipt that it mints, and stays in step,
    -- unless an earlier receipt has the same content id.
    pub minted_appends :
        IsSound lib log
        → k.state.sequence < u64_max
        → ((append lib log r ≡ (ok tt, push lib log r)) × Tracks k' (push lib log r))
          ⊎ Collides log r
    minted_appends sound room = elim (Option-cases (position (content_id lib r) log.by_id)) [
      | inl fresh ↦ inl (
        unfold append in rw (Extends-check lib log r (minted-Extends fresh), append),
        minted-Tracks room,
      )
      | inr (i, h) ↦ inr (entry-Collides i sound h)
    ]

last-last_leaf :
    (d : Digest) (rs : List Receipt)
    → ((last rs ≡ none) × (length rs ≡ 0) × (last_leaf d rs ≡ d))
      ⊎ ((r : Receipt) × (i : ℕ) × (last rs ≡ some r)
          × (nth rs i ≡ some r)
          × (length rs ≡ suc i)
          × (last_leaf d rs ≡ r.body.merkle_leaf.leaf_hash))
unfolding last last_leaf
last-last_leaf d [] = inl (refl, refl, refl)
last-last_leaf d (r ∷ []) = inr (r, 0, refl, refl, refl, refl)
last-last_leaf d (x ∷ y ∷ rs) = elim (last-last_leaf x.body.merkle_leaf.leaf_hash (y ∷ rs)) [
  | inl (_, e, _) ↦ absurd (omega arith)
  | inr (r, i, a, b, c, e) ↦ inr (r, suc i, a, b, ap suc c, e)
]

module _ (lib : Foreign) where
  -- After a restart, the kernel that is rebuilt from a sound log that is pinned to its signer's
  -- key, with no more receipts than a u64 counts, stands where the log ends.
  pub build_kernel_from_log-Tracks :
      (log : ReceiptLog) (s : Signer) (c : Clock) (rules : Constitution)
      → IsSound lib log
      → log.issuer ≡ s.public_key
      → length log.receipts ≤ u64_max
      → Tracks lib (build_kernel_from_log log s c rules) log
  unfolding build_kernel_from_log
  build_kernel_from_log-Tracks log s c rules sound own room =
      elim (last-last_leaf zero_digest log.receipts) [
        | inl (e, n, leaf) ↦
            rw (e, build_kernel_from_log) (record { issuer = own; count = n; end = leaf })
        | inr (r, i, e, at, n, leaf) ↦
            let number = (IsChain-nth lib 0 i zero_digest log.receipts r sound.chain at).0 in
            rw (e, build_kernel_from_log)
              (record { issuer = own; count = omega (arith, number, n, room); end = leaf })
      ]

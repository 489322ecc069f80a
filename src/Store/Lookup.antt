-- ===== src/Store/Lookup.antt =====
-- What the log gives back (crates/boardproof-store/src/memory.rs).
use uniclaw.Prelude.{
  ℕ, zero, suc, ◌≡◌, refl, sym, ◌∙◌, ◌⊎◌, inl, inr, List, [], ◌∷◌, ◌++◌, Option-cases, none, some,
  ok, arith, length, ite, if_pos,
}
use uniclaw.Receipt.{Digest, PublicKey, Receipt, Digest-discrete}
use uniclaw.Receipt.Crypto.{Foreign, content_id}
use uniclaw.Kernel.{zero_digest}
use uniclaw.Store.{
  ReceiptLog, new_log, position, nth, get_by_sequence, get_by_id, push, append, verify_chain,
}
use uniclaw.Store.Verifies.{IsChain, IsChain-snoc, Extends, append-cases, verify_chain-ok_iff}

pub nth-append_left :
    (rs : List Receipt) (i : ℕ) (r x : Receipt) → nth rs i ≡ some x → nth (rs ++ r ∷ []) i ≡ some x
nth-append_left [] i r x h = cc
nth-append_left (y ∷ rs) zero r x h = h
nth-append_left (y ∷ rs) (suc i) r x h = nth-append_left rs i r x h

pub nth-append_last : (rs : List Receipt) (r : Receipt) → nth (rs ++ r ∷ []) (length rs) ≡ some r
nth-append_last [] r = refl
nth-append_last (y ∷ rs) r = nth-append_last rs r

pub nth-append_inv :
    (rs : List Receipt) (i : ℕ) (r x : Receipt)
    → nth (rs ++ r ∷ []) i ≡ some x
    → (nth rs i ≡ some x) ⊎ ((i ≡ length rs) × (x ≡ r))
nth-append_inv [] zero r x h = inr (refl, ground arith)
nth-append_inv [] (suc i) r x h = cc
nth-append_inv (y ∷ rs) zero r x h = inl h
nth-append_inv (y ∷ rs) (suc i) r x h = elim (nth-append_inv rs i r x h) [
  | inl e ↦ inl e
  | inr (e, f) ↦ inr (omega arith, f)
]

module _ (lib : Foreign) where
  -- The index holds the content id of each receipt with its place, and nothing else.
  pub record IsIndexed (log : ReceiptLog) : Type 0 where
    pub sound :
        (id : Digest) (i : ℕ)
        → position id log.by_id ≡ some i
        → (r : Receipt) × (nth log.receipts i ≡ some r) × (content_id lib r ≡ id)
    pub complete :
        (i : ℕ) (r : Receipt)
        → nth log.receipts i ≡ some r
        → position (content_id lib r) log.by_id ≡ some i

  position-push :
      (log : ReceiptLog) (r : Receipt) (id : Digest)
      → position id (push lib log r).by_id
        ≡ ite
            (Digest-discrete (content_id lib r) id)
            (some (length log.receipts))
            (position id log.by_id)
  unfolding push position
  position-push log r id = refl

  pub receipts-push :
      (log : ReceiptLog) (r : Receipt) → (push lib log r).receipts ≡ log.receipts ++ r ∷ []
  unfolding push
  receipts-push log r = refl

  push-IsIndexed :
      (log : ReceiptLog) (r : Receipt)
      → position (content_id lib r) log.by_id ≡ none
      → IsIndexed log
      → IsIndexed (push lib log r)
  push-IsIndexed log r fresh ix = record { sound = sound; complete = complete }
    where
      sound :
          (id : Digest) (i : ℕ)
          → position id (push lib log r).by_id ≡ some i
          → (x : Receipt) × (nth (push lib log r).receipts i ≡ some x) × (content_id lib x ≡ id)
      sound id i h = elim (Digest-discrete (content_id lib r) id) [
        | yes e ↦
            let here : i ≡ length log.receipts = ground (arith, position-push log r id) in
            (r, rw (receipts-push log r, here) (nth-append_last log.receipts r), e)
        | no n ↦
            let (x, p, q) = ix.sound id i (ground (arith, position-push log r id)) in
            (x, rw (receipts-push log r) (nth-append_left log.receipts i r x p), q)
      ]

      complete :
          (i : ℕ) (x : Receipt)
          → nth (push lib log r).receipts i ≡ some x
          → position (content_id lib x) (push lib log r).by_id ≡ some i
      complete i x h = elim (nth-append_inv log.receipts i r x (rw (receipts-push log r) at h)) [
        | inl e ↦
            let old = ix.complete i x e in
            rw (position-push log r (content_id lib x)) (ground (arith, old, fresh))
        | inr (e, f) ↦ rw (position-push log r (content_id lib x)) (ground (arith, e, f))
      ]

  -- A log as appends build it: a verified chain of receipts of its issuer, and their index.
  pub record IsSound (log : ReceiptLog) : Type 0 where
    pub chain : IsChain lib 0 zero_digest log.receipts
    pub pinned : (i : ℕ) (r : Receipt) → nth log.receipts i ≡ some r → r.issuer ≡ log.issuer
    pub index : IsIndexed log

  pub new_log-IsSound : (issuer : PublicKey) → IsSound (new_log issuer)
  new_log-IsSound issuer = record {
    chain = tt;
    pinned = λ i r h. absurd (ground arith);
    index = record {
      sound = λ id i h. absurd (none_found id i h);
      complete = λ i r h. absurd (ground arith);
    };
  }
    where
      none_found : (id : Digest) (i : ℕ) → position id (new_log issuer).by_id ≡ some i → ⊥
      none_found id i h = unfold position in ground arith

  pub push-IsSound :
      (log : ReceiptLog) (r : Receipt) → IsSound log → Extends lib log r → IsSound (push lib log r)
  push-IsSound log r s x = record {
    chain = rw (receipts-push log r) (
        IsChain-snoc lib 0 zero_digest log.receipts r s.chain (omega (arith, x.next_number))
          x.chained x.signed);
    pinned = pinned;
    index = push-IsIndexed log r x.fresh s.index;
  }
    where
      issuer_kept : (push lib log r).issuer ≡ log.issuer
      issuer_kept = unfold push in refl

      pinned :
          (i : ℕ) (y : Receipt)
          → nth (push lib log r).receipts i ≡ some y
          → y.issuer ≡ (push lib log r).issuer
      pinned i y h = elim (nth-append_inv log.receipts i r y (rw (receipts-push log r) at h)) [
        | inl e ↦ s.pinned i y e ∙ sym issuer_kept
        | inr (_, e) ↦ rw e (x.pinned ∙ sym issuer_kept)
      ]

  -- Whether it takes the receipt or not, an append keeps the log a verified, pinned and indexed
  -- chain, so `verify_chain` accepts it.
  pub append-IsSound :
      (log : ReceiptLog) (r : Receipt)
      → IsSound log
      → IsSound (append lib log r).1 × (verify_chain lib (append lib log r).1 ≡ ok tt)
  append-IsSound log r s = (kept, (verify_chain-ok_iff lib (append lib log r).1).1 kept.chain)
    where
      kept : IsSound (append lib log r).1
      kept = elim (append-cases lib log r) [
        | inl (x, e) ↦ rw e (push-IsSound log r s x)
        | inr (_, e) ↦ rw e s
      ]

  -- A receipt that was taken is found by its content id and by its sequence number, and whatever was
  -- found by a sequence number before still is.
  pub append_lookup :
      (log : ReceiptLog) (r : Receipt)
      → (append lib log r).0 ≡ ok tt
      → let log' = (append lib log r).1 in
        (get_by_id log' (content_id lib r) ≡ some r)
        × (get_by_sequence log' r.body.merkle_leaf.sequence ≡ some r)
        × ((i : ℕ)
            → (get_by_sequence log i ≡ none) ⊎ (get_by_sequence log' i ≡ get_by_sequence log i))
  append_lookup log r h = elim (append-cases lib log r) [
    | inr (e, p) ↦ absurd (ground (arith, p))
    | inl (x, p) ↦ rw p (found, by_number r.body.merkle_leaf.sequence x.next_number, kept)
  ]
    where
      found : get_by_id (push lib log r) (content_id lib r) ≡ some r
      found = unfold get_by_id push position in rw (if_pos _ refl) (nth-append_last log.receipts r)

      kept :
          (i : ℕ)
          → (get_by_sequence log i ≡ none)
            ⊎ (get_by_sequence (push lib log r) i ≡ get_by_sequence log i)
      kept i =
          unfold get_by_sequence push in
          elim (Option-cases (nth log.receipts i)) [
            | inl e ↦ inl e
            | inr (x, e) ↦ inr (nth-append_left log.receipts i r x e ∙ sym e)
          ]

      by_number : (n : ℕ) → n ≡ length log.receipts → get_by_sequence (push lib log r) n ≡ some r
      by_number n e = rw e (unfold get_by_sequence push in nth-append_last log.receipts r)

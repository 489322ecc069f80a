-- ===== src/Host/Startup/Loading.antt =====
-- A directory of receipts is loaded in the order of their sequence numbers
-- (crates/boardproof-host/src/bin/boardproof-host.rs, `load_receipts_dir`).
use mathlib.Core.List.{append_assoc, append-nil}
use uniclaw.Prelude.{
  ℕ, zero, suc, ◌+◌, ◌<◌, ◌≡◌, refl, sym, ap, ◌∙◌, arith, true, List, [], ◌∷◌, ◌++◌, Option,
  Option-cases, some, Result, ok, inl, inr, length, Text,
}
use uniclaw.Receipt.{Digest, Receipt, receipt_format_version}
use uniclaw.Receipt.Crypto.{Foreign, verify, content_id}
use uniclaw.Kernel.{zero_digest}
use uniclaw.Store.{ReceiptLog, AppendError, new_log, position, last_leaf, nth, push, append}
use uniclaw.Store.Verifies.{IsChain, Extends, Extends-check}
use uniclaw.Store.Lookup.{IsSound, new_log-IsSound, push-IsSound, receipts-push}
use uniclaw.Host.Startup.{
  Entry, System, sort_by_sequence, read_entries, replay, replayed, load_sorted, load_receipts_dir,
}
use uniclaw.Host.Startup.Sorting.{Shuffled, NumberedFrom, sort-Shuffled}
use uniclaw.Sqlite.{Engine}

nth-append :
    (xs ys : List Receipt) (i : ℕ) (r : Receipt)
    → nth xs i ≡ some r
    → (i < length xs) × (nth (xs ++ ys) i ≡ some r)
nth-append [] ys i r h = absurd (ground arith)
nth-append (x ∷ xs) ys zero r h = (omega arith, h)
nth-append (x ∷ xs) ys (suc i) r h = let (a, b) = nth-append xs ys i r h in (omega arith, b)

nth-middle :
    (xs : List Receipt) (r : Receipt) (ys : List Receipt) → nth (xs ++ r ∷ ys) (length xs) ≡ some r
nth-middle [] r ys = refl
nth-middle (x ∷ xs) r ys = nth-middle xs r ys

module _ (lib : Foreign) where
  -- The link at a place of a chain.
  IsChain-middle :
      (n : ℕ) (d : Digest) (xs : List Receipt) (r : Receipt) (ys : List Receipt)
      → IsChain lib n d (xs ++ r ∷ ys)
      → (r.body.merkle_leaf.sequence ≡ n + length xs)
        × (r.body.merkle_leaf.prev_hash ≡ last_leaf d xs)
        × (verify lib r ≡ ok tt)
  unfolding last_leaf
  IsChain-middle n d [] r ys c = (omega (arith, c.0), c.1, c.2)
  IsChain-middle n d (x ∷ xs) r ys c =
      let (number, linked, signed) =
        IsChain-middle (suc n) x.body.merkle_leaf.leaf_hash xs r ys c.3 in
      (omega (arith, number), linked, signed)

  IsChain-NumberedFrom :
      (n : ℕ) (d : Digest) (rs : List Receipt) → IsChain lib n d rs → NumberedFrom n rs
  IsChain-NumberedFrom n d [] c = tt
  IsChain-NumberedFrom n d (r ∷ rs) c =
      (c.0, IsChain-NumberedFrom (suc n) r.body.merkle_leaf.leaf_hash rs c.3)

  issuer-push : (log : ReceiptLog) (r : Receipt) → (push lib log r).issuer ≡ log.issuer
  unfolding push
  issuer-push log r = refl

  -- What a log that holds the beginning of another takes next.
  prefix-Extends :
      (log part : ReceiptLog) (r : Receipt) (rest : List Receipt)
      → IsSound lib log
      → IsSound lib part
      → part.issuer ≡ log.issuer
      → log.receipts ≡ part.receipts ++ r ∷ rest
      → r.version ≡ receipt_format_version
      → Extends lib part r
  prefix-Extends log part r rest sound part_sound issuer e version =
      let (number, linked, signed) =
        IsChain-middle 0 zero_digest part.receipts r rest (rw e at sound.chain) in
      let here : nth log.receipts (length part.receipts) ≡ some r =
        rw e (nth-middle part.receipts r rest) in
      record {
        known_version = version;
        pinned = sound.pinned (length part.receipts) r here ∙ sym issuer;
        next_number = omega (arith, number);
        chained = linked;
        signed = signed;
        fresh = elim (Option-cases (position (content_id lib r) part.by_id)) [
          | inl free ↦ free
          | inr (j, found) ↦
              let (x, at, same) = part_sound.index.sound (content_id lib r) j found in
              let (below, also) = nth-append part.receipts (r ∷ rest) j x at in
              let first = sound.index.complete j x (rw e also) in
              let second = sound.index.complete (length part.receipts) r here in
              let clash : ◌≡◌ {A = Option ℕ} (some j) (some (length part.receipts)) =
                sym first ∙ ap (λ (d : Digest). position d log.by_id) same ∙ second in
              absurd (ground (arith, clash, below))
        ];
      }

  append-Extends :
      (log : ReceiptLog) (r : Receipt)
      → Extends lib log r
      → append lib log r ≡ (ok tt, push lib log r)
  unfolding append
  append-Extends log r x = rw (Extends-check lib log r x, append)

  module _ (sql : Engine) (sys : System) where
    replay-push :
        (log : ReceiptLog) (r : Receipt) (rs : List Receipt)
        → Extends lib log r
        → replay lib sql sys log (r ∷ rs) ≡ replay lib sql sys (push lib log r) rs
    unfolding replay
    replay-push log r rs x =
        ap
          (λ (p : Result AppendError (Unit {0}) × ReceiptLog).
            replayed lib sql sys p.0 (replay lib sql sys p.1 rs))
          (append-Extends log r x)

    replay_rebuilds :
        (log part : ReceiptLog) (rest : List Receipt)
        → IsSound lib log
        → ((i : ℕ) (r : Receipt) → nth log.receipts i ≡ some r → r.version ≡ receipt_format_version)
        → IsSound lib part
        → part.issuer ≡ log.issuer
        → log.receipts ≡ part.receipts ++ rest
        → (loaded : ReceiptLog) × (replay lib sql sys part rest ≡ ok loaded)
          × IsSound lib loaded
          × (loaded.issuer ≡ log.issuer)
          × (loaded.receipts ≡ log.receipts)
    unfolding replay
    replay_rebuilds log part [] sound current part_sound issuer e =
        (part, refl, part_sound, issuer, sym (e ∙ append-nil part.receipts))
    replay_rebuilds log part (r ∷ rest) sound current part_sound issuer e =
        let version = current (length part.receipts) r (rw e (nth-middle part.receipts r rest)) in
        let x = prefix-Extends log part r rest sound part_sound issuer e version in
        let (loaded, h, s, i, same) =
          replay_rebuilds log (push lib part r) rest sound current
            (push-IsSound lib part r part_sound x) (issuer-push part r ∙ issuer)
            (e
              ∙ sym (
                  ap (λ (l : List Receipt). l ++ rest) (receipts-push lib part r)
                  ∙ append_assoc part.receipts (r ∷ []) rest)) in
        (loaded, replay-push part r rest x ∙ h, s, i, same)

    load_sorted_rebuilds :
        (log : ReceiptLog) (rs : List Receipt)
        → IsSound lib log
        → ((i : ℕ) (r : Receipt) → nth log.receipts i ≡ some r → r.version ≡ receipt_format_version)
        → log.receipts ≡ rs
        → 0 < length rs
        → (loaded : ReceiptLog) × (load_sorted lib sql sys rs ≡ ok loaded)
          × IsSound lib loaded
          × (loaded.issuer ≡ log.issuer)
          × (loaded.receipts ≡ log.receipts)
    unfolding load_sorted
    load_sorted_rebuilds log [] sound current e some_receipt = absurd (omega (arith, some_receipt))
    load_sorted_rebuilds log (r ∷ rs) sound current e some_receipt =
        replay_rebuilds log (new_log r.issuer) (r ∷ rs) sound current (new_log-IsSound lib r.issuer)
          (sound.pinned 0 r (rw e refl)) e

    -- The receipts of a log that is sound, not empty and of the current version, each in one JSON
    -- file of a directory and read back as it was, in whatever order the directory lists them: the
    -- host loads a sound log of the same issuer with the same receipts in the same order.
    pub load_receipts_dir-Shuffled :
        (log : ReceiptLog) (dir : Text) (listing : List (Result Text Entry)) (zs : List Receipt)
        → IsSound lib log
        → ((i : ℕ) (r : Receipt) → nth log.receipts i ≡ some r → r.version ≡ receipt_format_version)
        → 0 < length log.receipts
        → sys.is_dir dir ≡ true
        → sys.read_dir dir ≡ ok listing
        → read_entries lib sql sys listing ≡ ok zs
        → Shuffled log.receipts zs
        → (loaded : ReceiptLog) × (load_receipts_dir lib sql sys dir ≡ ok loaded)
          × IsSound lib loaded
          × (loaded.issuer ≡ log.issuer)
          × (loaded.receipts ≡ log.receipts)
    unfolding load_receipts_dir
    load_receipts_dir-Shuffled log dir listing zs sound current some_receipt is_dir listed entries
          shuffled =
        let sorted : sort_by_sequence zs ≡ log.receipts =
          sort-Shuffled 0 log.receipts zs
            (IsChain-NumberedFrom 0 zero_digest log.receipts sound.chain) shuffled in
        let (loaded, h, s, i, same) =
          load_sorted_rebuilds log log.receipts sound current refl some_receipt in
        (loaded, rw (is_dir, listed, entries, sorted) h, s, i, same)

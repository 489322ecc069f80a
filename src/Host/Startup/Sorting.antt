-- ===== src/Host/Startup/Sorting.antt =====
-- Sorting receipts by their sequence numbers (crates/boardproof-host/src/bin/boardproof-host.rs,
-- `load_receipts_dir`).
use uniclaw.Prelude.{
  ℕ, suc, ◌≤◌, ◌<◌, ◌≡◌, refl, ap, ◌∙◌, arith, List, [], ◌∷◌, ◌++◌, Bool-cases, inl, inr, leb,
}
use uniclaw.Receipt.{Receipt}
use uniclaw.Host.Startup.{insert_by_sequence, sort_by_sequence}

-- The second list holds the receipts of the first in some order.
abbrev pub Shuffled : List Receipt → List Receipt → Type 0
Shuffled [] zs = zs ≡ []
Shuffled (r ∷ rs) zs =
    (pre : List Receipt) × (post : List Receipt) × (zs ≡ pre ++ r ∷ post)
    × Shuffled rs (pre ++ post)

abbrev pub NumberedFrom : ℕ → List Receipt → Type 0
NumberedFrom n [] = Unit
NumberedFrom n (r ∷ rs) = (r.body.merkle_leaf.sequence ≡ n) × NumberedFrom (suc n) rs

abbrev AllFrom : ℕ → List Receipt → Type 0
AllFrom n [] = Unit
AllFrom n (r ∷ rs) = (n ≤ r.body.merkle_leaf.sequence) × AllFrom n rs

NumberedFrom-AllFrom : (m n : ℕ) (rs : List Receipt) → m ≤ n → NumberedFrom n rs → AllFrom m rs
NumberedFrom-AllFrom m n [] le h = tt
NumberedFrom-AllFrom m n (r ∷ rs) le h =
    (omega (arith, h.0), NumberedFrom-AllFrom m (suc n) rs (omega arith) h.1)

AllFrom-append : (n : ℕ) (xs ys : List Receipt) → AllFrom n xs → AllFrom n ys → AllFrom n (xs ++ ys)
AllFrom-append n [] ys a b = b
AllFrom-append n (x ∷ xs) ys a b = (a.0, AllFrom-append n xs ys a.1 b)

AllFrom-split : (n : ℕ) (xs ys : List Receipt) → AllFrom n (xs ++ ys) → AllFrom n xs × AllFrom n ys
AllFrom-split n [] ys a = (tt, a)
AllFrom-split n (x ∷ xs) ys a = let (b, c) = AllFrom-split n xs ys a.1 in ((a.0, b), c)

Shuffled-AllFrom : (n : ℕ) (rs zs : List Receipt) → Shuffled rs zs → AllFrom n rs → AllFrom n zs
Shuffled-AllFrom n [] zs s a = rw s tt
Shuffled-AllFrom n (r ∷ rs) zs (pre, post, e, s) a =
    let (before, after) = AllFrom-split n pre post (Shuffled-AllFrom n rs (pre ++ post) s a.1) in
    rw e (AllFrom-append n pre (r ∷ post) before (a.0, after))

AllFrom-insert :
    (n : ℕ) (r : Receipt) (rs : List Receipt)
    → n ≤ r.body.merkle_leaf.sequence
    → AllFrom n rs
    → AllFrom n (insert_by_sequence r rs)
unfolding insert_by_sequence
AllFrom-insert n r [] le a = (le, tt)
AllFrom-insert n r (s ∷ rs) le a =
    elim (Bool-cases (leb r.body.merkle_leaf.sequence s.body.merkle_leaf.sequence)) [
      | inl h ↦ rw h (le, a)
      | inr h ↦ rw h (a.0, AllFrom-insert n r rs le a.1)
    ]

AllFrom-sort : (n : ℕ) (rs : List Receipt) → AllFrom n rs → AllFrom n (sort_by_sequence rs)
unfolding sort_by_sequence
AllFrom-sort n [] a = tt
AllFrom-sort n (r ∷ rs) a = AllFrom-insert n r (sort_by_sequence rs) a.0 (AllFrom-sort n rs a.1)

insert_least :
    (r : Receipt) (rs : List Receipt)
    → AllFrom r.body.merkle_leaf.sequence rs
    → insert_by_sequence r rs ≡ r ∷ rs
unfolding insert_by_sequence
insert_least r [] a = refl
insert_least r (s ∷ rs) a = ground (arith, a.0)

insert_past :
    (p r : Receipt) (rs : List Receipt)
    → r.body.merkle_leaf.sequence < p.body.merkle_leaf.sequence
    → insert_by_sequence p (r ∷ rs) ≡ r ∷ insert_by_sequence p rs
unfolding insert_by_sequence
insert_past p r rs h = ground (arith, h)

AllFrom-down : (n : ℕ) (rs : List Receipt) → AllFrom (suc n) rs → AllFrom n rs
AllFrom-down n [] a = tt
AllFrom-down n (r ∷ rs) a = (omega (arith, a.0), AllFrom-down n rs a.1)

-- The least receipt comes to the front.
sort_least :
    (pre : List Receipt) (r : Receipt) (post : List Receipt)
    → AllFrom (suc r.body.merkle_leaf.sequence) pre
    → AllFrom (suc r.body.merkle_leaf.sequence) post
    → sort_by_sequence (pre ++ r ∷ post) ≡ r ∷ sort_by_sequence (pre ++ post)
unfolding sort_by_sequence
sort_least [] r post a b =
    insert_least r (sort_by_sequence post) (AllFrom-sort _ post (AllFrom-down _ post b))
sort_least (p ∷ pre) r post a b =
    ap (λ (l : List Receipt). insert_by_sequence p l) (sort_least pre r post a.1 b)
    ∙ insert_past p r (sort_by_sequence (pre ++ post)) (omega (arith, a.0))

-- However numbered receipts are shuffled, sorting puts them back.
pub sort-Shuffled :
    (n : ℕ) (rs zs : List Receipt) → NumberedFrom n rs → Shuffled rs zs → sort_by_sequence zs ≡ rs
sort-Shuffled n [] zs h s = rw s (unfold sort_by_sequence in refl)
sort-Shuffled n (r ∷ rs) zs h (pre, post, e, s) =
    let above =
      Shuffled-AllFrom (suc n) rs (pre ++ post) s
        (NumberedFrom-AllFrom (suc n) (suc n) rs (omega arith) h.1) in
    let (before, after) = AllFrom-split (suc n) pre post above in
    rw e (
      sort_least pre r post (rw h.0 before) (rw h.0 after)
      ∙ ap (λ (l : List Receipt). r ∷ l) (sort-Shuffled (suc n) rs (pre ++ post) h.1 s))

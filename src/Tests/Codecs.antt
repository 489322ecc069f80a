-- ===== src/Tests/Codecs.antt =====
-- A receipt as a list of numbers that reads back: the instance that stands for its JSON form.
use uniclaw.Prelude.{
  ℕ, zero, suc, ◌≡◌, refl, Bool, true, false, List, [], ◌∷◌, Option, none, some, length,
}
use uniclaw.Receipt.{
  Digest, Action, Decision, RuleRef, ProvenanceEdge, MerkleLeaf, ReceiptBody, Receipt, allowed,
  denied, approved, pending,
}

-- What is written in front of a rest is read back, and the rest is left.
pub record Codec (A : Type 0) : Type 0 where
  pub write : A → List ℕ → List ℕ
  pub read : List ℕ → Option (A × List ℕ)
  pub read-write : (a : A) (rest : List ℕ) → read (write a rest) ≡ some (a, rest)

abbrev bind : {A B : Type 0} → Option A → (A → Option B) → Option B
bind none f = none
bind (some a) f = f a

abbrev head : List ℕ → Option (ℕ × List ℕ)
head [] = none
head (n ∷ rest) = some (n, rest)

abbrev number : Codec ℕ
number = record { write = λ n rest. n ∷ rest; read = head; read-write = λ n rest. refl }

module _ {A B : Type 0} where
  abbrev pair : Codec A → Codec B → Codec (A × B)
  pair a b = record {
    write = λ p rest. a.write p.0 (b.write p.1 rest);
    read = λ s. bind (a.read s) (λ x. bind (b.read x.1) (λ y. some ((x.0, y.0), y.1)));
    read-write = λ p rest. rw (a.read-write, b.read-write) refl;
  }

  -- The form of a value under another name.
  abbrev through : Codec A → (to : B → A) (from : A → B) → ((b : B) → from (to b) ≡ b) → Codec B
  through a to from back = record {
    write = λ b rest. a.write (to b) rest;
    read = λ s. bind (a.read s) (λ x. some (from x.0, x.1));
    read-write = λ b rest. rw (a.read-write, back) refl;
  }

module _ {A : Type 0} (c : Codec A) where
  write_all : List A → List ℕ → List ℕ
  write_all [] rest = rest
  write_all (x ∷ xs) rest = c.write x (write_all xs rest)

  read_some : ℕ → List ℕ → Option (List A × List ℕ)
  read_some zero s = some ([], s)
  read_some (suc n) s = bind (c.read s) (λ x. bind (read_some n x.1) (λ y. some (x.0 ∷ y.0, y.1)))

  read_some-write_all :
      (xs : List A) (rest : List ℕ) → read_some (length xs) (write_all xs rest) ≡ some (xs, rest)
  unfolding write_all read_some
  read_some-write_all [] rest = refl
  read_some-write_all (x ∷ xs) rest =
      let ih = read_some-write_all xs rest in rw (c.read-write, ih) refl

  abbrev listed : Codec (List A)
  listed = record {
    write = λ xs rest. length xs ∷ write_all xs rest;
    read = λ s. bind (head s) (λ x. read_some x.0 x.1);
    read-write = read_some-write_all;
  }

abbrev bytes : Codec (List ℕ)
bytes = listed number

abbrev flag : Codec Bool
flag = through number to from back
  where
    to : Bool → ℕ
    to true = 1
    to false = 0

    from : ℕ → Bool
    from zero = false
    from (suc n) = true

    back : (b : Bool) → from (to b) ≡ b
    back true = refl
    back false = refl

abbrev decision : Codec Decision
decision = through number to from back
  where
    to : Decision → ℕ
    to allowed = 0
    to denied = 1
    to approved = 2
    to pending = 3

    from : ℕ → Decision
    from zero = allowed
    from (suc zero) = denied
    from (suc (suc zero)) = approved
    from (suc (suc (suc n))) = pending

    back : (d : Decision) → from (to d) ≡ d
    back allowed = refl
    back denied = refl
    back approved = refl
    back pending = refl

-- An option as a list of at most one value.
abbrev optional : {A : Type 0} → Codec A → Codec (Option A)
optional {A} c = through (listed c) to from back
  where
    to : Option A → List A
    to none = []
    to (some a) = a ∷ []

    from : List A → Option A
    from [] = none
    from (a ∷ as') = some a

    back : (o : Option A) → from (to o) ≡ o
    back none = refl
    back (some a) = refl

abbrev digest : Codec Digest
digest = through bytes (λ d. d.bytes) (λ b. record { bytes = b }) (λ d. refl)

abbrev action : Codec Action
action =
    through (pair bytes (pair bytes digest)) (λ a. (a.kind, (a.target, a.input_hash)))
      (λ p. record { kind = p.0; target = p.1.0; input_hash = p.1.1 }) (λ a. refl)

abbrev rule : Codec RuleRef
rule =
    through (pair bytes flag) (λ r. (r.id, r.matched)) (λ p. record { id = p.0; matched = p.1 })
      (λ r. refl)

abbrev edge : Codec ProvenanceEdge
edge =
    through (pair bytes (pair bytes bytes)) (λ e. (e.from, (e.to, e.kind)))
      (λ p. record { from = p.0; to = p.1.0; kind = p.1.1 }) (λ e. refl)

abbrev leaf : Codec MerkleLeaf
leaf =
    through (pair number (pair digest digest)) (λ l. (l.sequence, (l.leaf_hash, l.prev_hash)))
      (λ p. record { sequence = p.0; leaf_hash = p.1.0; prev_hash = p.1.1 }) (λ l. refl)

abbrev first_half : Codec (ℕ × (List ℕ × (Action × (Decision × List RuleRef))))
first_half = pair number (pair bytes (pair action (pair decision (listed rule))))

abbrev second_half : Codec (List ProvenanceEdge × (Option Digest × (Option (List ℕ) × MerkleLeaf)))
second_half = pair (listed edge) (pair (optional digest) (pair (optional bytes) leaf))

abbrev body : Codec ReceiptBody
body =
    through (pair first_half second_half)
      (λ b. (
        (b.schema_version, (b.issued_at, (b.action, (b.decision, b.constitution_rules)))),
        (b.provenance, (b.redactor_stack_hash, (b.key_id, b.merkle_leaf))),
      ))
      (λ p. record {
        schema_version = p.0.0;
        issued_at = p.0.1.0;
        action = p.0.1.1.0;
        decision = p.0.1.1.1.0;
        constitution_rules = p.0.1.1.1.1;
        provenance = p.1.0;
        redactor_stack_hash = p.1.1.0;
        key_id = p.1.1.1.0;
        merkle_leaf = p.1.1.1.1;
      })
      (λ b. refl)

unfoldable pub receipt : Codec Receipt
unfolding write_all read_some read_some-write_all
receipt =
    through (pair number (pair body (pair bytes bytes)))
      (λ r. (r.version, (r.body, (r.issuer.bytes, r.signature.bytes))))
      (λ p. record {
        version = p.0;
        body = p.1.0;
        issuer = record { bytes = p.1.1.0 };
        signature = record { bytes = p.1.1.1 };
      })
      (λ r. refl)

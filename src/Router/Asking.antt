-- ===== src/Router/Asking.antt =====
-- The dialogue at the terminal ends (crates/boardproof-router/src/cli.rs).
use uniclaw.Prelude.{
  ℕ, zero, suc, ◌+◌, ◌≤◌, ◌<◌, ◌≡◌, ◌≢◌, refl, sym, ap, ◌∙◌, inl, inr, [], ◌∷◌, none, some, Result,
  ok, err, Result-cases, Option-cases, arith, dec_lt, Text,
}
use uniclaw.Receipt.{Receipt}
use uniclaw.Receipt.Crypto.{Foreign}
use uniclaw.Kernel.{ApprovalDecision, Proposal}
use uniclaw.Router.{RouterError, io, invalid_input, cancelled}
use uniclaw.Router.Cli.{
  CliApprovalRouter, max_prompt_retries, Run, parse_response, unparsed, parsed, answered, ask,
  route,
}

-- What a dialogue of at most `n` questions leaves. A line that decides is the last one read, those
-- before it do not parse, and only after `n` lines is the input given up as invalid.
pub record Asked (n : ℕ) (c : CliApprovalRouter)
    (a : Result RouterError ApprovalDecision × CliApprovalRouter) : Type 0 where
  pub same_input : a.1.line ≡ c.line
  pub some_read : c.lines_read ≤ a.1.lines_read
  pub few_read : a.1.lines_read ≤ c.lines_read + n
  pub decides :
      (d : ApprovalDecision)
      → a.0 ≡ ok d
      → (i : ℕ) × (s : Text) × (c.lines_read ≤ i)
        × (a.1.lines_read ≡ suc i)
        × (c.line i ≡ ok s)
        × (parse_response s ≡ some d)
  pub unclear :
      (i : ℕ) (s : Text)
      → c.lines_read ≤ i
      → suc i < a.1.lines_read
      → c.line i ≡ ok s
      → parse_response s ≡ none
  pub insists : (m : Text) → a.0 ≡ err (invalid_input m) → a.1.lines_read ≡ c.lines_read + n

-- An end by an error that is not about the input's form, after at most one line.
stopped-Asked :
    (n : ℕ) (c c' : CliApprovalRouter) (e : RouterError)
    → ((m : Text) → e ≢ invalid_input m)
    → c'.line ≡ c.line
    → c.lines_read ≤ c'.lines_read
    → c'.lines_read ≤ c.lines_read + 1
    → Asked (suc n) c (err e, c')
stopped-Asked n c c' e other same lo hi = record {
  same_input = same;
  some_read = lo;
  few_read = omega arith;
  decides = λ d h. absurd (ground (arith, h));
  unclear = λ i s h k l. absurd (omega arith);
  insists = λ m h. absurd (other m (ground (arith, h)));
}

-- A dialogue goes on after a line that does not parse.
again-Asked :
    (n : ℕ) (c c' : CliApprovalRouter) (s : Text)
    (a : Result RouterError ApprovalDecision × CliApprovalRouter)
    → c.line c.lines_read ≡ ok s
    → parse_response s ≡ none
    → c'.line ≡ c.line
    → c'.lines_read ≡ c.lines_read + 1
    → Asked n c' a
    → Asked (suc n) c a
again-Asked n c c' s a at parse same next h = record {
  same_input = h.same_input ∙ same;
  some_read = omega (arith, h.some_read);
  few_read = omega (arith, h.few_read);
  decides = λ d e.
      let (i, t, le, last, line, found) = h.decides d e in
      (i, t, omega arith, last, ap (λ (f : ℕ → Result Text Text). f i) (sym same) ∙ line, found);
  unclear = unclear;
  insists = λ m e. omega (arith, h.insists m e);
}
  where
    unclear :
        (i : ℕ) (t : Text)
        → c.lines_read ≤ i
        → suc i < a.1.lines_read
        → c.line i ≡ ok t
        → parse_response t ≡ none
    unclear i t lo hi line = elim (dec_lt c.lines_read i) [
      | yes later ↦
          h.unclear i t (omega arith) hi (ap (λ (f : ℕ → Result Text Text). f i) same ∙ line)
      | no first ↦
          let here : i ≡ c.lines_read = omega arith in
          let one : ok s ≡ ok t = sym at ∙ (ap c.line (sym here) ∙ line) in
          let same_text : s ≡ t = ground (arith, one) in ap parse_response (sym same_text) ∙ parse
    ]

module _ (lib : Foreign) (debug : Text → Text) where
  parsed-Asked :
      (left : ℕ) (c c' : CliApprovalRouter) (s : Text) (again : Run ApprovalDecision)
      → c.line c.lines_read ≡ ok s
      → c'.line ≡ c.line
      → c'.lines_read ≡ c.lines_read + 1
      → ((k : CliApprovalRouter) → Asked left k (again k))
      → Asked (suc left) c (parsed lib debug left s (parse_response s) again c')
  parsed-Asked left c c' s again at same next ih = elim (Option-cases (parse_response s)) [
    | inr (d, e) ↦ rw e (elim (Result-cases (c'.accepts c'.writes)) [
      | inr (m, w) ↦ rw w (
          stopped-Asked left c _ (io m) (λ t h. absurd (ground (arith, h))) same (omega arith)
            (omega arith))
      | inl (_, w) ↦ rw w (record {
        same_input = same;
        some_read = omega arith;
        few_read = omega arith;
        decides = λ x h. (c.lines_read, s, omega arith, omega arith, at, ground (arith, e, h));
        unclear = λ i t lo hi line. absurd (omega arith);
        insists = λ m h. absurd (ground (arith, h));
      })
    ])
    | inl e ↦ rw e (given_up left ih e)
  ]
    where
      given_up :
          (left : ℕ)
          → ((k : CliApprovalRouter) → Asked left k (again k))
          → parse_response s ≡ none
          → Asked (suc left) c (unparsed lib debug left s again c')
      given_up zero ih e = record {
        same_input = same;
        some_read = omega arith;
        few_read = omega arith;
        decides = λ x h. absurd (ground (arith, h));
        unclear = λ i t lo hi line. absurd (omega arith);
        insists = λ m h. omega arith;
      }
      given_up (suc left) ih e = elim (Result-cases (c'.accepts c'.writes)) [
        | inr (m, w) ↦ rw w (
            stopped-Asked (suc left) c _ (io m) (λ t h. absurd (ground (arith, h))) same
              (omega arith) (omega arith))
        | inl (_, w) ↦ rw w (again-Asked (suc left) c _ s _ at e same next (ih _))
      ]

  -- After the question has been put.
  answered-Asked :
      (left : ℕ) (c c' : CliApprovalRouter) (s : Text) (again : Run ApprovalDecision)
      → c.line c.lines_read ≡ ok s
      → c'.line ≡ c.line
      → c'.lines_read ≡ c.lines_read + 1
      → ((k : CliApprovalRouter) → Asked left k (again k))
      → Asked (suc left) c (answered lib debug left s again c')
  answered-Asked left c c' [] again at same next ih =
      stopped-Asked left c c' cancelled (λ t h. absurd (ground (arith, h))) same (omega arith)
        (omega arith)
  answered-Asked left c c' (x ∷ s) again at same next ih =
      parsed-Asked left c c' (x ∷ s) again at same next ih

  ask-Asked : (left : ℕ) (c : CliApprovalRouter) → Asked left c (ask lib debug left c)
  unfolding ask
  ask-Asked zero c = record {
    same_input = refl;
    some_read = omega arith;
    few_read = omega arith;
    decides = λ d h. absurd (ground (arith, h));
    unclear = λ i s lo hi line. absurd (omega arith);
    insists = λ m h. omega arith;
  }
  ask-Asked (suc left) c = put (ask-Asked left)
    where
      stopped :
          (m : Text) (c' : CliApprovalRouter)
          → c'.line ≡ c.line
          → c.lines_read ≤ c'.lines_read
          → c'.lines_read ≤ c.lines_read + 1
          → Asked (suc left) c (err (io m), c')
      stopped m c' = stopped-Asked left c c' (io m) (λ t h. absurd (ground (arith, h)))

      put :
          ((k : CliApprovalRouter) → Asked left k (ask lib debug left k))
          → Asked (suc left) c (ask lib debug (suc left) c)
      put ih = elim (Result-cases (c.accepts c.writes)) [
        | inr (m, w) ↦ rw w (stopped m _ refl (omega arith) (omega arith))
        | inl (_, w) ↦ elim (Result-cases (c.accepts (c.writes + 1))) [
          | inr (m, f) ↦ rw (w, f) (stopped m _ refl (omega arith) (omega arith))
          | inl (_, f) ↦ elim (Result-cases (c.line c.lines_read)) [
            | inr (m, l) ↦ rw (w, f, l) (stopped m _ refl (omega arith) (omega arith))
            | inl (s, l) ↦ rw (w, f, l) (answered-Asked left c _ s _ l refl refl ih)
          ]
        ]
      ]

  -- The dialogue at the terminal ends after three lines at most, whatever the input and the output
  -- do. If it ends in a decision, the last line that was read is the operator's word for it, and no
  -- line read before it was a word for any. The input is given up as invalid only after three lines.
  pub route-Asked :
      (c : CliApprovalRouter) (pending : Receipt) (p : Proposal)
      → Asked max_prompt_retries c (route lib debug c pending p)
  unfolding route
  route-Asked c pending p = elim (Result-cases (c.accepts c.writes)) [
    | inr (m, a) ↦ rw a (stopped m _ refl refl)
    | inl (_, a) ↦ elim (Result-cases (c.accepts (c.writes + 1))) [
      | inr (m, b) ↦ rw (a, b) (stopped m _ refl refl)
      | inl (_, b) ↦ elim (Result-cases (c.accepts (c.writes + 1 + 1))) [
        | inr (m, d) ↦ rw (a, b, d) (stopped m _ refl refl)
        | inl (_, d) ↦ rw (a, b, d) (moved _ refl refl _ (ask-Asked max_prompt_retries _))
      ]
    ]
  ]
    where
      stopped :
          (m : Text) (c' : CliApprovalRouter)
          → c'.line ≡ c.line
          → c'.lines_read ≡ c.lines_read
          → Asked max_prompt_retries c (err (io m), c')
      stopped m c' same n =
          stopped-Asked 2 c c' (io m) (λ t h. absurd (ground (arith, h))) same (omega arith)
            (omega arith)

      moved :
          (c' : CliApprovalRouter)
          → c'.line ≡ c.line
          → c'.lines_read ≡ c.lines_read
          → (a : Result RouterError ApprovalDecision × CliApprovalRouter)
          → Asked max_prompt_retries c' a
          → Asked max_prompt_retries c a
      moved c' same n a h = record {
        same_input = h.same_input ∙ same;
        some_read = omega (arith, h.some_read);
        few_read = omega (arith, h.few_read);
        decides = λ d e.
            let (i, t, le, last, line, found) = h.decides d e in
            (
              i,
              t,
              omega arith,
              last,
              ap (λ (f : ℕ → Result Text Text). f i) (sym same) ∙ line,
              found,
            );
        unclear = λ i t lo hi line.
            h.unclear i t (omega arith) hi (ap (λ (f : ℕ → Result Text Text). f i) same ∙ line);
        insists = λ m e. omega (arith, h.insists m e);
      }

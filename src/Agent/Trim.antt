-- ===== src/Agent/Trim.antt =====
-- `trim_to_budget` of backend/analyst/agent.py. What a turn costs (`serialise_for_budget`, over a JSON
-- dump) is a parameter.
use mathlib.Core.List.{append-nil, reverse, reverse-cons, reverse-append, reverse-reverse}
use autonomous_ai_analyst.Base.{
  ℕ, ◌+◌, ◌≤◌, ◌<◌, List, [], ◌∷◌, ◌++◌, Bool, true, false, ◌≡◌, ◌⊎◌, refl, sym, subst, ap, ◌∙◌,
  arith, Bool-cases, inl, inr, length, length-append, All, leb, leb→le, ltb, ltb→lt, eqb,
  if◌then◌else◌,
}
use autonomous_ai_analyst.Agent.Loop.{Turn}
use autonomous_ai_analyst.Agent.Bounds.{is_tool}

-- Leading tool turns are dropped.
unfoldable pub without_orphans : List Turn → List Turn
without_orphans [] = []
without_orphans (t ∷ turns) =
    let rest = without_orphans turns in if is_tool t then rest else t ∷ turns

List-cases : {A : Type 0} (xs : List A) → (xs ≡ []) ⊎ ((x : A) × (ys : List A) × (xs ≡ x ∷ ys))
List-cases [] = inl refl
List-cases (x ∷ ys) = inr (x, ys, refl)

module _ (cost : Turn → ℕ) where
  unfoldable pub total_of : List Turn → ℕ
  total_of [] = 0
  total_of (t ∷ turns) = cost t + total_of turns

  -- The loop over the turns, newest first: `begun` when something is kept.
  unfoldable pub newest : ℕ → ℕ → Bool → List Turn → List Turn
  newest budget running begun [] = []
  newest budget running false (t ∷ turns) = t ∷ newest budget (running + cost t) true turns
  newest budget running true (t ∷ turns) =
      let rest = newest budget (running + cost t) true turns in
      if ltb budget (running + cost t) then [] else t ∷ rest

  unfoldable pub trim_to_budget : List Turn → ℕ → List Turn × Bool
  unfolding total_of newest without_orphans
  trim_to_budget turns budget_tokens =
      if eqb budget_tokens 0
      then (turns, false)
      else if leb (total_of turns) budget_tokens
      then (turns, false)
      else (without_orphans (reverse (newest budget_tokens 0 false (reverse turns))), true)

  total-append : (xs ys : List Turn) → total_of (xs ++ ys) ≡ total_of xs + total_of ys
  unfolding total_of
  total-append [] ys = omega arith
  total-append (x ∷ xs) ys = omega (arith, total-append xs ys)

  total-reverse : (xs : List Turn) → total_of (reverse xs) ≡ total_of xs
  unfolding total_of
  total-reverse [] = refl
  total-reverse (x ∷ xs) =
      rw (reverse-cons x xs) (omega (arith, total-append (reverse xs) (x ∷ []), total-reverse xs))

  newest-prefix :
      (b r : ℕ) (begun : Bool) (xs : List Turn)
      → (rest : List Turn) × (xs ≡ newest b r begun xs ++ rest)
  unfolding newest
  newest-prefix b r begun [] = ([], refl)
  newest-prefix b r false (x ∷ xs) =
      let (rest, e) = newest-prefix b (r + cost x) true xs in (rest, ap (◌∷◌ x) e)
  newest-prefix b r true (x ∷ xs) = elim (Bool-cases (ltb b (r + cost x))) [
    | inl over ↦ rw over (x ∷ xs, refl)
    | inr room ↦
        let (rest, e) = newest-prefix b (r + cost x) true xs in rw room (rest, ap (◌∷◌ x) e)
  ]

  -- Once something is kept, what is kept fits into what is left, or nothing more is kept.
  newest-fits :
      (b r : ℕ) (xs : List Turn)
      → (r + total_of (newest b r true xs) ≤ b) ⊎ (newest b r true xs ≡ [])
  unfolding newest total_of
  newest-fits b r [] = inr refl
  newest-fits b r (x ∷ xs) = elim (Bool-cases (ltb b (r + cost x))) [
    | inl over ↦ inr (rw over refl)
    | inr room ↦ elim (newest-fits b (r + cost x) xs) [
      | inl fits ↦ inl (rw room (omega (arith, fits)))
      | inr nothing ↦ inl (rw (room, nothing) (ground (arith)))
    ]
  ]

  -- All that is kept fits into the budget, or it is the newest turn alone.
  kept-fits :
      (b : ℕ) (xs : List Turn)
      → (total_of (newest b 0 false xs) ≤ b) ⊎ (length (newest b 0 false xs) ≤ 1)
  unfolding newest total_of
  kept-fits b [] = inr (omega arith)
  kept-fits b (x ∷ xs) = elim (newest-fits b (0 + cost x) xs) [
    | inl fits ↦ inl (omega (arith, fits))
    | inr nothing ↦ inr (rw nothing (omega arith))
  ]

  -- Where the loop stops, one turn more would not have fitted, or there is none.
  newest-maximal :
      (b r : ℕ) (xs : List Turn)
      → (xs ≡ newest b r true xs)
        ⊎ ((x : Turn) × (rest : List Turn) × (xs ≡ newest b r true xs ++ x ∷ rest)
            × (b < r + total_of (newest b r true xs) + cost x))
  unfolding newest total_of
  newest-maximal b r [] = inl refl
  newest-maximal b r (x ∷ xs) = elim (Bool-cases (ltb b (r + cost x))) [
    | inl over ↦ inr (x, xs, rw over refl, rw over (ground (arith, ltb→lt b (r + cost x) over)))
    | inr room ↦ elim (newest-maximal b (r + cost x) xs) [
      | inl all ↦ inl (rw room (ap (◌∷◌ x) all))
      | inr (y, rest, e, more) ↦
          inr (y, rest, rw room (ap (◌∷◌ x) e), rw room (omega (arith, more)))
    ]
  ]

  length-reverse : {A : Type 0} (xs : List A) → length (reverse xs) ≡ length xs
  length-reverse [] = refl
  length-reverse (x ∷ xs) =
      rw (reverse-cons x xs) (omega (arith, length-append (reverse xs) (x ∷ []), length-reverse xs))

  -- The turns that are dropped from the beginning are a tool's, all of them.
  orphans-suffix :
      (xs : List Turn)
      → (dropped : List Turn) × (xs ≡ dropped ++ without_orphans xs)
        × All (λ t. is_tool t ≡ true) dropped
  unfolding without_orphans
  orphans-suffix [] = ([], refl, tt)
  orphans-suffix (x ∷ xs) = elim (Bool-cases (is_tool x)) [
    | inl orphan ↦
        let (dropped, e, tools) = orphans-suffix xs in
        rw orphan (x ∷ dropped, ap (◌∷◌ x) e, (orphan, tools))
    | inr first ↦ rw first ([], refl, tt)
  ]

  orphans-last :
      (xs : List Turn) (t : Turn)
      → is_tool t ≡ false
      → without_orphans (xs ++ t ∷ []) ≡ without_orphans xs ++ t ∷ []
  unfolding without_orphans
  orphans-last [] t own = rw own refl
  orphans-last (x ∷ xs) t own = elim (Bool-cases (is_tool x)) [
    | inl orphan ↦ rw orphan (orphans-last xs t own)
    | inr first ↦ rw first refl
  ]

  -- The list is empty, or begins with a turn that is not a tool's.
  abbrev pub BeginsWell : List Turn → Type 0
  BeginsWell [] = Unit
  BeginsWell (t ∷ turns) = is_tool t ≡ false

  orphans-BeginsWell : (xs : List Turn) → BeginsWell (without_orphans xs)
  unfolding without_orphans
  orphans-BeginsWell [] = tt
  orphans-BeginsWell (x ∷ xs) = elim (Bool-cases (is_tool x)) [
    | inl orphan ↦ rw orphan (orphans-BeginsWell xs)
    | inr first ↦ rw first first
  ]

  -- The newest turn is among those that are picked, and stays unless it is a tool's.
  newest-stays :
      (b : ℕ) (xs : List Turn) (t : Turn)
      → is_tool t ≡ false
      → (middle : List Turn) × (without_orphans
            (reverse (newest b 0 false (reverse (xs ++ t ∷ []))))
          ≡ middle ++ t ∷ [])
  unfolding newest
  newest-stays b xs t own =
      let more = newest b (0 + cost t) true (reverse xs) in
      (
        without_orphans (reverse more),
        ap (λ ts. without_orphans (reverse (newest b 0 false ts))) (reverse-append xs (t ∷ []))
            ∙ ap without_orphans (reverse-cons t more)
            ∙ orphans-last (reverse more) t own,
      )

  -- What a trim keeps of a conversation: an end of it is picked, which holds the newest turn, fits
  -- into the budget or is that turn alone, and could not be longer by a turn; of this end, the results
  -- at its beginning whose calls were dropped are left out.
  pub record IsTrimmed (turns : List Turn) (budget_tokens : ℕ) (kept : List Turn) : Type 0 where
    pub older : List Turn
    pub picked : List Turn
    pub orphans : List Turn
    pub whole : turns ≡ older ++ picked
    pub some_turn : 1 ≤ length picked
    pub fits : (total_of picked ≤ budget_tokens) ⊎ (length picked ≤ 1)
    pub maximal :
        (older ≡ [])
        ⊎ ((before : List Turn) × (x : Turn) × (older ≡ before ++ x ∷ [])
            × (budget_tokens < total_of picked + cost x))
    pub parted : picked ≡ orphans ++ kept
    pub only_tools : All (λ t. is_tool t ≡ true) orphans
    pub begins : BeginsWell kept
    pub newest_turn :
        (earlier : List Turn) × (t : Turn) × (turns ≡ earlier ++ t ∷ [])
        × ((is_tool t ≡ true) ⊎ ((middle : List Turn) × (kept ≡ middle ++ t ∷ [])))

  -- `newest` stopped before `rest`.
  older-maximal :
      (b : ℕ) (t : Turn) (ys : List Turn)
      → (rest : List Turn) × (t ∷ ys ≡ newest b 0 false (t ∷ ys) ++ rest)
        × ((reverse rest ≡ [])
            ⊎ ((before : List Turn) × (x : Turn) × (reverse rest ≡ before ++ x ∷ [])
                × (b < total_of (reverse (newest b 0 false (t ∷ ys))) + cost x)))
  unfolding newest total_of
  older-maximal b t ys =
      let more = newest b (0 + cost t) true ys in
      let sum : total_of (reverse (t ∷ more)) ≡ cost t + total_of more = total-reverse (t ∷ more) in
      elim (newest-maximal b (0 + cost t) ys) [
        | inl all ↦ ([], ap (◌∷◌ t) (all ∙ sym (append-nil more)), inl refl)
        | inr (x, rest, e, over) ↦ (
          x ∷ rest,
          ap (◌∷◌ t) e,
          inr (reverse rest, x, reverse-cons x rest, omega (arith, over, sum)),
        )
      ]

  IsTrimmed-kept :
      (xs : List Turn) (t : Turn) (b : ℕ)
      → IsTrimmed
          (xs ++ t ∷ [])
          b
          (without_orphans (reverse (newest b 0 false (reverse (xs ++ t ∷ [])))))
  unfolding newest
  IsTrimmed-kept xs t b =
      let turned : reverse (xs ++ t ∷ []) ≡ t ∷ reverse xs = reverse-append xs (t ∷ []) in
      let (rest, e, most) = older-maximal b t (reverse xs) in
      let picks = newest b 0 false (t ∷ reverse xs) in
      let (dropped, parted, tools) = orphans-suffix (reverse picks) in
      subst (λ ts. IsTrimmed (xs ++ t ∷ []) b (without_orphans (reverse (newest b 0 false ts))))
        (sym turned)
        (record {
          older = reverse rest;
          picked = reverse picks;
          orphans = dropped;
          whole =
              sym (reverse-reverse (xs ++ t ∷ []))
              ∙ ap reverse (turned ∙ e)
              ∙ reverse-append picks rest;
          some_turn = omega (arith, length-reverse picks);
          fits = elim (kept-fits b (t ∷ reverse xs)) [
            | inl fits ↦ inl (omega (arith, fits, total-reverse picks))
            | inr one ↦ inr (omega (arith, one, length-reverse picks))
          ];
          maximal = most;
          parted = parted;
          only_tools = tools;
          begins = orphans-BeginsWell (reverse picks);
          newest_turn = (
            xs,
            t,
            refl,
            elim (Bool-cases (is_tool t)) [
              | inl result ↦ inl result
              | inr own ↦
                  let (middle, ends) = newest-stays b xs t own in
                  inr (
                    middle,
                    ap (λ ts. without_orphans (reverse (newest b 0 false ts))) (sym turned) ∙ ends,
                  )
            ],
          );
        })

over_budget :
    (cost : Turn → ℕ) (turns : List Turn) (b : ℕ)
    → leb (total_of cost turns) b ≡ false
    → IsTrimmed cost turns b (without_orphans (reverse (newest cost b 0 false (reverse turns))))
unfolding total_of
over_budget cost turns b over = elim (List-cases (reverse turns)) [
  | inl none_left ↦ absurd (ground (arith, sym (reverse-reverse turns) ∙ ap reverse none_left))
  | inr (t, ys, e) ↦
      let shape : reverse ys ++ t ∷ [] ≡ turns =
        sym (reverse-cons t ys) ∙ ap reverse (sym e) ∙ reverse-reverse turns in
      subst
        (λ ts. IsTrimmed cost ts b (without_orphans (reverse (newest cost b 0 false (reverse ts)))))
        shape (IsTrimmed-kept cost (reverse ys) t b)
]

-- A conversation that ends with a turn which is not a tool's still ends with it after a trim.
pub trim_to_budget-keeps :
    (cost : Turn → ℕ) (xs : List Turn) (t : Turn) (budget_tokens : ℕ)
    → is_tool t ≡ false
    → (earlier : List Turn) × ((trim_to_budget cost (xs ++ t ∷ []) budget_tokens).0
        ≡ earlier ++ t ∷ [])
unfolding trim_to_budget
trim_to_budget-keeps cost xs t b own = elim (Bool-cases (eqb b 0)) [
  | inl off ↦ rw off (xs, refl)
  | inr on ↦ elim (Bool-cases (leb (total_of cost (xs ++ t ∷ [])) b)) [
    | inl fits ↦ rw (on, fits) (xs, refl)
    | inr over ↦ rw (on, over) (newest-stays cost b xs t own)
  ]
]

-- A conversation is handed on whole when there is no budget or it fits. Otherwise an end of it is
-- picked that holds the newest turn, fits into the budget or is that turn alone, and could not be
-- longer by a turn; what is kept is this end without the tools' turns at its beginning, so the newest
-- turn is kept unless it is a tool's.
pub trim_to_budget-IsTrimmed :
    (cost : Turn → ℕ) (turns : List Turn) (budget_tokens : ℕ)
    → ((trim_to_budget cost turns budget_tokens ≡ (turns, false))
        × ((budget_tokens ≡ 0) ⊎ (total_of cost turns ≤ budget_tokens)))
      ⊎ (((trim_to_budget cost turns budget_tokens).1 ≡ true)
          × IsTrimmed cost turns budget_tokens (trim_to_budget cost turns budget_tokens).0)
unfolding trim_to_budget
trim_to_budget-IsTrimmed cost turns b = elim (Bool-cases (eqb b 0)) [
  | inl off ↦ inl (ground (arith), inl (ground (arith)))
  | inr on ↦ elim (Bool-cases (leb (total_of cost turns) b)) [
    | inl fits ↦ inl (ground (arith), inr (leb→le (total_of cost turns) b fits))
    | inr over ↦
        let e : trim_to_budget cost turns b
            ≡ (without_orphans (reverse (newest cost b 0 false (reverse turns))), true) =
          ground (arith) in
        inr (
          ap (λ r. r.1) e,
          subst (λ (r : List Turn × Bool). IsTrimmed cost turns b r.0) (sym e)
              (over_budget cost turns b over),
        )
  ]
]

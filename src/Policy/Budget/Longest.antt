-- ===== src/Policy/Budget/Longest.antt =====
-- What the budget gives: the item, or a prefix of its content that cannot grow (`_fit_context_item` of services/ameme-mcp-mock/ameme_mcp_mock/core.py).
use ameme.Base.{
  string_eq, nat_eq, ℕ, zero, suc, ◌+◌, ◌-◌, ◌/◌, ◌≤◌, ◌<◌, ◌≡◌, ◌⊎◌, refl, arith, String, Bool,
  true, false, Option, none, some, ◌==◌, ltb, leb, count, if◌then◌else◌, if_induction, inl, inr,
  sym, ap, ◌∙◌,
}
use mathlib.Core.Path.{subst}
use ameme.Base.Bytes.{Bytes}
use ameme.Json.{Fields}
use ameme.Policy.Budget.{
  Fitted, content_of, cut, token_count, search_cut, cut_at, found_cut, fit_context_item,
}

-- The best cut of a search that has come to `low`
abbrev pub best_of : ℕ → Option ℕ
best_of n = if ltb 1 n then some (n - 1) else none

pub best_of-two : (n : ℕ) → best_of (suc (suc n)) ≡ some (suc n)
best_of-two n = ground arith

module _ (encode : String → Bytes) (item : Fields) (budget : ℕ) where
  -- The item fits with its first characters.
  abbrev pub fits : ℕ → Bool
  unfolding token_count cut
  fits n = leb (token_count encode (cut item n)) budget

  -- Where a search between two numbers ends: all below fits as far as it was tried, and what is there does not.
  pub record IsEdge (low top : ℕ) (found : Option (Option ℕ)) : Type 0 where
    pub edge : ℕ
    pub above : low ≤ edge
    pub below : edge ≤ top
    pub before : (edge ≡ low) ⊎ (fits (edge - 1) ≡ true)
    pub after : (edge ≡ top) ⊎ (fits edge ≡ false)
    pub best : found ≡ some (best_of edge)

  middle-bounds :
      (low top : ℕ) → low < top → (low ≤ (low + top - 1) / 2) × ((low + top - 1) / 2 < top)
  middle-bounds low top h = (omega (arith, h), omega (arith, h))

  best_of-step :
      (low middle : ℕ)
      → low ≤ middle
      → (if ltb 0 middle then some middle else best_of low) ≡ best_of (middle + 1)
  best_of-step low zero h = ground (arith, h)
  best_of-step low (suc n) h = ground (arith, h)

  stopped : (low top : ℕ) → low ≤ top → ltb low top ≡ false → IsEdge low top (some (best_of low))
  stopped low top h done = record {
    edge = low;
    above = omega arith;
    below = h;
    before = inl refl;
    after = inl (ground (arith, h, done));
    best = refl;
  }

  higher :
      (low top middle : ℕ) (found : Option (Option ℕ))
      → low ≤ middle
      → fits middle ≡ true
      → IsEdge (middle + 1) top found
      → IsEdge low top found
  higher low top middle found from here i = record {
    edge = i.edge;
    above = omega (arith, from, i.above);
    below = i.below;
    before = inr (elim i.before [
      | inl at ↦ let one_less : i.edge - 1 ≡ middle = omega (arith, at) in ap fits one_less ∙ here
      | inr x ↦ x
    ]);
    after = i.after;
    best = i.best;
  }

  lower :
      (low top middle : ℕ) (found : Option (Option ℕ))
      → middle < top
      → fits middle ≡ false
      → IsEdge low middle found
      → IsEdge low top found
  lower low top middle found to not_here i = record {
    edge = i.edge;
    above = i.above;
    below = omega (arith, to, i.below);
    before = i.before;
    after = inr (elim i.after [ inl at ↦ ap fits at ∙ not_here | inr x ↦ x ]);
    best = i.best;
  }

  pub search_cut-IsEdge :
      (fuel low top : ℕ)
      → low ≤ top
      → top ≤ low + fuel
      → IsEdge low top (search_cut encode fuel item budget low top (best_of low))
  unfolding search_cut
  search_cut-IsEdge zero low top h f =
      if_induction (IsEdge low top) (ltb low top) (λ more. absurd (ground (arith, more, h, f)))
        (λ done. stopped low top h done)
  search_cut-IsEdge (suc fuel) low top h f =
      let middle = (low + top - 1) / 2 in
      if_induction (IsEdge low top) (ltb low top)
        (λ more.
          let (from, to) = middle-bounds low top (ground (arith, more)) in
          if_induction (IsEdge low top) (fits middle)
            (λ here. higher low top middle _ from here (
              subst
                (λ b.
                  IsEdge (middle + 1) top (search_cut encode fuel item budget (middle + 1) top b))
                (sym (best_of-step low middle from))
                (search_cut-IsEdge fuel (middle + 1) top (omega (arith, to))
                  (omega (arith, f, from)))))
            (λ not_here.
              lower low top middle _ to not_here
                (search_cut-IsEdge fuel low middle from (omega (arith, f, to)))))
        (λ done. stopped low top h done)

  -- What `_fit_context_item` is to give: the item if it fits, else a prefix of its content that fits and that one
  -- character more does not leave within the budget.
  pub data Best : Option Fitted → Type 0 where
    no_budget : budget ≡ 0 → Best none
    whole :
        1 ≤ budget
        → token_count encode item ≤ budget
        → Best (some (record { item = item; tokens = token_count encode item; truncated = false }))
    prefix :
        (n : ℕ)
        → 1 ≤ n
        → n ≤ count (content_of item)
        → budget < token_count encode item
        → token_count encode (cut item n) ≤ budget
        → (n ≡ count (content_of item)) ⊎ (budget < token_count encode (cut item (n + 1)))
        → Best (
            some (record {
              item = cut item n;
              tokens = token_count encode (cut item n);
              truncated = true;
            }))
    nothing :
        budget < token_count encode item
        → ((count (content_of item) ≡ 0)
            ⊎ (budget < token_count encode (cut item 0))
            ⊎ (budget < token_count encode (cut item 1)))
        → Best none

  unfit : (n : ℕ) → fits n ≡ false → budget < token_count encode (cut item n)
  unfolding fits
  unfit n h = ground (arith, h)

  fitting :
      (n : ℕ)
      → (suc (suc n) ≡ 0) ⊎ (fits (suc (suc n) - 1) ≡ true)
      → token_count encode (cut item (suc n)) ≤ budget
  unfolding fits
  fitting n (inl none_there) = absurd (omega (arith, none_there))
  fitting n (inr fit) =
      let one_less : suc (suc n) - 1 ≡ suc n = omega arith in
      let fit' : fits (suc n) ≡ true = ap fits (sym one_less) ∙ fit in ground (arith, fit')

  cut-Best :
      (k : ℕ)
      → budget < token_count encode item
      → k ≤ count (content_of item) + 1
      → (k ≡ 0) ⊎ (fits (k - 1) ≡ true)
      → (k ≡ count (content_of item) + 1) ⊎ (fits k ≡ false)
      → Best (found_cut encode item (some (best_of k)))
  unfolding found_cut cut_at
  cut-Best zero big below before after =
      nothing big
        (elim after [ inl end_ ↦ absurd (omega (arith, end_)) | inr u ↦ inr (inl (unfit 0 u)) ])
  cut-Best (suc zero) big below before after =
      nothing big
        (elim after [ inl end_ ↦ inl (omega (arith, end_)) | inr u ↦ inr (inr (unfit 1 u)) ])
  cut-Best (suc (suc n)) big below before after =
      subst (λ b. Best (found_cut encode item (some b))) (sym (best_of-two n))
        (prefix (suc n) (omega arith) (omega (arith, below)) big (fitting n before) (elim after [
          | inl end_ ↦ inl (omega (arith, end_))
          | inr u ↦
              let next_one : suc (suc n) ≡ suc n + 1 = omega arith in
              inr (unfit (suc n + 1) (ap fits (sym next_one) ∙ u))
        ]))

  -- `_fit_context_item` gives the item with the tokens it counts if the budget is not 0 and it fits; else it gives
  -- the item with a prefix of one or more characters of its content that fits, where the prefix is the whole content
  -- or does not fit with one character more. It gives nothing only if the budget is 0, the content is empty, or the
  -- item does not fit with none or with one of its characters; its search ends within its fuel.
  pub fit_context_item-Best : Best (fit_context_item encode item budget)
  unfolding fit_context_item
  fit_context_item-Best =
      let size = count (content_of item) in
      if_induction Best (budget == 0)
        (λ none_left. no_budget ((nat_eq.same_iff budget 0).0 none_left))
        (λ some_left.
          if_induction Best (leb (token_count encode item) budget)
            (λ fit.
              whole (ground (arith, some_left, nat_eq.same_iff budget 0)) (ground (arith, fit)))
            (λ big.
              let i = search_cut-IsEdge (size + 1) 0 (size + 1) (omega arith) (omega arith) in
              subst (λ r. Best (found_cut encode item r)) (sym i.best)
                (cut-Best i.edge (ground (arith, big)) i.below i.before i.after)))

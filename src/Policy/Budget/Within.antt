-- ===== src/Policy/Budget/Within.antt =====
-- A pack stays within its budget (`get_context` of services/ameme-mcp-mock/ameme_mcp_mock/core.py).
use ameme.Base.{
  string_eq, nat_eq, ℕ, zero, suc, ◌+◌, ◌-◌, ◌≤◌, ◌≡◌, ◌⊎◌, refl, arith, String, true, false,
  Option, none, some, List, [], ◌∷◌, ◌==◌, leb, count, if_induction, inl, inr, sym, ap, ◌∙◌,
}
use mathlib.Core.Path.{subst}
use ameme.Base.Bytes.{Bytes}
use ameme.Json.{Fields}
use ameme.Policy.Budget.{
  Fitted, Filled, content_of, cut, token_count, cut_at, found_cut, fit_context_item, then_fill,
  tokens_of, fill_pack,
}
use ameme.Policy.Budget.Longest.{best_of, best_of-two, fits, search_cut-IsEdge}

-- The counts of items, added up
unfoldable pub sum_of : (String → Bytes) → List Fields → ℕ
sum_of encode [] = 0
sum_of encode (item ∷ rest) = token_count encode item + sum_of encode rest

-- An item that is given fits, and its count is right.
pub record IsWithin (encode : String → Bytes) (budget : ℕ) (o : Option Fitted) : Type 0 where
  pub within : tokens_of o ≤ budget
  pub counted : (f : Fitted) → o ≡ some f → token_count encode f.item ≡ f.tokens

module _ (encode : String → Bytes) (item : Fields) (budget : ℕ) where
  some-IsWithin :
      (f : Fitted)
      → f.tokens ≤ budget
      → token_count encode f.item ≡ f.tokens
      → IsWithin encode budget (some f)
  some-IsWithin f h k = record {
    within = h;
    counted = λ g e. subst (λ x. token_count encode x.item ≡ x.tokens) (same e) k;
  }
    where
      same : {g : Fitted} → ◌≡◌ {A = Option Fitted} (some f) (some g) → f ≡ g
      same e = cc e

  none-IsWithin : IsWithin encode budget none
  none-IsWithin = record { within = omega arith; counted = λ f e. cc e }

  cut-IsWithin :
      (k : ℕ)
      → (k ≡ 0) ⊎ (fits encode item budget (k - 1) ≡ true)
      → IsWithin encode budget (found_cut encode item (some (best_of k)))
  unfolding found_cut cut_at token_count cut
  cut-IsWithin zero before = none-IsWithin
  cut-IsWithin (suc zero) before = none-IsWithin
  cut-IsWithin (suc (suc n)) before =
      subst (λ b. IsWithin encode budget (found_cut encode item (some b))) (sym (best_of-two n))
        (some-IsWithin
          (record {
            item = cut item (suc n);
            tokens = token_count encode (cut item (suc n));
            truncated = true;
          })
          (fitting before) refl)
    where
      fitting :
          (suc (suc n) ≡ 0) ⊎ (fits encode item budget (suc (suc n) - 1) ≡ true)
          → token_count encode (cut item (suc n)) ≤ budget
      fitting (inl none_there) = absurd (omega (arith, none_there))
      fitting (inr fit) =
          let one_less : suc (suc n) - 1 ≡ suc n = omega arith in
          let fit' : fits encode item budget (suc n) ≡ true =
            ap (fits encode item budget) (sym one_less) ∙ fit in
          ground (arith, fit')

  fit_context_item-IsWithin : IsWithin encode budget (fit_context_item encode item budget)
  unfolding fit_context_item
  fit_context_item-IsWithin =
      let size = count (content_of item) in
      if_induction (IsWithin encode budget) (budget == 0) (λ _. none-IsWithin)
        (λ _.
          if_induction (IsWithin encode budget) (leb (token_count encode item) budget)
            (λ fit.
              some-IsWithin
                (record { item = item; tokens = token_count encode item; truncated = false })
                (ground (arith, fit)) refl)
            (λ _.
              let i =
                search_cut-IsEdge encode item budget (size + 1) 0 (size + 1) (omega arith)
                  (omega arith) in
              subst (λ r. IsWithin encode budget (found_cut encode item r)) (sym i.best)
                (cut-IsWithin i.edge i.before)))

then_fill-sum :
    (encode : String → Bytes) (budget : ℕ) (o : Option Fitted) (rest : Filled)
    → IsWithin encode budget o
    → rest.total ≡ sum_of encode rest.items
    → rest.total ≤ budget - tokens_of o
    → ((then_fill o rest).total ≡ sum_of encode (then_fill o rest).items)
      × ((then_fill o rest).total ≤ budget)
unfolding sum_of
then_fill-sum encode budget none rest h s k = (refl, omega arith)
then_fill-sum encode budget (some f) rest h s k =
    if_induction (λ (r : Filled). (r.total ≡ sum_of encode r.items) × (r.total ≤ budget))
      f.truncated (λ _. (omega (arith, h.counted f refl), h.within))
      (λ _. (omega (arith, h.counted f refl, s), omega (arith, h.within, k)))

-- The count of a pack is the sum of the counts of its items, and at most the budget.
pub fill_pack-total :
    (encode : String → Bytes) (items : List Fields) (budget : ℕ)
    → ((fill_pack encode items budget).total ≡ sum_of encode (fill_pack encode items budget).items)
      × ((fill_pack encode items budget).total ≤ budget)
unfolding fill_pack sum_of
fill_pack-total encode [] budget = (refl, omega arith)
fill_pack-total encode (item ∷ rest) budget =
    let fitted = fit_context_item encode item budget in
    let (summed, within) = fill_pack-total encode rest (budget - tokens_of fitted) in
    then_fill-sum encode budget fitted (fill_pack encode rest (budget - tokens_of fitted))
      (fit_context_item-IsWithin encode item budget) summed within

-- ===== src/Policy/Budget.antt =====
-- The token budget of a context pack: `_context_item_token_count`, `_fit_context_item`, and the loop of `get_context`
-- that fills the pack (services/ameme-mcp-mock/ameme_mcp_mock/core.py).
pub mod Longest
pub mod Within
use ameme.Base.{
  string_eq, nat_eq, ℕ, zero, suc, ◌+◌, ◌-◌, ◌/◌, String, Bool, true, false, Option, none, some,
  List, [], ◌∷◌, ◌==◌, not, ltb, leb, count, length, if◌then◌else◌,
}
use ameme.Base.Bytes.{Bytes}
use ameme.Base.Text.{take_text}
use ameme.Json.{Json, Fields, str, bool, obj, end, field, get, canonical_json}

-- A key and value written into a dict
unfoldable pub write_field : String → Json → Fields → Fields
write_field k v end = field k v end
write_field k v (field j w fs) =
    let rest = write_field k v fs in if j == k then field k v fs else field j w rest

-- `str(item.get("content") or "")`; the content is a text or null.
abbrev pub text_of_content : Option Json → String
text_of_content (some (Json.str s)) = s
text_of_content _ = ""

unfoldable pub content_of : Fields → String
unfolding get
content_of item = text_of_content (get "content" item)

-- `truncated_item` with the first characters of the content
unfoldable pub cut : Fields → ℕ → Fields
unfolding write_field content_of take_text
cut item n =
    write_field "content" (str (take_text n (content_of item)))
      (write_field "content_truncated" (bool true) item)

-- An item that fits, its count, and whether it was cut
pub record Fitted : Type 0 where
  pub item : Fields
  pub tokens : ℕ
  pub truncated : Bool

-- The items of a pack, their count, and whether the budget ended it
pub record Filled : Type 0 where
  pub items : List Fields
  pub total : ℕ
  pub limited : Bool

-- One candidate before what the rest gives, and how much of the budget it takes
abbrev pub then_fill : Option Fitted → Filled → Filled
then_fill none rest = record { items = []; total = 0; limited = true }
then_fill (some f) rest =
    if f.truncated
    then record { items = f.item ∷ []; total = f.tokens; limited = true }
    else record {
      items = f.item ∷ rest.items;
      total = f.tokens + rest.total;
      limited = rest.limited;
    }

abbrev pub tokens_of : Option Fitted → ℕ
tokens_of none = 0
tokens_of (some f) = f.tokens

module _ (encode : String → Bytes) where
  -- `_context_item_token_count`
  unfoldable pub token_count : Fields → ℕ
  unfolding canonical_json
  token_count item = (length (encode (canonical_json (obj item))) + 3) / 4

  -- The `while` of the search, on fuel, with `high + 1` in place of `high`. The best item is kept by the number of its
  -- characters. None is for the end of the fuel.
  unfoldable pub search_cut : ℕ → Fields → ℕ → ℕ → ℕ → Option ℕ → Option (Option ℕ)
  unfolding token_count cut
  search_cut zero item budget low top best = if ltb low top then none else some best
  search_cut (suc fuel) item budget low top best =
      let middle = (low + top - 1) / 2 in
      let higher =
        search_cut fuel item budget (middle + 1) top (if ltb 0 middle then some middle else best) in
      let lower = search_cut fuel item budget low middle best in
      if ltb low top
      then if leb (token_count (cut item middle)) budget then higher else lower
      else some best

  abbrev pub cut_at : Fields → Option ℕ → Option Fitted
  unfolding token_count cut
  cut_at item none = none
  cut_at item (some n) =
      some (record { item = cut item n; tokens = token_count (cut item n); truncated = true })

  abbrev pub found_cut : Fields → Option (Option ℕ) → Option Fitted
  unfolding token_count cut
  found_cut item none = none
  found_cut item (some best) = cut_at item best

  -- `_fit_context_item`; none where the code returns no item.
  unfoldable pub fit_context_item : Fields → ℕ → Option Fitted
  unfolding token_count cut search_cut content_of
  fit_context_item item budget =
      let size = count (content_of item) in
      if budget == 0
      then none
      else if leb (token_count item) budget
      then some (record { item = item; tokens = token_count item; truncated = false })
      else found_cut item (search_cut (size + 1) item budget 0 (size + 1) none)

  -- The loop over the candidates, with what is left of the budget
  unfoldable pub fill_pack : List Fields → ℕ → Filled
  unfolding fit_context_item
  fill_pack [] budget = record { items = []; total = 0; limited = false }
  fill_pack (item ∷ rest) budget =
      let fitted = fit_context_item item budget in
      then_fill fitted (fill_pack rest (budget - tokens_of fitted))

-- ===== src/Sync/Project/Walk.antt =====
-- A walk over ascending numbers, as the loop of the projection goes over the bases of the revisions
-- (`_project_event` of packages/sync-protocol/src/ameme_sync_protocol/simulator.py).
use ameme.Base.{◌||◌}
use mathlib.Core.List.{append_assoc}
use ameme.Base.{if_induction, sym, ap, sym}
use ameme.Base.{ap}
use ameme.Base.{
  string_eq, nat_eq, ltb, ℕ, ◌+◌, ◌≤◌, ◌<◌, ◌≡◌, refl, arith, true, false, List, [], ◌∷◌, ◌++◌,
  keep, ◌==◌, if◌then◌else◌, Bool-cases, inl, inr,
}
use mathlib.Core.List.{append-nil}
use mathlib.Core.Path.{subst}
use ameme.Base.Sets.{contains}
use ameme.Sync.Envelope.{Envelope}
use ameme.Sync.Project.{base_of, bases, put_number}

-- The revision number that a loop over the bases reaches, and the bases that do not continue the chain.
unfoldable pub walk : List ℕ → ℕ × List ℕ → ℕ × List ℕ
walk [] found = found
walk (base ∷ rest) (current, gaps) =
    walk rest (if base == current then (current + 1, gaps) else (current, gaps ++ base ∷ []))

-- Ascending, and all at or above a bound.
unfoldable pub IsAbove : ℕ → List ℕ → Type 0
IsAbove low [] = Unit
IsAbove low (n ∷ ns) = (low ≤ n) × IsAbove (n + 1) ns

IsAbove-weaken : (low bound : ℕ) (ns : List ℕ) → low ≤ bound → IsAbove bound ns → IsAbove low ns
unfolding IsAbove
IsAbove-weaken low bound [] l h = tt
IsAbove-weaken low bound (n ∷ ns) l (first, rest) = (omega (arith, l, first), rest)

-- Above the current number the walk finds gaps only.
walk-beyond :
    (current : ℕ) (ns gaps : List ℕ)
    → IsAbove (current + 1) ns
    → (walk ns (current, gaps) ≡ (current, gaps ++ ns))
      × (contains current ns ≡ false)
      × (keep (λ n. ltb current n) ns ≡ ns)
unfolding walk IsAbove contains
walk-beyond current [] gaps h = (ap (λ g. (current, g)) (sym (append-nil gaps)), refl, refl)
walk-beyond current (n ∷ ns) gaps (first, rest) =
    let (go, absent, all_above) =
      walk-beyond current ns (gaps ++ n ∷ [])
        (IsAbove-weaken (current + 1) (n + 1) ns (omega (arith, first)) rest) in
    let other : (n == current) ≡ false = ground (arith, first) in
    (
      rw (other, go) (ap (λ g. (current, g)) (append_assoc gaps (n ∷ []) ns)),
      rw (other, absent) refl,
      rw all_above (ground (arith, first)),
    )

-- A number from `low` on below which every number is a base, and which is none; what is left are the bases above.
unfoldable pub IsChain : ℕ → List ℕ → List ℕ → ℕ × List ℕ → Type 0
IsChain low ns gaps (r, left) =
    (low ≤ r)
    × ((n : ℕ) → low ≤ n → n < r → contains n ns ≡ true)
    × (contains r ns ≡ false)
    × (left ≡ gaps ++ keep (λ n. ltb r n) ns)

IsChain-next :
    (low b : ℕ) (ns gaps : List ℕ) (found : ℕ × List ℕ)
    → b ≡ low
    → IsChain (low + 1) ns gaps found
    → IsChain low (b ∷ ns) gaps found
unfolding IsChain contains
IsChain-next low b ns gaps (r, left) same (higher, chain, absent, rest) =
    let passed : ltb r b ≡ false = ground (arith, higher, same) in
    let apart : (b == r) ≡ false = ground (arith, higher, same) in
    (
      omega (arith, higher),
      λ n l k. elim (Bool-cases (b == n)) [
        | inl this ↦ rw this refl
        | inr other ↦ rw (other, chain n (ground (arith, other, l, same)) k) refl
      ],
      rw (apart, absent) refl,
      rw (passed, rest) refl,
    )

-- What the walk over ascending bases finds.
pub walk-IsChain :
    (low : ℕ) (ns : List ℕ) (gaps : List ℕ)
    → IsAbove low ns
    → IsChain low ns gaps (walk ns (low, gaps))
unfolding walk IsAbove contains IsChain
walk-IsChain low [] gaps h =
    (omega arith, λ n l k. absurd (omega (arith, l, k)), refl, sym (append-nil gaps))
walk-IsChain low (b ∷ ns) gaps (first, rest) = elim (Bool-cases (b == low)) [
  | inl next ↦
      let same : b ≡ low = (nat_eq.same_iff b low).0 next in
      let further = walk-IsChain (low + 1) ns gaps (subst (λ m. IsAbove (m + 1) ns) same rest) in
      subst (IsChain low (b ∷ ns) gaps) (rw (next, walk) refl)
        (IsChain-next low b ns gaps (walk ns (low + 1, gaps)) same further)
  | inr gap ↦
      let (go, absent, above) = walk-beyond low (b ∷ ns) gaps (ground (arith, first, gap), rest) in
      subst (IsChain low (b ∷ ns) gaps) (sym go) (
        omega arith,
        λ n l k. absurd (omega (arith, l, k)),
        absent,
        ap (λ l. gaps ++ l) (sym above),
      )
]

put_number-IsAbove :
    (low n : ℕ) (ns : List ℕ) → low ≤ n → IsAbove low ns → IsAbove low (put_number n ns)
unfolding IsAbove
put_number-IsAbove low n [] l h = (l, tt)
put_number-IsAbove low n (m ∷ ms) l (first, rest) =
    if_induction (IsAbove low) (ltb n m) (λ less. (l, (ground (arith, less), rest)))
      (λ more.
        if_induction (IsAbove low) (n == m) (λ _. (first, rest))
          (λ other. (first, put_number-IsAbove (m + 1) n ms (ground (arith, more, other)) rest)))

pub contains-put_number :
    (k n : ℕ) (ns : List ℕ) → contains k (put_number n ns) ≡ (n == k || contains k ns)
unfolding contains
contains-put_number k n [] = refl
contains-put_number k n (m ∷ ms) = ground (arith, contains-put_number k n ms)

pub bases-IsAbove : (es : List Envelope) → IsAbove 0 (bases es)
unfolding bases IsAbove
bases-IsAbove [] = tt
bases-IsAbove (e ∷ es) =
    put_number-IsAbove 0 (base_of e) (bases es) (omega arith) (bases-IsAbove es)

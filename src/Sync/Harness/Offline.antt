-- ===== src/Sync/Harness/Offline.antt =====
-- A peer that is offline, and its return (`deliver`, `set_online` and `replay_offline` of
-- packages/sync-protocol/src/ameme_sync_protocol/simulator.py).
use ameme.Sync.Harness.{HarnessError}
use ameme.Sync.Harness.{Ran}
use ameme.Sync.Harness.{Receipt}
use ameme.Base.{
  string_eq, nat_eq, ◌+◌, ◌≡◌, ◌≢◌, refl, ◌∙◌, sym, ap, arith, true, false, not, String, List, [],
  ◌∷◌, ◌++◌, ◌==◌, keep, ==-refl, ==-false, Option-cases, Outcome-cases, ok, err, length, inl, inr,
}
use mathlib.Core.List.{append_assoc, append-nil}
use ameme.Base.Dict.{lookup, lookup-insert, erase, default}
use ameme.Base.Sets.{contains}
use ameme.Platform.{Platform}
use ameme.Sync.Envelope.{Envelope}
use ameme.Sync.Harness.{Harness, hold, deliver, deliver_all, each_to, set_online, replay_offline}

-- The envelopes wait for the target, in order, after what waited before. What waits for the others, the peers, who is
-- offline, and the records of deletions are untouched.
pub record IsHeld (es : List Envelope) (target : String) (h k : Harness) : Type 0 where
  pub same_peers : k.peers ≡ h.peers
  pub same_offline : k.offline_peers ≡ h.offline_peers
  pub same_required : k.deletion_required ≡ h.deletion_required
  pub same_receipts : k.deletion_receipts ≡ h.deletion_receipts
  pub queued :
      default [] (lookup target k.offline_queue) ≡ default [] (lookup target h.offline_queue) ++ es
  pub others : (id : String) → target ≢ id → lookup id k.offline_queue ≡ lookup id h.offline_queue

hold-IsHeld :
    (p : Platform) (e : Envelope) (target : String) (h : Harness)
    → IsHeld (e ∷ []) target h (hold p e target h).0
unfolding hold
hold-IsHeld p e target h =
    let waiting = default [] (lookup target h.offline_queue) ++ e ∷ [] in
    let queued =
      ap (default []) (lookup-insert target target waiting h.offline_queue)
      ∙ rw (==-refl target) refl in
    let others = λ (id : String) (other : target ≢ id).
      lookup-insert target id waiting h.offline_queue ∙ rw (==-false target id other) refl in
    elim (Option-cases (lookup target h.peers)) [
      | inl missing ↦
          rw (missing, hold)
            (record {
              same_peers = refl;
              same_offline = refl;
              same_required = refl;
              same_receipts = refl;
              queued = queued;
              others = others;
            })
      | inr (s, found) ↦
          rw (found, hold)
            (record {
              same_peers = refl;
              same_offline = refl;
              same_required = refl;
              same_receipts = refl;
              queued = queued;
              others = others;
            })
    ]

deliver-IsHeld :
    (p : Platform) (e : Envelope) (target : String) (h : Harness)
    → contains target h.offline_peers ≡ true
    → IsHeld (e ∷ []) target h (deliver p e target h).0
unfolding deliver
deliver-IsHeld p e target h offline =
    let held = hold-IsHeld p e target (record h { tick = h.tick + 1 }) in
    rw (offline, deliver)
      (record {
        same_peers = held.same_peers;
        same_offline = held.same_offline;
        same_required = held.same_required;
        same_receipts = held.same_receipts;
        queued = held.queued;
        others = held.others;
      })

-- Deliveries to one target, one after the other, whatever each returns or raises.
unfoldable pub deliver_each : Platform → List Envelope → String → Harness → Harness
deliver_each p [] target h = h
deliver_each p (e ∷ es) target h = deliver_each p es target (deliver p e target h).0

deliver_each-IsHeld :
    (p : Platform) (es : List Envelope) (target : String) (h : Harness)
    → contains target h.offline_peers ≡ true
    → IsHeld es target h (deliver_each p es target h)
unfolding deliver_each
deliver_each-IsHeld p [] target h offline = record {
  same_peers = refl;
  same_offline = refl;
  same_required = refl;
  same_receipts = refl;
  queued = sym (append-nil (default [] (lookup target h.offline_queue)));
  others = λ id other. refl;
}
deliver_each-IsHeld p (e ∷ es) target h offline =
    let k = (deliver p e target h).0 in
    let a = deliver-IsHeld p e target h offline in
    let b = deliver_each-IsHeld p es target k (ap (contains target) a.same_offline ∙ offline) in
    record {
      same_peers = b.same_peers ∙ a.same_peers;
      same_offline = b.same_offline ∙ a.same_offline;
      same_required = b.same_required ∙ a.same_required;
      same_receipts = b.same_receipts ∙ a.same_receipts;
      queued =
          b.queued
          ∙ ap (λ q. q ++ es) a.queued
          ∙ append_assoc (default [] (lookup target h.offline_queue)) (e ∷ []) es;
      others = λ id other. b.others id other ∙ a.others id other;
    }

-- Who is taken out is not there.
contains-left_out :
    (id : String) (xs : List String) → contains id (keep (λ x. not (x == id)) xs) ≡ false
unfolding contains
contains-left_out id [] = refl
contains-left_out id (x ∷ xs) = ground (arith, contains-left_out id xs)

-- What a replay comes to: all are delivered and there is a receipt of each, or one raises, and it and those before it
-- are delivered and none after it.
module _ (p : Platform) (target : String) where
  pub data IsReplayed (start : Harness) (es : List Envelope) (q : Ran (List Receipt)) : Type 0 where
    finished :
        (rs : List Receipt)
        → q ≡ (deliver_each p es target start, ok rs)
        → length rs ≡ length es
        → IsReplayed start es q
    stopped :
        (before left : List Envelope) (e : Envelope) (c : HarnessError)
        → es ≡ before ++ e ∷ left
        → (deliver p e target (deliver_each p before target start)).1 ≡ err c
        → q ≡ (deliver_each p (before ++ e ∷ []) target start, err c)
        → IsReplayed start es q

  later-IsReplayed :
      (e : Envelope) (es : List Envelope) (h : Harness) (r : Receipt)
      → (deliver p e target h).1 ≡ ok r
      → IsReplayed
          (deliver p e target h).0
          es
          (deliver_all p (each_to p target es) (deliver p e target h).0)
      → IsReplayed h (e ∷ es) (deliver_all p (each_to p target (e ∷ es)) h)
  unfolding deliver_all deliver_each each_to
  later-IsReplayed e es h r returned (finished rs is_it counted) =
      finished (r ∷ rs)
        (rw (returned, is_it, deliver_all)
          (ap {B = Ran (List Receipt)} (λ k. (k, ok (r ∷ rs))) (ap (λ x. x.0) is_it)))
        (omega (arith, counted))
  later-IsReplayed e es h r returned (stopped before left d c parts raised is_it) =
      stopped (e ∷ before) left d c (ap (λ ds. e ∷ ds) parts) raised (
        rw (returned, is_it, deliver_all)
          (ap {B = Ran (List Receipt)} (λ k. (k, err c)) (ap (λ x. x.0) is_it)))

  deliver_all-IsReplayed :
      (es : List Envelope) (h : Harness) → IsReplayed h es (deliver_all p (each_to p target es) h)
  unfolding deliver_all deliver_each each_to
  deliver_all-IsReplayed [] h = finished [] refl refl
  deliver_all-IsReplayed (e ∷ es) h = elim (Outcome-cases (deliver p e target h).1) [
    | inl (r, returned) ↦
        later-IsReplayed e es h r returned (deliver_all-IsReplayed es (deliver p e target h).0)
    | inr (c, raised) ↦ stopped [] es e c refl raised (rw (raised, deliver_all) refl)
  ]

-- The envelopes that are delivered to a peer while it is offline, known or not, wait for it in order, after what
-- waited before, and touch nothing else: not the peers, what waits for others, who is offline, or the records of
-- deletions. Once the peer is back online, a replay in order starts with nothing waiting for it and delivers to it what
-- waited before and then these envelopes: all of them, with a receipt of each, or up to the first whose delivery raises.
pub replay_delivers_what_waited :
    (p : Platform) (es : List Envelope) (target : String) (h : Harness)
    → contains target h.offline_peers ≡ true
    → let k = deliver_each p es target h in
      let back = set_online p target true k in
      IsHeld es target h k
      × IsReplayed p target
          (record back { offline_queue = erase target back.offline_queue })
          (default [] (lookup target h.offline_queue) ++ es)
          (replay_offline p target false back)
unfolding replay_offline set_online
replay_delivers_what_waited p es target h offline =
    let k = deliver_each p es target h in
    let back = set_online p target true k in
    let held = deliver_each-IsHeld p es target h offline in
    (
      held,
      rw (contains-left_out target k.offline_peers, held.queued)
          (deliver_all-IsReplayed p target (default [] (lookup target h.offline_queue) ++ es)
            (record back { offline_queue = erase target back.offline_queue })),
    )

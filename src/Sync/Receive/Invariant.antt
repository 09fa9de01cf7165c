-- ===== src/Sync/Receive/Invariant.antt =====
-- The order that a peer keeps for each sender: what each step on the state does to it.
use ameme.Base.Dict.{lookup}
use ameme.Base.{refl}
use ameme.Base.Dict.{lookup2}
use ameme.Sync.State.{new_peer}
use ameme.Base.Int.{ℤ}
use ameme.Base.{List}
use ameme.Base.{string_eq, nat_eq, ℕ, ◌+◌, ◌≤◌, ◌<◌, ◌≡◌, arith, true, none, some, String}
use ameme.Base.Dict.{is_some, lookup-insert, lookup2-insert2, lookup2-erase2}
use text.Mathlib.TextEquality.{eq_iff}
use ameme.Platform.{Platform}
use ameme.Sync.Envelope.{Envelope, digest}
use ameme.Sync.State.{
  Peer, Pending, cursor_of, digest_of, pending_at, set_cursor, put_pending, pop_pending,
  record_digest,
}
use ameme.Sync.Semantics.Frame.{SameTransport}

-- Every number up to the cursor was seen. What waits lies beyond the cursor, was sent by the device
-- that it waits for, and its digest is the one on record.
pub record IsOrdered (p : Platform) (s : Peer) : Type 0 where
  pub seen : (o : String) (n : ℕ) → 1 ≤ n → n ≤ cursor_of s o → is_some (digest_of s o n) ≡ true
  pub ahead : (o : String) (n : ℕ) (x : Pending) → pending_at s o n ≡ some x → cursor_of s o < n
  pub recorded :
      (o : String) (n : ℕ) (x : Pending)
      → pending_at s o n ≡ some x
      → digest_of s o n ≡ some (digest p x.envelope)
  pub sender :
      (o : String) (n : ℕ) (x : Pending) → pending_at s o n ≡ some x → x.envelope.device_id ≡ o

-- Between two calls nothing waits at the number that comes next.
pub record IsValid (p : Platform) (s : Peer) : Type 0 where
  pub ordered : IsOrdered p s
  pub drained : (o : String) → pending_at s o (cursor_of s o + 1) ≡ none

module _ (p : Platform) where
  pub SameTransport-IsOrdered : {s t : Peer} → SameTransport s t → IsOrdered p s → IsOrdered p t
  SameTransport-IsOrdered h v = record {
    seen = λ o n a b. ground (arith, h, v.seen o n);
    ahead = λ o n x e. ground (arith, h, v.ahead o n x);
    recorded = λ o n x e. ground (arith, h, v.recorded o n x);
    sender = λ o n x e. ground (arith, h, v.sender o n x);
  }

  pub pop_pending-IsOrdered :
      (o : String) (n : ℕ) {s : Peer} → IsOrdered p s → IsOrdered p (pop_pending o n s)
  pop_pending-IsOrdered o n {s} v = record {
    seen = v.seen;
    ahead = λ i l x e. ground (arith, v.ahead i l x, lookup2-erase2 o n i l s.pending);
    recorded = λ i l x e. ground (arith, v.recorded i l x, lookup2-erase2 o n i l s.pending);
    sender = λ i l x e. ground (arith, v.sender i l x, lookup2-erase2 o n i l s.pending);
  }

  pub set_cursor-IsOrdered :
      (o : String) (n : ℕ) {s : Peer}
      → n ≡ cursor_of s o + 1
      → is_some (digest_of s o n) ≡ true
      → pending_at s o n ≡ none
      → IsOrdered p s
      → IsOrdered p (set_cursor o n s)
  set_cursor-IsOrdered o n {s} next known free v = record {
    seen = λ i l a b. ground (arith, known, eq_iff o i, lookup-insert o i n s.cursors, v.seen i l);
    ahead = λ i l x e. ground (arith, eq_iff o i, lookup-insert o i n s.cursors, v.ahead i l x);
    recorded = v.recorded;
    sender = v.sender;
  }

  pub put_pending-IsOrdered :
      (x : Pending) (n : ℕ) {s : Peer}
      → cursor_of s x.envelope.device_id < n
      → digest_of s x.envelope.device_id n ≡ some (digest p x.envelope)
      → IsOrdered p s
      → IsOrdered p (put_pending x.envelope.device_id n x s)
  put_pending-IsOrdered x n {s} later known v = record {
    seen = v.seen;
    ahead = λ i l y e. ground (
      arith,
      eq_iff x.envelope.device_id i,
      nat_eq.same_iff n l,
      lookup2-insert2 x.envelope.device_id n i l x s.pending,
      v.ahead i l y,
    );
    recorded = λ i l y e. ground (
      arith,
      eq_iff x.envelope.device_id i,
      nat_eq.same_iff n l,
      lookup2-insert2 x.envelope.device_id n i l x s.pending,
      v.recorded i l y,
    );
    sender = λ i l y e. ground (
      arith,
      eq_iff x.envelope.device_id i,
      nat_eq.same_iff n l,
      lookup2-insert2 x.envelope.device_id n i l x s.pending,
      v.sender i l y,
    );
  }

  -- A digest is recorded only where there was none, so no pending entry loses its own.
  pub record_digest-IsOrdered :
      (e : Envelope) {s : Peer}
      → digest_of s e.device_id e.device_sequence ≡ none
      → IsOrdered p s
      → IsOrdered p (record_digest p e s)
  record_digest-IsOrdered e {s} new v = record {
    seen = λ i l a b. ground (
      arith,
      nat_eq.same_iff e.device_sequence l,
      lookup2-insert2 e.device_id e.device_sequence i l (digest p e) s.sequence_digests,
      v.seen i l,
    );
    ahead = v.ahead;
    recorded = λ i l x h. ground (
      arith,
      eq_iff e.device_id i,
      nat_eq.same_iff e.device_sequence l,
      lookup2-insert2 e.device_id e.device_sequence i l (digest p e) s.sequence_digests,
      v.recorded i l x,
    );
    sender = v.sender;
  }

-- A peer that has received nothing is in order.
pub new_peer-IsValid :
    (p : Platform) (name space : String) (versions : List ℤ)
    → IsValid p (new_peer name space versions)
unfolding lookup2 lookup
new_peer-IsValid p name space versions = record {
  ordered = record {
    seen = λ o n a b. absurd (ground arith);
    ahead = λ o n x e. absurd (ground arith);
    recorded = λ o n x e. absurd (ground arith);
    sender = λ o n x e. absurd (ground arith);
  };
  drained = λ o. refl;
}

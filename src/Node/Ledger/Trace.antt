-- ===== src/Node/Ledger/Trace.antt =====
-- The ledger against the requests that it was given (`ReplayLedger.accept` of
-- packages/agent-local-node-protocol/ameme_agent_local_node_protocol/protocol.py).
use ameme.Base.{
  string_eq, ◌≡◌, refl, arith, String, Option, none, some, List, [], ◌∷◌, ◌==◌, if◌then◌else◌, ok,
  err, ap, ◌∙◌, Option-cases, inl, inr,
}
use ameme.Base.Dict.{lookup, lookup-insert}
use ameme.Json.{Json}
use ameme.Node.Codec.{Codec}
use ameme.Node.Checks.{Checked, idempotency_conflict, digest_json}
use ameme.Node.Request.{Request, Control, validate_request}
use ameme.Node.Ledger.{
  Verdict, new, replay, Ledger, fingerprint_of, settle, enter, accept_control, accept_validated,
  accept,
}

module _ (x : Codec) where
  -- The slot and the fingerprint of a request, if it is valid.
  entry_of_control : Control → Checked String → Option (String × String)
  entry_of_control c (ok fingerprint) = some (c.idempotency_slot, fingerprint)
  entry_of_control c (err code) = none

  entry_of_request : Checked Request → Option (String × String)
  entry_of_request (ok r) = entry_of_control r.control (digest_json x (fingerprint_of r.control))
  entry_of_request (err code) = none

  unfoldable pub entry_of : Json → Option (String × String)
  unfolding entry_of_request entry_of_control
  entry_of request = entry_of_request (validate_request x request)

  -- The ledger after a list of requests, each accepted or refused.
  unfoldable pub accept_all : List Json → Ledger → Ledger
  accept_all [] seen = seen
  accept_all (r ∷ rs) seen = accept_all rs (accept x r seen).0

  abbrev pub matching : String → Option (String × String) → Option String → Option String
  matching slot none later = later
  matching slot (some (k, fingerprint)) later = if k == slot then some fingerprint else later

  -- The fingerprint of the first valid request of a list that has a slot.
  unfoldable pub first_entry : String → List Json → Option String
  unfolding entry_of
  first_entry slot [] = none
  first_entry slot (r ∷ rs) = matching slot (entry_of r) (first_entry slot rs)

  -- What a request of a slot deserves, by the first of the slot.
  unfoldable pub verdict_of : Option String → String → Checked Verdict
  verdict_of none fingerprint = ok new
  verdict_of (some first) fingerprint =
      if first == fingerprint then ok replay else err idempotency_conflict

  -- A request without an entry changes nothing.
  accept-none : (r : Json) (seen : Ledger) → entry_of r ≡ none → (accept x r seen).0 ≡ seen
  unfolding accept entry_of entry_of_request entry_of_control accept_control
  accept-none r seen h = by_request (validate_request x r) h
    where
      by_digest :
          (c : Control) (d : Checked String)
          → entry_of_control c d ≡ none
          → (enter x c d seen).0 ≡ seen
      by_digest c (ok d) h = cc h
      by_digest c (err code) h = refl

      by_request :
          (v : Checked Request) → entry_of_request v ≡ none → (accept_validated x v seen).0 ≡ seen
      by_request (ok r) h = by_digest r.control (digest_json x (fingerprint_of r.control)) h
      by_request (err code) h = refl

  -- One with an entry is settled by its slot.
  accept-some :
      (r : Json) (seen : Ledger) (slot fingerprint : String)
      → entry_of r ≡ some (slot, fingerprint)
      → accept x r seen ≡ settle (lookup slot seen) slot fingerprint seen
  unfolding accept entry_of entry_of_request entry_of_control accept_control
  accept-some r seen slot fingerprint h = by_request (validate_request x r) h
    where
      by_digest :
          (c : Control) (d : Checked String)
          → entry_of_control c d ≡ some (slot, fingerprint)
          → enter x c d seen ≡ settle (lookup slot seen) slot fingerprint seen
      by_digest c (ok d) h = cc h
      by_digest c (err code) h = cc h

      by_request :
          (v : Checked Request)
          → entry_of_request v ≡ some (slot, fingerprint)
          → accept_validated x v seen ≡ settle (lookup slot seen) slot fingerprint seen
      by_request (ok r) h = by_digest r.control (digest_json x (fingerprint_of r.control)) h
      by_request (err code) h = cc h

  abbrev or_first : Option String → Option String → Option String
  or_first none later = later
  or_first (some s) later = some s

  settle-lookup :
      (slot k fingerprint : String) (seen : Ledger) (later : Option String)
      → or_first (lookup slot (settle (lookup k seen) k fingerprint seen).0) later
        ≡ or_first (lookup slot seen) (matching slot (some (k, fingerprint)) later)
  unfolding settle
  settle-lookup slot k fingerprint seen later = elim (Option-cases (lookup k seen)) [
    | inl free ↦
        rw (free, settle)
          (ground (arith, lookup-insert k slot fingerprint seen, string_eq.same_iff k slot, free))
    | inr (previous, taken) ↦ rw (taken, settle) (ground (arith, string_eq.same_iff k slot, taken))
  ]

  settle-verdict :
      (o : Option String) (slot fingerprint : String) (seen : Ledger)
      → (settle o slot fingerprint seen).1 ≡ verdict_of o fingerprint
  unfolding settle verdict_of
  settle-verdict none slot fingerprint seen = refl
  settle-verdict (some previous) slot fingerprint seen = ground arith

  -- The look-up of a slot after the requests.
  accept_all-lookup :
      (slot : String) (rs : List Json) (seen : Ledger)
      → lookup slot (accept_all rs seen) ≡ or_first (lookup slot seen) (first_entry slot rs)
  unfolding accept_all first_entry
  accept_all-lookup slot [] seen = ground arith
  accept_all-lookup slot (r ∷ rs) seen = elim (Option-cases (entry_of r)) [
    | inl missing ↦ rw (missing, accept-none r seen missing) (accept_all-lookup slot rs seen)
    | inr ((k, fingerprint), found) ↦ rw found (
        accept_all-lookup slot rs (accept x r seen).0
        ∙ (ap (λ q. or_first (lookup slot q.0) (first_entry slot rs))
              (accept-some r seen k fingerprint found)
            ∙ settle-lookup slot k fingerprint seen (first_entry slot rs)))
  ]

  -- After any requests, a valid request is answered by the first valid one of them that has its slot: as new where
  -- there is none, as a replay where that has its fingerprint, and as a conflict where it has another.
  pub accept-verdict :
      (rs : List Json) (r : Json) (slot fingerprint : String)
      → entry_of r ≡ some (slot, fingerprint)
      → (accept x r (accept_all rs [])).1 ≡ verdict_of (first_entry slot rs) fingerprint
  unfolding verdict_of first_entry lookup
  accept-verdict rs r slot fingerprint h =
      let seen = accept_all rs [] in
      ap (λ q. q.1) (accept-some r seen slot fingerprint h)
      ∙ (settle-verdict (lookup slot seen) slot fingerprint seen
          ∙ ap (λ o. verdict_of o fingerprint) (accept_all-lookup slot rs []))

-- ===== src/Policy/Pairing/Approved.antt =====
-- The challenges that are approved (`_approve_pair` of services/ameme-mcp-mock/ameme_mcp_mock/core.py).
use ameme.Base.{
  string_eq, ℕ, ◌<◌, ◌≡◌, ◌≢◌, refl, arith, String, ◌+s◌, Bool, true, false, Option, none, some, [],
  ◌∷◌, ◌++◌, ◌||◌, not, leb, ok, sym, ap, ◌∙◌, not-eq-false, ==-refl,
}
use mathlib.Core.Path.{subst}
use ameme.Base.Dict.{Dict, lookup, insert, default, is_some, lookup-insert}
use ameme.Policy.State.{
  Times, ChallengeStatus, pending, used, lapsed, Challenge, active, Grant, Activity, World,
}
use ameme.Policy.Calls.{Act, next, on_refuse_if, on_read_time, returned}
use ameme.Policy.Grants.{is_missing, record_activity, is_given}
use ameme.Policy.Grants.Granted.{is_given-some}
use ameme.Policy.Pairing.{
  Decision, is_confirmed, confirms, is_pending, present, at_id, lapse_if, grant_of, spent,
  approve_pair,
}

-- What holds of a challenge that was approved, and of the grant that was made of it. The activity is not in the file.
pub record IsApproved (t : Times) (now : ℕ) (d : Decision) (w v : World) (g : Grant) : Type 0 where
  pub id : String
  pub challenge : Challenge
  pub named : d.id ≡ some id
  pub stored : lookup id w.memory.challenges ≡ some challenge
  pub open_ : challenge.status ≡ pending
  pub caller : d.caller_id ≡ some challenge.terms.caller_id
  pub ends : ℕ
  pub readable : t.parse challenge.expires_at ≡ some ends
  pub in_time : now < ends
  pub confirmed : is_confirmed d.confirmation ≡ true
  pub read_through : confirms challenge.terms_digest d.confirmation ≡ true
  pub terms : g.terms ≡ challenge.terms
  pub live : g.status ≡ active
  pub granted : lookup g.grant_id v.memory.grants ≡ some g
  pub closed : lookup id v.memory.challenges ≡ some (spent t now g.grant_id challenge)
  pub entry : Activity
  pub logged : v.memory.activity ≡ w.memory.activity ++ entry ∷ []
  pub forgotten : v.disk.activity ≡ w.memory.activity

pending_only : (s : ChallengeStatus) → not (is_pending s) ≡ false → s ≡ pending
pending_only pending h = refl
pending_only used h = cc h
pending_only lapsed h = cc h

-- What follows from a record that is there follows from the call.
pub on_present {κ} :
    {A B : Type 0} {P : Type κ} (o : Option A) (code message_key : String) (k : A → Act B)
    (w : World) {v : World} {r : B}
    → next (present o code message_key w) k ≡ (v, ok r)
    → ((a : A) → o ≡ some a → k a w ≡ (v, ok r) → P)
    → P
on_present none code message_key k w h then_ = absurd (cc h)
on_present (some a) code message_key k w h then_ = then_ a refl h

on_lapse_if {κ} :
    {B : Type 0} {P : Type κ} (t : Times) (now : ℕ) (b : Bool) (id : String) (c : Challenge)
    (k : Unit {0} → Act B) (w : World) {v : World} {r : B}
    → next (lapse_if t now b id c w) k ≡ (v, ok r)
    → (b ≡ false → k tt w ≡ (v, ok r) → P)
    → P
unfolding lapse_if
on_lapse_if t now true id c k w h then_ = absurd (cc h)
on_lapse_if t now false id c k w h then_ = then_ refl h

-- What is found at an optional id is at an id that is there.
pub at_id-some :
    {V : Type 0} (o : Option String) (d : Dict String V) (v : V)
    → at_id o d ≡ some v
    → (o ≡ some (default "" o)) × (lookup (default "" o) d ≡ some v)
unfolding lookup
at_id-some none d v h = cc h
at_id-some (some id) d v h = (refl, h)

-- What is written is read.
pub lookup-insert_same :
    {V : Type 0} (k : String) (v : V) (d : Dict String V) → lookup k (insert k v d) ≡ some v
lookup-insert_same k v d = rw (lookup-insert k k v d, ==-refl k) refl

-- A challenge is approved only while it is pending and in time, by its caller, with a confirmation that says so and
-- gives the digest of its terms. An active grant of these terms is stored then, and the challenge is spent; the
-- activity is in memory but not in the file, which was written before it.
pub approve_pair-IsApproved :
    (t : Times) (now : ℕ) (d : Decision) (w v : World) (g : Grant)
    → approve_pair t now d w ≡ (v, ok g)
    → IsApproved t now d w v g
unfolding approve_pair record_activity grant_of
approve_pair-IsApproved t now d w v g h =
    on_refuse_if (is_missing d.caller_id || is_missing d.id || not (is_some d.confirmation))
      "INVALID_ARGUMENT" "missing_required_fields" _ w h
      (λ _ h.
        on_present (at_id d.id w.memory.challenges) "AUTH_REQUIRED" "pairing_challenge_unknown" _ w
          h
          (λ c found h.
            on_refuse_if (not (is_pending c.status)) "PAIRING_REPLAY"
              "pairing_challenge_already_used" _ w h
              (λ open_ h.
                on_refuse_if (not (is_given c.terms.caller_id d.caller_id)) "AUTH_REQUIRED"
                  "pairing_caller_mismatch" _ w h
                  (λ caller h. on_read_time (t.parse c.expires_at) _ w h (λ ends readable h.
                    on_lapse_if t now (leb ends now) (default "" d.id) c _ w h (λ early h.
                      on_refuse_if (not (is_confirmed d.confirmation)) "CONSENT_REQUIRED"
                        "pairing_needs_explicit_confirmation" _ w h
                        (λ confirmed h.
                          on_refuse_if (not (confirms c.terms_digest d.confirmation)) "SCOPE_DENIED"
                            "confirmed_terms_do_not_match" _ w h
                            (λ digest h.
                              let (end_world, end_grant) = returned h in
                              let (named, stored) = at_id-some d.id w.memory.challenges c found in
                              subst (λ v. IsApproved t now d w v g) (sym end_world)
                                (subst (IsApproved t now d w _) end_grant (record {
                                  id = default "" d.id;
                                  challenge = c;
                                  named = named;
                                  stored = stored;
                                  open_ = pending_only c.status open_;
                                  caller = is_given-some c.terms.caller_id d.caller_id (
                                      not-eq-false (is_given c.terms.caller_id d.caller_id) caller);
                                  ends = ends;
                                  readable = readable;
                                  in_time = ground (arith, early);
                                  confirmed = not-eq-false (is_confirmed d.confirmation) confirmed;
                                  read_through =
                                      not-eq-false (confirms c.terms_digest d.confirmation) digest;
                                  terms = refl;
                                  live = refl;
                                  granted =
                                      lookup-insert_same ("grt" +s "_" +s t.uuid w.drawn)
                                        (grant_of t now ("grt" +s "_" +s t.uuid w.drawn) c)
                                        w.memory.grants;
                                  closed =
                                      lookup-insert_same (default "" d.id)
                                        (spent t now ("grt" +s "_" +s t.uuid w.drawn) c)
                                        w.memory.challenges;
                                  entry = _;
                                  logged = refl;
                                  forgotten = refl;
                                }))))))))))

-- A challenge that was approved is not approved again, with any arguments that name it and at any time.
pub approve_pair-once :
    (t : Times) (now later : ℕ) (d e : Decision) (w v u : World) (g f : Grant)
    → approve_pair t now d w ≡ (v, ok g)
    → e.id ≡ d.id
    → approve_pair t later e v ≢ (u, ok f)
approve_pair-once t now later d e w v u g f h same again =
    let first = approve_pair-IsApproved t now d w v g h in
    let second = approve_pair-IsApproved t later e v u f again in
    let ids : second.id ≡ first.id = cc (second.named, first.named, same) in
    let found = sym second.stored ∙ ap (λ k. lookup k v.memory.challenges) ids ∙ first.closed in
    let spent_one : second.challenge ≡ spent t now g.grant_id first.challenge = cc found in
    cc (second.open_, ap (λ c. c.status) spent_one)

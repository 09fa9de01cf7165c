-- ===== src/Policy/Pairing/Final.antt =====
-- A revocation is final: the calls of pairing, recall and authorization after it
-- (`pair` and `_authorize` of services/ameme-mcp-mock/ameme_mcp_mock/core.py).
use ameme.Base.{
  string_eq, nat_eq, ℕ, ◌≤◌, ◌≡◌, ◌≢◌, refl, arith, String, ◌+s◌, Bool, true, false, some, List, [],
  ◌∷◌, ◌||◌, not, if◌then◌else◌, ok, sym, ap,
}
use mathlib.Core.Path.{subst}
use ameme.Base.Dict.{lookup, default, is_some}
use ameme.Platform.{Platform}
use ameme.Policy.State.{Times, GrantStatus, active, revoked, expired, Grant, World}
use ameme.Policy.Calls.{on_refuse_if, returned, ◌>>◌, give, change, save}
use ameme.Policy.Grants.{
  is_missing, Ask, record_activity, end_grant, authorize, is_revoked, is_given,
}
use ameme.Policy.Grants.Granted.{authorize-IsGranted}
use ameme.Policy.Grants.Kept.{IsGone, authorize-Keeps}
use ameme.Store.State.{Store}
use ameme.Store.Visible.{Texts}
use ameme.Policy.Recall.{Search, recall}
use ameme.Policy.Recall.Kept.{recall-Keeps}
use ameme.Policy.Pairing.Kept.{begin_pair-Keeps, approve_pair-Keeps, revoke_pair-Keeps}
use ameme.Policy.Pairing.Approved.{on_present, at_id-some, lookup-insert_same}
use ameme.Policy.Pairing.{
  Offer, Decision, begin_pair, approve_pair, revoke_pair, revoke_grant, at_id, is_confirmed,
}

-- A call of `pair` or `recall`, or what another tool asks of a grant, at a time
pub data Call : Type 0 where
  begin : ℕ → Offer → Call
  approve : ℕ → Decision → Call
  revoke : ℕ → Decision → Call
  use_grant : ℕ → Ask → List String → List String → Bool → Call
  look_up : ℕ → Texts → Bool → Store → Search → Call

module _ (p : Platform) (t : Times) where
  -- The state after a call, whether it returns or raises
  unfoldable pub perform : Call → World → World
  perform (begin now o) w = (begin_pair p t now o w).0
  perform (approve now d) w = (approve_pair t now d w).0
  perform (revoke now d) w = (revoke_pair t now d w).0
  perform (use_grant now ask spaces types autonomous) w =
      (authorize t now ask spaces types autonomous w).0
  perform (look_up now x offline s r) w = (recall t x now offline s r w).0

  unfoldable pub perform_all : List Call → World → World
  perform_all [] w = w
  perform_all (c ∷ cs) w = perform_all cs (perform c w)

  module _ (id : String) (first : ℕ)
      (fresh : (n : ℕ) → first ≤ n → ("grt" +s "_" +s t.uuid n) ≢ id) where
    perform-IsGone : (c : Call) (w : World) → IsGone id first w → IsGone id first (perform c w)
    unfolding perform
    perform-IsGone (begin now o) w h = begin_pair-Keeps p t now id first o w h
    perform-IsGone (approve now d) w h = approve_pair-Keeps p t now id first d fresh w h
    perform-IsGone (revoke now d) w h = revoke_pair-Keeps p t now id first d w h
    perform-IsGone (use_grant now ask spaces types autonomous) w h =
        authorize-Keeps t now id first ask spaces types autonomous w h
    perform-IsGone (look_up now x offline s r) w h = recall-Keeps t now id first p x offline s r w h

    perform_all-IsGone :
        (cs : List Call) (w : World) → IsGone id first w → IsGone id first (perform_all cs w)
    unfolding perform_all
    perform_all-IsGone [] w h = h
    perform_all-IsGone (c ∷ cs) w h = perform_all-IsGone cs (perform c w) (perform-IsGone c w h)

revoked_only : (s : GrantStatus) → is_revoked s ≡ true → s ≡ revoked
revoked_only revoked h = refl
revoked_only active h = cc h
revoked_only expired h = cc h

revoke_grant-IsGone :
    (t : Times) (now : ℕ) (id : String) (g : Grant) (w v : World) (b : Bool)
    → lookup id w.memory.grants ≡ some g
    → revoke_grant t now id g w ≡ (v, ok b)
    → IsGone id v.drawn v
unfolding revoke_grant record_activity
revoke_grant-IsGone t now id g w v b found h = by_status (is_revoked g.status) refl h
  where
    gone_at :
        (u : World) (x : Grant)
        → lookup id u.memory.grants ≡ some x
        → x.status ≡ revoked
        → IsGone id u.drawn u
    gone_at u x stored status = record {
      grant = x;
      stored = stored;
      status = status;
      drawn = omega arith;
    }

    by_status :
        (c : Bool)
        → is_revoked g.status ≡ c
        → (if c
              then give true
              else change
                  (end_grant id (record g { status = revoked; revoked_at = some (t.iso now) }))
                >> (save
                    >> (record_activity t now g.terms.caller_id "revoke" g.terms.spaces
                          g.terms.data_types "GRANT_REVOKED" 0
                        >> give false)))
            w
          ≡ (v, ok b)
        → IsGone id v.drawn v
    by_status true before h =
        subst (λ u. IsGone id u.drawn u) (sym (returned h).0)
          (gone_at w g found (revoked_only g.status before))
    by_status false before h =
        let x = record g { status = revoked; revoked_at = some (t.iso now) } in
        subst (λ u. IsGone id u.drawn u) (sym (returned h).0)
          (gone_at _ x (lookup-insert_same id x w.memory.grants) refl)

revoke_pair-IsGone :
    (t : Times) (now : ℕ) (d : Decision) (id : String) (w v : World) (b : Bool)
    → revoke_pair t now d w ≡ (v, ok b)
    → d.id ≡ some id
    → IsGone id v.drawn v
unfolding revoke_pair
revoke_pair-IsGone t now d id w v b h named =
    on_refuse_if (is_missing d.caller_id || is_missing d.id || not (is_some d.confirmation))
      "INVALID_ARGUMENT" "missing_required_fields" _ w h
      (λ _ h.
        on_refuse_if (not (is_confirmed d.confirmation)) "CONSENT_REQUIRED"
          "revocation_needs_explicit_confirmation" _ w h
          (λ _ h.
            on_present (at_id d.id w.memory.grants) "AUTH_REQUIRED" "grant_not_visible" _ w h
              (λ g found h.
                on_refuse_if (not (is_given g.terms.caller_id d.caller_id)) "AUTH_REQUIRED"
                  "grant_not_visible" _ w h
                  (λ _ h.
                    subst (λ k. IsGone k v.drawn v) (ap (default "") named)
                      (revoke_grant-IsGone t now (default "" d.id) g w v b
                        (at_id-some d.id w.memory.grants g found).1 h)))))

-- After a grant was revoked no call under its id is authorized, whatever calls of pairing, authorization and recall
-- came in between, if no random id that is drawn from then on makes the id of the grant again.
pub revoke_pair-final :
    (p : Platform) (t : Times) (now later : ℕ) (d : Decision) (id : String) (w v u : World)
    (b : Bool) (cs : List Call) (ask : Ask) (spaces types : List String) (autonomous : Bool)
    (g : Grant)
    → revoke_pair t now d w ≡ (v, ok b)
    → d.id ≡ some id
    → ((n : ℕ) → v.drawn ≤ n → ("grt" +s "_" +s t.uuid n) ≢ id)
    → ask.grant_id ≡ some id
    → authorize t later ask spaces types autonomous (perform_all p t cs v) ≢ (u, ok g)
revoke_pair-final p t now later d id w v u b cs ask spaces types autonomous g h named fresh asked
      again =
    let gone =
      perform_all-IsGone p t id v.drawn fresh cs v (revoke_pair-IsGone t now d id w v b h named) in
    let (granted, _) =
      authorize-IsGranted t later ask spaces types autonomous (perform_all p t cs v) u g again in
    let ids : granted.id ≡ id = cc (granted.named, asked) in
    cc (
      granted.live,
      gone.status,
      gone.stored,
      granted.stored,
      ap (λ k. lookup k (perform_all p t cs v).memory.grants) ids,
    )

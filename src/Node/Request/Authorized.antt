-- ===== src/Node/Request/Authorized.antt =====
-- What a request that `authorize_request` lets through has of its grant
-- (packages/agent-local-node-protocol/ameme_agent_local_node_protocol/protocol.py).
use ameme.Base.{ap}
use ameme.Base.{
  string_eq, ◌≡◌, refl, String, true, false, List, [], ◌∷◌, ◌==◌, ◌||◌, not, ok, on_return,
  on_check, ok-injective, sym, ap, ◌∙◌, raise_if-passes, not-eq-false, ||-eq-false, inl, inr,
  ||-eq-true,
}
use mathlib.Core.Path.{subst}
use ameme.Base.Sets.{contains, is_subset}
use ameme.Json.{Json, Fields, null, bool, int, real, str, arr, obj}
use ameme.Json.Access.{at_key, is_text, names}
use ameme.Node.Codec.{Codec}
use ameme.Node.Checks.{
  auth_required, purpose_denied, space_denied, data_type_denied, invalid_request, exact_keys, enum,
  scope_list,
}
use ameme.Node.Request.{
  Control, Request, grant_keys, grant_states, validate_request, require_active, authorize,
  authorize_request,
}
use ameme.Node.Request.Scope.{IsBound, validate_request-IsBound}

-- A grant that covers the control part of a request.
pub record Covers (g : Json) (c : Control) : Type 0 where
  pub fields : Fields
  pub is_object : g ≡ obj fields
  pub active : is_text "active" (at_key "state" fields) ≡ true
  pub caller : is_text c.caller_id (at_key "caller_id" fields) ≡ true
  pub grant : is_text c.grant_id (at_key "grant_id" fields) ≡ true
  pub purpose :
      (granted : List String) × (scope_list false (at_key "purposes" fields) ≡ ok granted)
      × (contains c.purpose granted ≡ true)
  pub spaces :
      (granted : List String) × (scope_list false (at_key "spaces" fields) ≡ ok granted)
      × (is_subset c.spaces granted ≡ true)
  pub memory_types :
      (granted : List String) × (scope_list true (at_key "memory_types" fields) ≡ ok granted)
      × (is_subset c.memory_types granted ≡ true)

exact_keys-obj : (ks : List String) (v : Json) (fs : Fields) → exact_keys ks v ≡ ok fs → v ≡ obj fs
unfolding exact_keys
exact_keys-obj ks null fs h = cc h
exact_keys-obj ks (bool b) fs h = cc h
exact_keys-obj ks (int n) fs h = cc h
exact_keys-obj ks (real s) fs h = cc h
exact_keys-obj ks (str s) fs h = cc h
exact_keys-obj ks (arr xs) fs h = cc h
exact_keys-obj ks (obj gs) fs h =
    on_check (not (is_subset ks (names gs)) || not (is_subset (names gs) ks)) invalid_request _ h
      (λ _ h. cc h)

enum-text :
    (allowed : List String) (v : Json) (s : String)
    → enum allowed v ≡ ok s
    → (v ≡ str s) × (contains s allowed ≡ true)
unfolding enum
enum-text allowed null s h = cc h
enum-text allowed (bool b) s h = cc h
enum-text allowed (int n) s h = cc h
enum-text allowed (real t) s h = cc h
enum-text allowed (arr xs) s h = cc h
enum-text allowed (obj fs) s h = cc h
enum-text allowed (str t) s h = on_check (not (contains t allowed)) invalid_request _ h (λ passed h.
    let same : t ≡ s = cc h in
    (ap Json.str same, rw⁻¹ same (not-eq-false (contains t allowed) passed)))

require_active-state :
    (s : String) {u : Unit {0}}
    → contains s ("active" ∷ "revoked" ∷ "expired" ∷ []) ≡ true
    → require_active s ≡ ok u
    → s ≡ "active"
unfolding require_active contains
require_active-state s {u} inside h =
    let refused : (t : String) → t ≡ s → (require_active t ≡ ok u → t ≡ "active") → s ≡ "active" =
      λ t same k. (sym same) ∙ k (subst (λ v. require_active v ≡ ok u) (sym same) h) in
    elim (||-eq-true ("active" == s) ("revoked" == s || ("expired" == s || false)) inside) [
      | inl same ↦ sym ((string_eq.same_iff "active" s).0 same)
      | inr others ↦ elim (||-eq-true ("revoked" == s) ("expired" == s || false) others) [
        | inl revoked ↦ refused "revoked" ((string_eq.same_iff "revoked" s).0 revoked) (λ h. cc h)
        | inr last ↦ elim (||-eq-true ("expired" == s) false last) [
          | inl expired ↦ refused "expired" ((string_eq.same_iff "expired" s).0 expired) (λ h. cc h)
          | inr none ↦ cc none
        ]
      ]
    ]

authorize-Covers : (c : Control) (g : Json) {u : Unit {0}} → authorize c g ≡ ok u → Covers g c
unfolding authorize
authorize-Covers c g h = on_return (exact_keys grant_keys g) _ h (λ fs keyed h.
    let caller = is_text c.caller_id (at_key "caller_id" fs) in
    let grant = is_text c.grant_id (at_key "grant_id" fs) in
    on_check (not caller || not grant) auth_required _ h (λ known h.
      on_return (enum grant_states (at_key "state" fs)) _ h (λ state stated h.
        on_return (require_active state) _ h (λ _ active h.
          on_return (scope_list false (at_key "purposes" fs)) _ h (λ purposes granted h.
            on_return (scope_list false (at_key "spaces" fs)) _ h (λ spaces granted' h.
              on_return (scope_list true (at_key "memory_types" fs)) _ h (λ types granted'' h.
                on_check (not (contains c.purpose purposes)) purpose_denied _ h (λ purpose h.
                  on_check (not (is_subset c.spaces spaces)) space_denied _ h (λ space h.
                    let (text, inside) = enum-text grant_states (at_key "state" fs) state stated in
                    let (same_caller, same_grant) = ||-eq-false (not caller) (not grant) known in
                    record {
                      fields = fs;
                      is_object = exact_keys-obj grant_keys g fs keyed;
                      active = rw (text, require_active-state state inside active) refl;
                      caller = not-eq-false caller same_caller;
                      grant = not-eq-false grant same_grant;
                      purpose =
                          (purposes, granted, not-eq-false (contains c.purpose purposes) purpose);
                      spaces = (spaces, granted', not-eq-false (is_subset c.spaces spaces) space);
                      memory_types = (
                        types,
                        granted'',
                        not-eq-false (is_subset c.memory_types types) (
                            raise_if-passes (not (is_subset c.memory_types types)) data_type_denied
                              h),
                      );
                    })))))))))

-- A request that `authorize_request` lets through is bound to its payload, and its grant is active, names its caller
-- and itself, and holds its purpose, all of its spaces and all of its types of memory.
pub authorize_request-Covers :
    (x : Codec) (request grant : Json) (r : Request)
    → authorize_request x request grant ≡ ok r
    → IsBound x r × Covers grant r.control × (r.document ≡ request)
unfolding authorize_request
authorize_request-Covers x request grant r h =
    on_return (validate_request x request) _ h (λ validated valid h.
      on_return (authorize validated.control grant) _ h (λ _ authorized h.
        let (bound, document) = validate_request-IsBound x request validated valid in
        subst (λ r. IsBound x r × Covers grant r.control × (r.document ≡ request))
          (ok-injective validated r h)
          (bound, authorize-Covers validated.control grant authorized, document)))

-- ===== src/Sync/Harness/Tests.antt =====
-- Runs of small harnesses, and the theorem on them at an input that meets its conditions.
use ameme.Sync.State.{sync_sequence_gap}
use ameme.Base.{String}
use ameme.Base.{ok}
use ameme.Base.{◌≢◌}
use ameme.Sync.State.{Pending}
use ameme.Sync.State.{pending_at}
use ameme.Base.{string_eq, nat_eq, ◌≡◌, refl, true, false, none, some, List, [], ◌∷◌}
use ameme.Base.Int.{pos, int_eq}
use ameme.Base.Dict.{Dict, lookup, lookup2, insert, insert2, has_key, erase}
use ameme.Base.Sets.{contains, add}
use ameme.Json.{end, get, canonical_json}
use ameme.Platform.{Platform}
use ameme.Sync.Envelope.{Envelope, tombstone, digest}
use ameme.Sync.State.{Peer, new_peer, digest_of}
use ameme.Sync.Semantics.{apply_semantics}
use ameme.Sync.Receive.{receive, drain}
use ameme.Sync.Harness.{Harness, deliver, set_online, replay_offline}
use ameme.Sync.Harness.Offline.{IsHeld, IsReplayed, deliver_each, replay_delivers_what_waited}
use ameme.Sync.Harness.Evaluate.{
  convergence, Evaluation, evaluate, evaluate_peers, peers_of, peer_ids,
}
use ameme.Sync.Harness.Settled.{IsSettled, evaluate-IsSettled, evaluate-waiting}
use ameme.Sync.Harness.Deletion.{FalseReceipt, refused_tombstone_is_acknowledged}

abbrev platform : Platform
platform = record { sha256_hex = λ s. s; str_of_container = λ v. "{}" }

abbrev deletion : Envelope
deletion = record {
  schema_version = pos 1;
  sync_envelope_id = "syn_phone_1";
  space_id = "space";
  device_id = "phone";
  device_sequence = 1;
  operation = tombstone;
  object_type = "event";
  object_id = "evt_1";
  idempotency_key = "idem_phone_1";
  created_at = "2026-01-01T00:00:01Z";
  payload = end;
  base_revision = none;
}

-- A peer that has revoked the phone, before and after the phone's deletion comes in.
abbrev revoking : Peer
revoking = record (new_peer "laptop" "space" (pos 1 ∷ [])) { revoked_devices = "phone" ∷ [] }

refusing : Peer
refusing = (receive platform deletion 1 revoking).0

abbrev harness : Harness
harness = record {
  seed = 20260714;
  peers = ("laptop", refusing) ∷ ("phone", new_peer "phone" "space" (pos 1 ∷ [])) ∷ [];
  tick = 1;
  offline_peers = [];
  offline_queue = [];
  deletion_required = [];
  deletion_receipts = [];
  evidence = [];
}

is_there : lookup "laptop" harness.peers ≡ some refusing
unfolding lookup
is_there = refl

is_online : contains "laptop" harness.offline_peers ≡ false
unfolding contains
is_online = refl

is_plain : get "required_peer_ids" deletion.payload ≡ none
unfolding get
is_plain = refl

same_space : deletion.space_id ≡ refusing.space_id
unfolding refusing receive apply_semantics drain contains lookup add insert lookup2 insert2
same_space = refl

is_seen : digest_of refusing "phone" 1 ≡ some (digest platform deletion)
unfolding refusing receive apply_semantics drain contains lookup add insert lookup2 insert2
is_seen = refl

is_refused : has_key "evt_1" refusing.tombstones ≡ false
unfolding refusing receive apply_semantics drain contains lookup add insert lookup2 insert2
is_refused = refl

refused_tombstone_is_acknowledged_example :
    FalseReceipt platform deletion "laptop" (deliver platform deletion "laptop" harness)
refused_tombstone_is_acknowledged_example =
    refused_tombstone_is_acknowledged platform deletion "laptop" harness refusing is_there is_online
      refl is_plain same_space is_seen is_refused

abbrev sleeping : Harness
sleeping = record harness { offline_peers = "laptop" ∷ [] }

is_offline : contains "laptop" sleeping.offline_peers ≡ true
unfolding contains
is_offline = refl

abbrev two : List Envelope
two = deletion ∷ deletion ∷ []

-- The laptop with what was delivered to it while it was offline, and back online.
abbrev awake : Harness
awake = set_online platform "laptop" true (deliver_each platform two "laptop" sleeping)

replay_delivers_what_waited_example :
    IsHeld two "laptop" sleeping (deliver_each platform two "laptop" sleeping)
    × IsReplayed platform "laptop"
        (record awake { offline_queue = erase "laptop" awake.offline_queue })
        two
        (replay_offline platform "laptop" false awake)
unfolding lookup
replay_delivers_what_waited_example =
    replay_delivers_what_waited platform two "laptop" sleeping is_offline

abbrev fresh_peer : String → Peer
fresh_peer id = new_peer id "space" (pos 1 ∷ [])

abbrev both_of : Peer → Dict String Peer
both_of s = ("laptop", s) ∷ ("phone", fresh_peer "phone") ∷ []

abbrev fresh : Harness
fresh = record harness { peers = both_of (fresh_peer "laptop") }

abbrev agreed : Evaluation
unfolding evaluate_peers
agreed = evaluate_peers platform fresh (both_of (fresh_peer "laptop"))

agreed-is_found : evaluate platform none fresh ≡ ok agreed
unfolding evaluate
agreed-is_found = refl

agreed-is_convergence : agreed.outcome ≡ convergence
unfolding evaluate_peers canonical_json
agreed-is_convergence = refl

evaluate-IsSettled_example :
    (found : Dict String Peer) × (peers_of (peer_ids none fresh) fresh [] ≡ ok found)
    × IsSettled platform fresh found
evaluate-IsSettled_example =
    evaluate-IsSettled platform none fresh agreed agreed-is_found agreed-is_convergence

-- The phone's third envelope has come in before the second.
abbrev third : Pending
third = record {
  envelope = record deletion { device_sequence = 3 };
  preapplied = false;
  semantic_applied = false;
  code = sync_sequence_gap;
}

abbrev gapped : Peer
gapped = record (fresh_peer "laptop") {
  cursors = ("phone", 1) ∷ [];
  pending = ("phone", (3, third) ∷ []) ∷ [];
}

abbrev waiting : Harness
waiting = record harness { peers = both_of gapped }

gapped-is_found : peers_of (peer_ids none waiting) waiting [] ≡ ok (both_of gapped)
unfolding peers_of peer_ids
gapped-is_found = refl

gapped-waits : pending_at gapped "phone" 3 ≡ some third
unfolding lookup2 lookup
gapped-waits = refl

laptop-is_there : lookup "laptop" (both_of gapped) ≡ some gapped
unfolding lookup
laptop-is_there = refl

abbrev unsettled : Evaluation
unfolding evaluate_peers
unsettled = evaluate_peers platform waiting (both_of gapped)

unsettled-is_found : evaluate platform none waiting ≡ ok unsettled
unfolding evaluate
unsettled-is_found = refl

evaluate-waiting_example : unsettled.outcome ≢ convergence
evaluate-waiting_example =
    evaluate-waiting platform none waiting (both_of gapped) unsettled "laptop" "phone" 3 third
      gapped gapped-is_found laptop-is_there gapped-waits unsettled-is_found

-- ===== src/Sync/Report/Tests.antt =====
-- The report of a small peer, and its theorem at an input that meets its condition.
use ameme.Base.{string_eq, nat_eq, ◌+◌, ◌+s◌, ◌≡◌, refl, true, false, none, some, [], ◌∷◌}
use ameme.Base.Int.{pos}
use ameme.Base.Dict.{lookup, lookup2}
use ameme.Base.Sets.{contains, add}
use ameme.Json.{end}
use ameme.Base.Text.{decimal}
use ameme.Platform.{Platform}
use ameme.Sync.Envelope.{deletion_ack}
use ameme.Sync.State.{Peer, Pending, new_peer, cursor_of, pending_at, sync_sequence_gap}
use ameme.Sync.Report.{gap_reason, partial_reasons}
use ameme.Sync.Report.Reasons.{partial_reasons-waiting}

abbrev platform : Platform
platform = record { sha256_hex = λ s. s; str_of_container = λ v. "{}" }

abbrev waiting : Pending
waiting = record {
  envelope = record {
    schema_version = pos 1;
    sync_envelope_id = "syn_phone_3";
    space_id = "space";
    device_id = "phone";
    device_sequence = 3;
    operation = deletion_ack;
    object_type = "event";
    object_id = "evt_1";
    idempotency_key = "idem_phone_3";
    created_at = "2026-01-01T00:00:03Z";
    payload = end;
    base_revision = none;
  };
  preapplied = false;
  semantic_applied = false;
  code = sync_sequence_gap;
}

abbrev gapped : Peer
gapped = record (new_peer "laptop" "space" (pos 1 ∷ [])) {
  cursors = ("phone", 1) ∷ [];
  pending = ("phone", (3, waiting) ∷ []) ∷ [];
}

waiting_at : pending_at gapped "phone" 3 ≡ some waiting
unfolding lookup2 lookup
waiting_at = refl

gap_reason_run : gap_reason gapped "phone" ≡ "sequence_gap:phone:2"
unfolding gap_reason lookup
gap_reason_run = refl

partial_reasons_run : partial_reasons platform gapped ≡ "sequence_gap:phone:2" ∷ []
unfolding partial_reasons gap_reason lookup add contains
partial_reasons_run = refl

partial_reasons-waiting_example :
    contains
      ("sequence_gap:" +s "phone" +s ":" +s decimal (cursor_of gapped "phone" + 1))
      (partial_reasons platform gapped)
    ≡ true
partial_reasons-waiting_example =
    partial_reasons-waiting platform "phone" 3 waiting gapped waiting_at

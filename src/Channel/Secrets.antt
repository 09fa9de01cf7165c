-- ===== src/Channel/Secrets.antt =====
-- What the channel takes from Python's library beside the codec: HMAC with SHA-256, in hexadecimal and as bytes,
-- base64, and whether an IP address is the unspecified one (`ipaddress.ip_address`; none where that raises).
use ameme.Base.{String, Bool, Option}
use ameme.Base.Bytes.{Bytes}

pub record Secrets : Type 0 where
  pub hmac_hex : Bytes → Bytes → String
  pub hmac_digest : Bytes → Bytes → Bytes
  pub b64encode : Bytes → String
  pub b64decode : String → Option Bytes
  pub is_unspecified : String → Option Bool

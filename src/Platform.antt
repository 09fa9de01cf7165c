-- ===== src/Platform.antt =====
-- What the program takes from outside its own sources and the model does not define: SHA-256 of the
-- UTF-8 of a text, in hexadecimal, and the text that `str` gives a container (a `FrozenMap` or a tuple).
use ameme.Base.{String}
use ameme.Json.{Json}

pub record Platform : Type 0 where
  pub sha256_hex : String → String
  pub str_of_container : Json → String

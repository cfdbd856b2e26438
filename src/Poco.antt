-- ===== src/Poco.antt =====
-- The functions of the Poco C++ libraries that the source calls, taken as parameters: their code is
-- not part of the repository. Nothing is assumed of them here; a theorem that relies on what Poco
-- documents says so by a hypothesis of its own.
use wlan_cloud_ucentralfms.Common.{Text, List}

pub record Poco : Type 0 where
  -- Poco::StringTokenizer(S, Separators, TOK_TRIM)
  pub tokenize_trim : Text → Text → List Text
  -- Poco::StringTokenizer(S, Separators)
  pub tokenize : Text → Text → List Text
  -- Poco::toLower
  pub to_lower : Text → Text

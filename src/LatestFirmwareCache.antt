-- ===== src/LatestFirmwareCache.antt =====
-- src/LatestFirmwareCache.{h,cpp}: for each device type the newest firmware that was announced, and
-- the newest release candidate. A method takes the singleton's fields and returns them; the mutex
-- makes each method one step. An out parameter with a Boolean result is an `Option`.
pub mod History
pub mod Newest
mod Tests
use wlan_cloud_ucentralfms.Common.{
  ℕ, Text, codes, Bool, true, false, not, if◌then◌else◌, ◌==◌, leb, num_Eq, text_Eq, List, [], ◌∷◌,
  length, get_or, take, Option, none, some, Map, lookup, insert, set_insert,
}
use wlan_cloud_ucentralfms.Poco.{Poco}

pub record LatestFirmwareCacheEntry : Type 0 where
  pub id : Text
  pub time_stamp : ℕ
  pub revision : Text

pub record LatestFirmwareCache : Type 0 where
  pub cache : Map LatestFirmwareCacheEntry
  pub rc_cache : Map LatestFirmwareCacheEntry
  pub revision_set : List Text
  pub device_set : List Text

abbrev pub empty_cache : LatestFirmwareCache
empty_cache = record { cache = []; rc_cache = []; revision_set = []; device_set = [] }

-- Tokens[1].substr(0, 5) == "TIP-v", when there are two tokens.
unfoldable pub is_rc : Poco → Text → Bool
is_rc poco revision =
    let tokens = poco.tokenize_trim revision (codes "/") in
    if length tokens == 2 then take 5 (get_or tokens 1 []) == codes "TIP-v" else false

-- (E == end()) || (TimeStamp >= E->second.TimeStamp)
unfoldable pub replaces : ℕ → Option LatestFirmwareCacheEntry → Bool
replaces time_stamp none = true
replaces time_stamp (some e) = leb e.time_stamp time_stamp

unfoldable pub offer :
    Text → LatestFirmwareCacheEntry → Map LatestFirmwareCacheEntry → Map LatestFirmwareCacheEntry
unfolding replaces
offer device_type entry m =
    if replaces entry.time_stamp (lookup device_type m) then insert device_type entry m else m

unfoldable pub add_to_cache :
    Poco → Text → Text → Text → ℕ → LatestFirmwareCache → LatestFirmwareCache × Bool
unfolding offer
add_to_cache poco device_type revision id time_stamp c =
    let entry : LatestFirmwareCacheEntry = record {
      id = id;
      time_stamp = time_stamp;
      revision = revision;
    } in
    let c' : LatestFirmwareCache = record c {
      cache = offer device_type entry c.cache;
      revision_set = set_insert revision c.revision_set;
      device_set = set_insert device_type c.device_set;
    } in
    if not (is_rc poco revision)
    then (c', true)
    else (record c' { rc_cache = offer device_type entry c.rc_cache }, true)

unfoldable pub find_latest_firmware : Text → LatestFirmwareCache → Option LatestFirmwareCacheEntry
find_latest_firmware device_type c = lookup device_type c.cache

unfoldable pub find_latest_rc_only_firmware :
    Text → LatestFirmwareCache → Option LatestFirmwareCacheEntry
find_latest_rc_only_firmware device_type c = lookup device_type c.rc_cache

-- end() gives false, and an entry the comparison of revisions.
unfoldable pub has_revision : Option LatestFirmwareCacheEntry → Text → Bool
has_revision none revision = false
has_revision (some e) revision = e.revision == revision

unfoldable pub is_latest : Text → Text → LatestFirmwareCache → Bool
unfolding has_revision
is_latest device_type revision c = has_revision (lookup device_type c.cache) revision

unfoldable pub is_latest_rc_only : Text → Text → LatestFirmwareCache → Bool
unfolding has_revision
is_latest_rc_only device_type revision c = has_revision (lookup device_type c.rc_cache) revision

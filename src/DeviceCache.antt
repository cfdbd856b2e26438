-- ===== src/DeviceCache.antt =====
-- src/DeviceCache.{h,cpp}: what was last heard of each device.
use wlan_cloud_ucentralfms.Common.{
  ◌≡◌, refl, ap, ◌∙◌, Option, none, some, if◌then◌else◌, ◌==◌, num_Eq, Text, text_Eq, Map, lookup,
  insert, lookup-insert,
}

pub record DeviceCacheEntry : Type 0 where
  pub device_type : Text
  pub host : Text
  pub revision : Text

-- The entry of a device before, when there was one, with the three fields written over.
abbrev pub refreshed : Text → Text → Text → Option DeviceCacheEntry → DeviceCacheEntry
refreshed device_type host revision none = record {
  device_type = device_type;
  host = host;
  revision = revision;
}
refreshed device_type host revision (some e) = record e {
  device_type = device_type;
  host = host;
  revision = revision;
}

-- DeviceCache::AddToCache
unfoldable pub remember : Text → Text → Text → Text → Map DeviceCacheEntry → Map DeviceCacheEntry
remember serial_number device_type host revision m =
    insert serial_number (refreshed device_type host revision (lookup serial_number m)) m

-- DeviceCache::GetDevice
unfoldable pub recall : Text → Map DeviceCacheEntry → Option DeviceCacheEntry
recall serial_number m = lookup serial_number m

refreshed-same :
    (device_type host revision : Text) (o : Option DeviceCacheEntry)
    → refreshed device_type host revision o
      ≡ record { device_type = device_type; host = host; revision = revision }
refreshed-same device_type host revision none = refl
refreshed-same device_type host revision (some e) = refl

-- After AddToCache, GetDevice gives the new values for the device, and for every other device what it
-- gave before.
pub recall-remember :
    (serial_number device_type host revision other : Text) (m : Map DeviceCacheEntry)
    → recall other (remember serial_number device_type host revision m) ≡ (
        if serial_number == other
        then some (record { device_type = device_type; host = host; revision = revision })
        else recall other m)
unfolding recall remember
recall-remember serial_number device_type host revision other m =
    lookup-insert serial_number other (refreshed device_type host revision (lookup serial_number m))
      m
    ∙ ap (λ e. if serial_number == other then some e else lookup other m)
        (refreshed-same device_type host revision (lookup serial_number m))

-- ===== src/AutoUpdater/Upgrades.antt =====
-- Which upgrade commands the timer sends.
use wlan_cloud_ucentralfms.Common.{
  ℕ, zero, suc, ◌+◌, ◌≤◌, ◌≡◌, refl, sym, ap, ◌∙◌, ◌≢◌, Bool, true, false, Option, none, some, List,
  [], ◌∷◌, ◌++◌, append-nil, append_assoc, arith, if◌then◌else◌, ◌>>=◌, num_Eq, ◌==◌, length, All,
  Text, codes, text_eq, text_eq_iff, text_Eq, Map, lookup, insert, lookup-insert,
}
use wlan_cloud_ucentralfms.FmsObjects.{Firmware}
use wlan_cloud_ucentralfms.LatestFirmwareCache.{LatestFirmwareCacheEntry, find_latest_firmware}
use wlan_cloud_ucentralfms.Storage.Firmwares.{get_firmware}
use wlan_cloud_ucentralfms.AutoUpdater.{
  Answer, get_firmware_options, SerialCache, Updater, needs_check, command_for, latest_details,
  upgrade, checked, process, turns, on_timer, found, refused, failed,
}
use wlan_cloud_ucentralfms.AutoUpdater.Turns.{process-turn}
use wlan_cloud_ucentralfms.Service.{Env, State}

module _ (env : Env) (s : State env) (clock : ℕ → ℕ) (provisioning : ℕ → Text → Answer) where
  -- The firmware of the table that the cache names as the latest of a type.
  abbrev pub latest_firmware : Text → Option Firmware
  latest_firmware device_type =
      find_latest_firmware device_type s.latest_cache >>= λ e. get_firmware env e.id s

  -- The command of a device whose provisioning service gave the answer, with that firmware.
  abbrev pub wanted : Text → Answer → Option Firmware → List (Text × Text)
  wanted serial_number (found (some firmware_upgrade) rc_only) (some f) =
      if firmware_upgrade == codes "no" then [] else (serial_number, f.uri) ∷ []
  wanted serial_number (found (some firmware_upgrade) rc_only) none = []
  wanted serial_number (found none rc_only) f = []
  wanted serial_number refused f = []
  wanted serial_number failed f = []

  -- The commands of a list of devices, one turn for each.
  unfoldable pub upgrades : ℕ → List (Text × Text) → List (Text × Text)
  upgrades turn [] = []
  upgrades turn ((serial_number, device_type) ∷ q) =
      wanted serial_number (provisioning turn serial_number) (latest_firmware device_type)
      ++ upgrades (turn + 1) q

  -- The commands of a turn whose settings were fetched.
  abbrev wanted_by : Text → Text → Option (Bool × Text × Bool) → List (Text × Text)
  wanted_by serial_number device_type none = []
  wanted_by serial_number device_type (some (ok, firmware_upgrade, rc_only)) =
      upgrade env s serial_number device_type firmware_upgrade

  command_for-latest_firmware :
      (serial_number device_type : Text) (e : Option LatestFirmwareCacheEntry)
      → command_for env s serial_number (latest_details env s e)
        ≡ command_for env s serial_number (e >>= λ e. get_firmware env e.id s)
  command_for-latest_firmware serial_number device_type none = refl
  command_for-latest_firmware serial_number device_type (some e) = refl

  wanted-found :
      (serial_number firmware_upgrade : Text) (rc_only : Option Text) (f : Option Firmware)
      → (if firmware_upgrade == codes "no" then [] else command_for env s serial_number f)
        ≡ wanted serial_number (found (some firmware_upgrade) rc_only) f
  wanted-found serial_number firmware_upgrade rc_only none = ground arith
  wanted-found serial_number firmware_upgrade rc_only (some f) = refl

  wanted_by-wanted :
      (serial_number device_type : Text) (a : Answer)
      → wanted_by serial_number device_type (get_firmware_options a)
        ≡ wanted serial_number a (latest_firmware device_type)
  unfolding get_firmware_options upgrade text_eq
  wanted_by-wanted serial_number device_type (found (some firmware_upgrade) rc_only) =
      rw
        (command_for-latest_firmware serial_number device_type
          (find_latest_firmware device_type s.latest_cache))
        (wanted-found serial_number firmware_upgrade rc_only (latest_firmware device_type))
  wanted_by-wanted serial_number device_type (found none rc_only) = refl
  wanted_by-wanted serial_number device_type refused = refl
  wanted_by-wanted serial_number device_type failed = refl

-- No device stands twice in the queue, and none is in the cache.
unfoldable pub Distinct : List (Text × Text) → Type 0
Distinct [] = Unit
Distinct (e ∷ q) = All (λ f. e.0 ≢ f.0) q × Distinct q

unfoldable pub Uncached : Map SerialCache → List (Text × Text) → Type 0
Uncached cache = All (λ e. lookup e.0 cache ≡ none)

Uncached-insert :
    (k : Text) (c : SerialCache) (cache : Map SerialCache) (q : List (Text × Text))
    → Uncached cache q
    → All (λ f. k ≢ f.0) q
    → Uncached (insert k c cache) q
unfolding Uncached
Uncached-insert k c cache [] fresh apart = tt
Uncached-insert k c cache (e ∷ q) fresh apart = (
  lookup-insert k e.0 c cache ∙ other_key (text_eq k e.0) (text_eq_iff k e.0).0,
  Uncached-insert k c cache q fresh.1 apart.1,
)
  where
    other_key : (b : Bool) → (b ≡ true → k ≡ e.0) → (if b then some c else lookup e.0 cache) ≡ none
    other_key true same_key = absurd (apart.0 (same_key refl))
    other_key false same_key = fresh.0

module _ (env : Env) (s : State env) (clock : ℕ → ℕ) (provisioning : ℕ → Text → Answer) where
  checked-Uncached :
      (serial_number device_type : Text) (o : Option (Bool × Text × Bool)) (u : Updater)
      (q : List (Text × Text))
      → Uncached u.cache q
      → All (λ f. serial_number ≢ f.0) q
      → Uncached (checked env s clock provisioning serial_number device_type o u).cache q
  checked-Uncached serial_number device_type none u q fresh apart = fresh
  checked-Uncached serial_number device_type (some (ok, firmware_upgrade, rc_only)) u q fresh
        apart =
      Uncached-insert serial_number _ u.cache q fresh apart

  checked-commands :
      (serial_number device_type : Text) (o : Option (Bool × Text × Bool)) (u : Updater)
      → (checked env s clock provisioning serial_number device_type o u).commands
        ≡ u.commands ++ wanted_by env s clock provisioning serial_number device_type o
  checked-commands serial_number device_type none u = sym (append-nil u.commands)
  checked-commands serial_number device_type (some (ok, firmware_upgrade, rc_only)) u = refl

  -- A turn for a device that is not in the cache goes by the answer.
  process-checked :
      (serial_number device_type : Text) (u : Updater)
      → lookup serial_number u.cache ≡ none
      → process env s clock provisioning (serial_number, device_type) u ≡ (
          let u' =
            checked env s clock provisioning serial_number device_type
              (get_firmware_options (provisioning u.turn serial_number))
              u in
          record u' { turn = u'.turn + 1 })
  unfolding process needs_check
  process-checked serial_number device_type u absent = rw absent refl

  turns-commands :
      (n : ℕ) (q : List (Text × Text)) (u : Updater)
      → length q ≤ n
      → Distinct q
      → Uncached u.cache q
      → (turns env s clock provisioning n q u).commands
        ≡ u.commands ++ upgrades env s clock provisioning u.turn q
  unfolding turns upgrades Distinct Uncached
  turns-commands n [] u enough distinct fresh = sym (append-nil u.commands)
  turns-commands zero (e ∷ q) u enough distinct fresh = absurd (omega (arith, enough))
  turns-commands (suc n) ((serial_number, device_type) ∷ q) u enough distinct fresh =
      let options = get_firmware_options (provisioning u.turn serial_number) in
      let wanted_now =
        wanted env s clock provisioning serial_number (provisioning u.turn serial_number)
          (latest_firmware env s clock provisioning device_type) in
      let turned = process-checked serial_number device_type u fresh.0 in
      let u' = process env s clock provisioning (serial_number, device_type) u in
      let uncached : Uncached u'.cache q =
        rw turned (checked-Uncached serial_number device_type options u q fresh.1 distinct.0) in
      let sent : u'.commands ≡ u.commands ++ wanted_now =
        ap (λ (v : Updater). v.commands) turned
        ∙ checked-commands serial_number device_type options u
        ∙ ap (λ l. u.commands ++ l)
            (wanted_by-wanted env s clock provisioning serial_number device_type
              (provisioning u.turn serial_number)) in
      turns-commands n q u' (omega (arith, enough)) distinct.1 uncached
      ∙ ap (λ t. u'.commands ++ upgrades env s clock provisioning t q)
          (process-turn env s clock provisioning (serial_number, device_type) u)
      ∙ ap (λ l. l ++ upgrades env s clock provisioning (u.turn + 1) q) sent
      ∙ append_assoc u.commands wanted_now (upgrades env s clock provisioning (u.turn + 1) q)

  -- The timer with enough turns, a queue that names no device twice and none that is in the cache: it
  -- sends, in the order of the queue, one command for every device for which the provisioning service
  -- answers with an option firmwareUpgrade other than "no" and whose type has a latest firmware in the
  -- table: the device's serial number with the URI of that firmware. It sends no other command.
  pub on_timer-commands :
      (n : ℕ) (u : Updater)
      → length u.queue ≤ n
      → Distinct u.queue
      → Uncached u.cache u.queue
      → (on_timer env s clock provisioning n u).commands
        ≡ u.commands ++ upgrades env s clock provisioning u.turn u.queue
  unfolding on_timer
  on_timer-commands n u enough distinct fresh =
      turns-commands n u.queue (record u { running = true }) enough distinct fresh

-- ===== src/ManifestCreator/Refresh.antt =====
-- ManifestCreator::RunUpdateTask, and the thread that it starts for run (src/ManifestCreator.cpp), as
-- events that come in any order: a request may come between any two steps of the thread. While run is
-- under way nothing else changes the service here.
pub mod Laws
use wlan_cloud_ucentralfms.Common.{
  ℕ, Bool, true, false, Option, none, some, List, [], ◌∷◌, if◌then◌else◌, Text,
}
use wlan_cloud_ucentralfms.Json.{Json}
use wlan_cloud_ucentralfms.Service.{Env, State}
use wlan_cloud_ucentralfms.Storage.Firmwares.{remove_old_firmware}
use wlan_cloud_ucentralfms.ManifestCreator.{S3BucketContent, S3Client}
use wlan_cloud_ucentralfms.ManifestCreator.Bucket.{
  ReadOutcome, read_bucket, finished, failed, thrown, out_of_fuel,
}
use wlan_cloud_ucentralfms.ManifestCreator.Manifest.{compute_manifest, add_manifest_to_db}

-- Where RunnerThread_ is: nowhere; before the end of ReadBucket; behind it, with the bucket; behind
-- AddManifestToDB and LastUpdate_; or behind UpdateRunning_.clear, with run not yet returned.
pub data Phase : Type 0 where
  no_thread in_read stored cleared : Phase
  has_bucket : S3BucketContent → Phase

-- A call of RunUpdateTask, or a step of the thread: RemoveOldFirmware and ReadBucket, with what the S3
-- client and Running_ are to them and the number of pages that bounds the loop; ComputeManifest,
-- AddManifestToDB and the setting of LastUpdate_; UpdateRunning_.clear; and the end of run.
pub data RefreshEvent : Type 0 where
  requested : RefreshEvent
  thread_reads : S3Client → (ℕ → Bool) → ℕ → RefreshEvent
  thread_stores thread_clears thread_returns : RefreshEvent

-- What RunUpdateTask comes to: true, false, or the exception of RunnerThread_.start.
pub data TaskResult : Type 0 where
  accepted refused not_started : TaskResult

-- UpdateRunning_ and LastUpdate_, the thread, and the rest of the service.
pub record Refresh (env : Env) : Type 0 where
  pub update_running : Bool
  pub last_update : ℕ
  pub phase : Phase
  pub service : State env

module _ (env : Env) where
  -- Poco::Thread::start throws when the thread is still running; the flag is set before.
  abbrev pub start_thread : Phase → Refresh env → TaskResult × Refresh env
  start_thread no_thread r = (accepted, record r { update_running = true; phase = in_read })
  start_thread in_read r = (not_started, record r { update_running = true })
  start_thread (has_bucket b) r = (not_started, record r { update_running = true })
  start_thread stored r = (not_started, record r { update_running = true })
  start_thread cleared r = (not_started, record r { update_running = true })

  -- RunUpdateTask, which the timer and the REST API call.
  unfoldable pub run_update_task : Refresh env → TaskResult × Refresh env
  run_update_task r =
      let started = start_thread r.phase r in if r.update_running then (refused, r) else started

  -- An exception ends the thread and leaves UpdateRunning_ as it is. Running out of fuel says that the
  -- bound was too small for the bucket: then nothing is said of the step.
  abbrev pub has_read : ReadOutcome → State env → Refresh env → Refresh env
  has_read (finished b) s r = record r { phase = has_bucket b; service = s }
  has_read (failed b) s r = record r { phase = has_bucket b; service = s }
  has_read thrown s r = record r { phase = no_thread; service = s }
  has_read out_of_fuel s r = r

  abbrev pub has_stored : Option (State env) → Refresh env → Refresh env
  has_stored none r = record r { phase = no_thread }
  has_stored (some s) r = record r { last_update = s.now; phase = stored; service = s }

  module _ {Var Object : Type 0} (J : Json Var Object) (uri_base : Text) (max_age : ℕ) where
    -- The next step of the thread; a step that is not the next one does not happen.
    unfoldable pub advance : RefreshEvent → Phase → Refresh env → Refresh env
    unfolding read_bucket add_manifest_to_db compute_manifest
    advance (thread_reads client running fuel) in_read r =
        has_read (read_bucket J client uri_base running fuel)
          (remove_old_firmware env max_age r.service) r
    advance thread_stores (has_bucket b) r =
        has_stored (add_manifest_to_db env (compute_manifest J r.service.now max_age b) r.service) r
    advance thread_clears stored r = record r { update_running = false; phase = cleared }
    advance thread_returns cleared r = record r { phase = no_thread }
    advance e p r = r

    unfoldable pub step : RefreshEvent → Refresh env → Refresh env
    unfolding advance run_update_task
    step requested r = (run_update_task r).1
    step (thread_reads client running fuel) r = advance (thread_reads client running fuel) r.phase r
    step thread_stores r = advance thread_stores r.phase r
    step thread_clears r = advance thread_clears r.phase r
    step thread_returns r = advance thread_returns r.phase r

    unfoldable pub steps : List RefreshEvent → Refresh env → Refresh env
    unfolding step
    steps [] r = r
    steps (e ∷ es) r = steps es (step e r)

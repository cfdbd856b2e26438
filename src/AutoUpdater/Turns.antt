-- ===== src/AutoUpdater/Turns.antt =====
-- What the timer leaves in the queue.
use wlan_cloud_ucentralfms.Common.{
  ℕ, zero, suc, ◌+◌, ◌≡◌, refl, ap, inl, inr, Bool, true, Option, none, some, List, [], ◌∷◌, arith,
  Bool-cases, length, take, drop, Text, lookup,
}
use wlan_cloud_ucentralfms.AutoUpdater.{
  Answer, get_firmware_options, Updater, needs_check, checked, process, turns, on_timer,
}
use wlan_cloud_ucentralfms.Service.{Env, State}

module _ (env : Env) (s : State env) (clock : ℕ → ℕ) (provisioning : ℕ → Text → Answer) where
  checked-turn :
      (serial_number device_type : Text) (o : Option (Bool × Text × Bool)) (u : Updater)
      → (checked env s clock provisioning serial_number device_type o u).turn ≡ u.turn
  checked-turn serial_number device_type none u = refl
  checked-turn serial_number device_type (some (ok, firmware_upgrade, rc_only)) u = refl

  pub process-turn :
      (e : Text × Text) (u : Updater) → (process env s clock provisioning e u).turn ≡ u.turn + 1
  unfolding process
  process-turn (serial_number, device_type) u =
      elim (Bool-cases (needs_check (clock u.turn) (lookup serial_number u.cache))) [
        | inl stale ↦ rw stale (
            ap (λ n. n + 1)
              (checked-turn serial_number device_type
                (get_firmware_options (provisioning u.turn serial_number)) u))
        | inr kept ↦ rw kept refl
      ]

  turns-queue :
      (n : ℕ) (q : List (Text × Text)) (u : Updater)
      → ((turns env s clock provisioning n q u).queue ≡ drop n q)
        × ((turns env s clock provisioning n q u).turn ≡ u.turn + length (take n q))
  unfolding turns process
  turns-queue zero [] u = (refl, omega arith)
  turns-queue (suc n) [] u = (refl, omega arith)
  turns-queue zero (e ∷ q) u = (refl, omega arith)
  turns-queue (suc n) (e ∷ q) u =
      let rest = turns-queue n q (process env s clock provisioning e u) in
      (rest.0, omega (arith, rest.1, process-turn e u))

  -- The timer, stopped after n turns: it takes the first n entries off the queue, whatever the services
  -- answer, one turn for each.
  pub on_timer-queue :
      (n : ℕ) (u : Updater)
      → ((on_timer env s clock provisioning n u).queue ≡ drop n u.queue)
        × ((on_timer env s clock provisioning n u).turn ≡ u.turn + length (take n u.queue))
  unfolding on_timer
  on_timer-queue n u = turns-queue n u.queue (record u { running = true })

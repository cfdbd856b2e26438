-- ===== src/NewCommandHandler.antt =====
-- src/NewCommandHandler.cpp: the commands that other services send over Kafka.
pub mod Deletion
use mathlib.Core.Option.{bind}
use wlan_cloud_ucentralfms.Common.{
  Bool, true, false, Option, none, some, List, [], ◌∷◌, Text, codes,
}
use wlan_cloud_ucentralfms.Service.{Env, State}
use wlan_cloud_ucentralfms.Storage.History.{delete_history}
use wlan_cloud_ucentralfms.Storage.Devices.{delete_device}

-- nlohmann::json, which is given; `none` is an exception of it.
pub record Nlohmann : Type 1 where
  pub Value : Type 0
  pub parse : Text → Option Value
  pub contains_key : Value → Text → Bool
  -- operator[]
  pub at : Value → Text → Option Value
  -- conversion to std::string
  pub to_text : Value → Option Text
  -- comparison with a std::string
  pub is_text : Value → Text → Bool

module _ (json : Nlohmann) where
  open json use {Value, parse, contains_key, at, to_text, is_text}

  -- What `f` makes of a member, when it is there.
  abbrev pub member {ℓ} : {A : Type ℓ} → A → Value → Text → (Value → Option A) → Option A
  member d v k f = elim (contains_key v k) [ false ↦ some d | true ↦ bind (at v k) f ]

  unfoldable pub end_point : Value → Option Text
  end_point m = member [] m (codes "system") (λ system. member [] system (codes "host") to_text)

  -- The command of a payload asks for the removal of the device.
  unfoldable pub asks_removal : Text → Value → Value → Option Bool
  asks_removal serial_number section command = elim (is_text command (codes "delete_device")) [
    | false ↦ some false
    | true ↦
        bind (at section (codes "payload")) (λ payload.
          bind (at payload (codes "serialNumber")) (λ n. some (is_text n serial_number)))
  ]

  -- All that the handler reads in a message, before it changes anything.
  unfoldable pub removes : Text → Text → Option Bool
  removes serial_number message = bind (parse message) (λ m. bind (end_point m) (λ e.
      member false m (codes "payload")
        (λ section. member false section (codes "command") (asks_removal serial_number section))))

  module _ (env : Env) where
    unfoldable pub remove_device : Text → State env → State env
    remove_device serial_number s =
        (delete_device env serial_number (delete_history env serial_number s).1).1

    -- A message after it was read: `none` is an exception that is not a Poco::Exception, which the
    -- catch of the loop does not take, so that the thread ends. The result has the commands that are
    -- left, whether the thread is alive, and the state.
    abbrev pub proceed :
        Text
        → Option Bool
        → List (Text × Text)
        → (State env → List (Text × Text) × Bool × State env)
        → State env
        → List (Text × Text) × Bool × State env
    proceed serial_number none q rest s = (q, false, s)
    proceed serial_number (some false) q rest s = rest s
    proceed serial_number (some true) q rest s = rest (remove_device serial_number s)

    -- The loop of run over the queue, as long as it is running.
    unfoldable pub run : List (Text × Text) → State env → List (Text × Text) × Bool × State env
    run [] s = ([], true, s)
    run ((serial_number, message) ∷ q) s =
        proceed serial_number (removes serial_number message) q (run q) s

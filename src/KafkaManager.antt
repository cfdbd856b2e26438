-- ===== src/KafkaManager.antt =====
-- src/framework/KafkaManager.cpp and KafkaManager.h: the watchers of topics that a consumer keeps, and
-- what it does with a message. cppkafka, which reads the messages, is not part of the repository; a
-- callback is a value of a type `Callback`, and what it does to the state of the service, when it
-- throws as well, is a parameter. An int is kept as the word of its 32 bits.
pub mod Watchers
use wlan_cloud_ucentralfms.Common.{
  ℕ, ◌+◌, ◌%◌, ◌^◌, none, some, List, [], ◌∷◌, ◌++◌, num_eq, if◌then◌else◌, Text, Map, lookup,
  insert, set_insert,
}
use wlan_cloud_ucentralfms.Service.{word64}

abbrev pub word32 : ℕ
word32 = 2 ^ 32

-- KafkaConsumer: Notifiers_, Topics_ and FunctionId_.
pub record KafkaConsumer (Callback : Type 0) : Type 0 where
  pub notifiers : Map (List (Callback × ℕ))
  pub topics : List Text
  pub function_id : ℕ

module _ {Callback : Type 0} where
  abbrev pub new_consumer : KafkaConsumer Callback
  new_consumer = record { notifiers = []; topics = []; function_id = 1 }

  -- The functions of a topic, none when Notifiers_ has no entry of it.
  abbrev pub watchers : Text → KafkaConsumer Callback → List (Callback × ℕ)
  watchers topic c = elim (lookup topic c.notifiers) [ none ↦ [] | some l ↦ l ]

  -- The loop that erases the first function with the identifier.
  unfoldable pub erase_watcher : ℕ → List (Callback × ℕ) → List (Callback × ℕ)
  erase_watcher id [] = []
  erase_watcher id ((f, i) ∷ l) =
      let rest = erase_watcher id l in if num_eq i id then l else (f, i) ∷ rest

  unfoldable pub register_topic_watcher :
      Text → Callback → KafkaConsumer Callback → ℕ × KafkaConsumer Callback
  register_topic_watcher topic f c = (
    c.function_id,
    record {
      notifiers = insert topic (watchers topic c ++ (f, c.function_id % word32) ∷ []) c.notifiers;
      topics = set_insert topic c.topics;
      function_id = (c.function_id + 1) % word64;
    },
  )

  unfoldable pub unregister_topic_watcher :
      Text → ℕ → KafkaConsumer Callback → KafkaConsumer Callback
  unregister_topic_watcher topic id c = elim (lookup topic c.notifiers) [
    | none ↦ c
    | some l ↦ record c { notifiers = insert topic (erase_watcher (id % word32) l) c.notifiers }
  ]

  module _ {S : Type 0} (run : Callback → Text → Text → S → S) where
    abbrev pub call_each : Text → Text → List (Callback × ℕ) → S → S
    call_each key payload [] s = s
    call_each key payload ((f, i) ∷ l) s = call_each key payload l (run f key payload s)

    -- The callback that the dispatcher runs on a message.
    unfoldable pub consume : Text → Text → Text → KafkaConsumer Callback → S → S
    consume topic key payload c s = call_each key payload (watchers topic c) s

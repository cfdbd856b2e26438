-- ===== src/KafkaManager/Watchers.antt =====
-- The watchers of a topic after any registrations and removals.
use wlan_cloud_ucentralfms.Common.{
  ℕ, ◌+◌, ◌%◌, ◌<◌, ◌≡◌, refl, sym, ap, ◌∙◌, ◌≢◌, inl, inr, Bool, true, false, ◌&&◌, none, some,
  List, [], ◌∷◌, ◌++◌, append-nil, arith, num_eq, if◌then◌else◌, num_eq_iff, Bool-cases,
  Option-cases, length, All, All-append, All-mono, Text, text_eq, text_eq_iff, lookup,
  lookup-insert,
}
use wlan_cloud_ucentralfms.KafkaManager.{
  word32, KafkaConsumer, new_consumer, watchers, erase_watcher, register_topic_watcher,
  unregister_topic_watcher, call_each, consume,
}
use mathlib.Core.Path.{subst}

-- One call of the consumer.
pub data WatcherCall (Callback : Type 0) : Type 0 where
  registered : Text → Callback → WatcherCall Callback
  unregistered : Text → ℕ → WatcherCall Callback

-- A registration that has not been taken back.
pub record Watcher (Callback : Type 0) : Type 0 where
  pub topic : Text
  pub callback : Callback
  pub id : ℕ

module _ {Callback : Type 0} where
  unfoldable pub replay :
      List (WatcherCall Callback) → KafkaConsumer Callback → KafkaConsumer Callback
  replay [] c = c
  replay (registered t f ∷ es) c = replay es (register_topic_watcher t f c).1
  replay (unregistered t i ∷ es) c = replay es (unregister_topic_watcher t i c)

  abbrev is_named : Text → ℕ → Watcher Callback → Bool
  is_named t i w = text_eq w.topic t && num_eq w.id i

  -- The list without the registration of the topic that has the number.
  abbrev pub without : Text → ℕ → List (Watcher Callback) → List (Watcher Callback)
  without t i [] = []
  without t i (w ∷ ws) = let rest = without t i ws in if is_named t i w then rest else w ∷ rest

  -- The registrations that stand, by one list: the calls are numbered from `n` on.
  unfoldable pub standing :
      List (WatcherCall Callback) → ℕ → List (Watcher Callback) → List (Watcher Callback)
  standing [] n ws = ws
  standing (registered t f ∷ es) n ws =
      standing es (n + 1) (ws ++ record { topic = t; callback = f; id = n } ∷ [])
  standing (unregistered t i ∷ es) n ws = standing es n (without t (i % word32) ws)

  abbrev pub of_topic : Text → List (Watcher Callback) → List (Callback × ℕ)
  of_topic t [] = []
  of_topic t (w ∷ ws) =
      let rest = of_topic t ws in if text_eq w.topic t then (w.callback, w.id) ∷ rest else rest

  abbrev Differs : ℕ → Watcher Callback → Type 0
  Differs i w = w.id ≢ i

  abbrev Distinct : List (Watcher Callback) → Type 0
  Distinct [] = Unit
  Distinct (w ∷ ws) = All (Differs w.id) ws × Distinct ws

  abbrev Under : ℕ → Watcher Callback → Type 0
  Under n w = w.id < n

  All-without {κ} :
      (P : Watcher Callback → Type κ) (t : Text) (i : ℕ) (ws : List (Watcher Callback))
      → All P ws
      → All P (without t i ws)
  All-without P t i [] h = tt
  All-without P t i (w ∷ ws) h =
      let rest = All-without P t i ws h.1 in
      elim (is_named t i w) as (λ b. All P (if b then without t i ws else w ∷ without t i ws)) [
        | true ↦ rest
        | false ↦ (h.0, rest)
      ]

  Distinct-without :
      (t : Text) (i : ℕ) (ws : List (Watcher Callback)) → Distinct ws → Distinct (without t i ws)
  Distinct-without t i [] h = tt
  Distinct-without t i (w ∷ ws) h =
      let rest = Distinct-without t i ws h.1 in
      elim (is_named t i w) as (λ b. Distinct (if b then without t i ws else w ∷ without t i ws)) [
        | true ↦ rest
        | false ↦ (All-without (Differs w.id) t i ws h.0, rest)
      ]

  Distinct-append :
      (ws : List (Watcher Callback)) (v : Watcher Callback)
      → Distinct ws
      → All (Under v.id) ws
      → Distinct (ws ++ v ∷ [])
  Distinct-append [] v d u = (tt, tt)
  Distinct-append (w ∷ ws) v d u =
      let apart : v.id ≢ w.id = ground (arith, u.0) in
      (All-append (Differs w.id) ws (v ∷ []) d.0 (apart, tt), Distinct-append ws v d.1 u.1)

  of_topic-append :
      (t : Text) (ws vs : List (Watcher Callback))
      → of_topic t (ws ++ vs) ≡ of_topic t ws ++ of_topic t vs
  of_topic-append t [] vs = refl
  of_topic-append t (w ∷ ws) vs = ground (arith, of_topic-append t ws vs)

  without-other :
      (t : Text) (i : ℕ) (ws : List (Watcher Callback)) → All (Differs i) ws → without t i ws ≡ ws
  without-other t i [] h = refl
  without-other t i (w ∷ ws) h = ground (arith, num_eq_iff w.id i, h.0, without-other t i ws h.1)

  of_topic-without-other :
      (t u : Text) (i : ℕ) (ws : List (Watcher Callback))
      → text_eq t u ≡ false
      → of_topic u (without t i ws) ≡ of_topic u ws
  of_topic-without-other t u i [] h = refl
  of_topic-without-other t u i (w ∷ ws) h = ground (
    arith,
    text_eq_iff w.topic t,
    text_eq_iff w.topic u,
    text_eq_iff t u,
    of_topic-without-other t u i ws h,
  )

  of_topic-without :
      (t : Text) (i : ℕ) (ws : List (Watcher Callback))
      → Distinct ws
      → of_topic t (without t i ws) ≡ erase_watcher i (of_topic t ws)
  unfolding erase_watcher
  of_topic-without t i [] d = refl
  of_topic-without t i (w ∷ ws) d =
      let gone : w.id ≡ i → without t i ws ≡ ws =
        λ e. without-other t i ws (subst (λ j. All (Differs j) ws) e d.0) in
      ground (arith, num_eq_iff w.id i, gone, of_topic-without t i ws d.1)

  watchers-register_topic_watcher :
      (t u : Text) (f : Callback) (c : KafkaConsumer Callback)
      → watchers u (register_topic_watcher t f c).1
        ≡ (if text_eq t u then watchers u c ++ (f, c.function_id % word32) ∷ [] else watchers u c)
  unfolding register_topic_watcher
  watchers-register_topic_watcher t u f c =
      let l = watchers t c ++ (f, c.function_id % word32) ∷ [] in
      elim (Bool-cases (text_eq t u)) [
        | inl e ↦
            rw (lookup-insert t u l c.notifiers, e, watchers)
              (ap (λ v. watchers v c ++ (f, c.function_id % word32) ∷ []) ((text_eq_iff t u).0 e))
        | inr e ↦ rw (lookup-insert t u l c.notifiers, e, watchers) refl
      ]

  watchers-unregister_topic_watcher :
      (t u : Text) (i : ℕ) (c : KafkaConsumer Callback)
      → watchers u (unregister_topic_watcher t i c)
        ≡ (if text_eq t u then erase_watcher (i % word32) (watchers u c) else watchers u c)
  unfolding unregister_topic_watcher erase_watcher
  watchers-unregister_topic_watcher t u i c = elim (Option-cases (lookup t c.notifiers)) [
    | inl e ↦
        rw (e, unregister_topic_watcher)
          (elim (Bool-cases (text_eq t u)) [
            | inl s ↦
                let none_there : lookup u c.notifiers ≡ none =
                  subst (λ v. lookup v c.notifiers ≡ none) ((text_eq_iff t u).0 s) e in
                rw (s, none_there, watchers) refl
            | inr s ↦ rw (s, watchers) refl
          ])
    | inr (l, e) ↦
        rw (e, unregister_topic_watcher)
          (elim (Bool-cases (text_eq t u)) [
            | inl s ↦
                let some_there : lookup u c.notifiers ≡ some l =
                  subst (λ v. lookup v c.notifiers ≡ some l) ((text_eq_iff t u).0 s) e in
                rw
                  (
                    lookup-insert t u (erase_watcher (i % word32) l) c.notifiers,
                    s,
                    some_there,
                    watchers,
                  )
                  refl
            | inr s ↦
                rw (lookup-insert t u (erase_watcher (i % word32) l) c.notifiers, s, watchers) refl
          ])
  ]

  -- The consumer keeps the registrations of the list, and the next one is number `n`.
  abbrev Agrees : ℕ → List (Watcher Callback) → KafkaConsumer Callback → Type 0
  Agrees n ws c =
      (c.function_id ≡ n)
      × All (Under n) ws
      × Distinct ws
      × ((u : Text) → watchers u c ≡ of_topic u ws)

  Under-next : (n : ℕ) (w : Watcher Callback) → Under n w → Under (n + 1) w
  Under-next n w h = omega (arith, h)

  register_topic_watcher-Agrees :
      (t : Text) (f : Callback) (n : ℕ) (ws : List (Watcher Callback)) (c : KafkaConsumer Callback)
      → n + 1 < word32
      → Agrees n ws c
      → Agrees
          (n + 1)
          (ws ++ record { topic = t; callback = f; id = n } ∷ [])
          (register_topic_watcher t f c).1
  unfolding register_topic_watcher
  register_topic_watcher-Agrees t f n ws c small (next, under, distinct, same) =
      let w : Watcher Callback = record { topic = t; callback = f; id = n } in
      let number : c.function_id % word32 ≡ n = omega (arith, next, small) in
      let apart : n < n + 1 = omega arith in
      (
        omega (arith, next, small),
        All-append (Under (n + 1)) ws (w ∷ [])
            (All-mono (Under n) (Under (n + 1)) (Under-next n) ws under) (apart, tt),
        Distinct-append ws w distinct under,
        λ u.
            watchers-register_topic_watcher t u f c
            ∙ rw (of_topic-append u ws (w ∷ []), same u, number)
                (ground (arith, append-nil (of_topic u ws))),
      )

  same_number :
      (t : Text) (i : ℕ) (c : KafkaConsumer Callback)
      → (unregister_topic_watcher t i c).function_id ≡ c.function_id
  unfolding unregister_topic_watcher
  same_number t i c = elim (Option-cases (lookup t c.notifiers)) [
    | inl e ↦ rw (e, unregister_topic_watcher) refl
    | inr (l, e) ↦ rw (e, unregister_topic_watcher) refl
  ]

  unregister_topic_watcher-Agrees :
      (t : Text) (i n : ℕ) (ws : List (Watcher Callback)) (c : KafkaConsumer Callback)
      → Agrees n ws c
      → Agrees n (without t (i % word32) ws) (unregister_topic_watcher t i c)
  unregister_topic_watcher-Agrees t i n ws c (next, under, distinct, same) = (
    same_number t i c ∙ next,
    All-without (Under n) t (i % word32) ws under,
    Distinct-without t (i % word32) ws distinct,
    λ u.
        watchers-unregister_topic_watcher t u i c
        ∙ rw (same u) (elim (Bool-cases (text_eq t u)) [
          | inl e ↦ rw e (
              subst
                (λ v.
                  erase_watcher (i % word32) (of_topic v ws)
                  ≡ of_topic v (without t (i % word32) ws))
                ((text_eq_iff t u).0 e) (sym (of_topic-without t (i % word32) ws distinct)))
          | inr e ↦ rw e (sym (of_topic-without-other t u (i % word32) ws e))
        ]),
  )

  watchers-replay :
      (es : List (WatcherCall Callback)) (n : ℕ) (ws : List (Watcher Callback))
      (c : KafkaConsumer Callback)
      → n + length es < word32
      → Agrees n ws c
      → (u : Text) → watchers u (replay es c) ≡ of_topic u (standing es n ws)
  unfolding replay standing
  watchers-replay [] n ws c small (next, under, distinct, same) u = same u
  watchers-replay (registered t f ∷ es) n ws c small h u =
      watchers-replay es (n + 1) (ws ++ record { topic = t; callback = f; id = n } ∷ [])
        (register_topic_watcher t f c).1 (omega (arith, small))
        (register_topic_watcher-Agrees t f n ws c (omega (arith, small)) h) u
  watchers-replay (unregistered t i ∷ es) n ws c small h u =
      watchers-replay es n (without t (i % word32) ws) (unregister_topic_watcher t i c)
        (omega (arith, small)) (unregister_topic_watcher-Agrees t i n ws c h) u

  -- A message of a topic, handed to the functions of the topic among those that stand.
  abbrev pub told :
      {S : Type 0}
      → (Callback → Text → Text → S → S)
      → Text
      → Text
      → Text
      → List (Watcher Callback)
      → S
      → S
  told run topic key payload [] s = s
  told run topic key payload (w ∷ ws) s =
      told run topic key payload ws
        (if text_eq w.topic topic then run w.callback key payload s else s)

  call_each-of_topic :
      {S : Type 0} (run : Callback → Text → Text → S → S) (topic key payload : Text)
      (ws : List (Watcher Callback)) (s : S)
      → call_each run key payload (of_topic topic ws) s ≡ told run topic key payload ws s
  call_each-of_topic run topic key payload [] s = refl
  call_each-of_topic run topic key payload (w ∷ ws) s = elim (Bool-cases (text_eq w.topic topic)) [
    | inl e ↦ rw e (call_each-of_topic run topic key payload ws (run w.callback key payload s))
    | inr e ↦ rw e (call_each-of_topic run topic key payload ws s)
  ]

  -- After any registrations and removals on a new consumer, fewer than 2^32 - 1 in all: a message goes
  -- to the functions that are registered to its topic and were not taken back, each once, in the order
  -- of their registration.
  pub consume-replay :
      {S : Type 0} (run : Callback → Text → Text → S → S) (es : List (WatcherCall Callback))
      (topic key payload : Text) (s : S)
      → 1 + length es < word32
      → consume run topic key payload (replay es new_consumer) s
        ≡ told run topic key payload (standing es 1 []) s
  unfolding consume lookup
  consume-replay run es topic key payload s small =
      rw (watchers-replay es 1 [] new_consumer small (refl, tt, tt, λ u. refl) topic)
        (call_each-of_topic run topic key payload (standing es 1 []) s)

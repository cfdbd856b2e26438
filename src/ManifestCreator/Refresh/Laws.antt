-- ===== src/ManifestCreator/Refresh/Laws.antt =====
-- When a refresh that is asked for is carried out, and when none will be again.
use wlan_cloud_ucentralfms.Common.{
  ℕ, zero, suc, ◌≡◌, refl, sym, ap, ◌∙◌, ◌≢◌, inl, inr, Bool, true, false, Option, none, some, List,
  [], ◌∷◌, ◌++◌, if_true, if_false, Bool-cases, replicate, In, Text, codes,
}
use wlan_cloud_ucentralfms.Json.{Json}
use wlan_cloud_ucentralfms.Service.{Env, State}
use wlan_cloud_ucentralfms.Storage.Firmwares.{remove_old_firmware}
use wlan_cloud_ucentralfms.ManifestCreator.{S3BucketContent, S3Object, S3Page, S3Client}
use wlan_cloud_ucentralfms.ManifestCreator.Bucket.{
  ReadOutcome, read_bucket, finished, failed, thrown, out_of_fuel,
}
use wlan_cloud_ucentralfms.ManifestCreator.Bucket.Laws.{read_bucket-malformed}
use wlan_cloud_ucentralfms.ManifestCreator.Manifest.{
  compute_manifest, add_manifest_to_db, or_thrown, store_bucket, run,
}
use wlan_cloud_ucentralfms.ManifestCreator.Refresh.{
  Phase, RefreshEvent, Refresh, start_thread, run_update_task, has_read, has_stored, advance, step,
  steps, no_thread, in_read, stored, cleared, has_bucket, requested, thread_reads, thread_stores,
  thread_clears, thread_returns, accepted, refused,
}
use mathlib.Core.Path.{subst}
use mathlib.Core.Option.{none-ne-some}
use mathlib.Core.Bool.{false≢true}

abbrev pub is_active : Phase → Bool
is_active no_thread = false
is_active in_read = true
is_active (has_bucket b) = true
is_active stored = true
is_active cleared = false

some-injective : {A : Type 0} (a b : A) → some a ≡ some b → a ≡ b
some-injective a b e = cc

module _ (env : Env) {Var Object : Type 0} (J : Json Var Object) (uri_base : Text)
    (max_age : ℕ) where
  -- UpdateRunning_ is set exactly from the start of the thread to its last but one step.
  abbrev pub IsCoherent : Refresh env → Type 0
  IsCoherent r = r.update_running ≡ is_active r.phase

  -- UpdateRunning_ is set, and no thread is there to clear it.
  abbrev pub IsStuck : Refresh env → Type 0
  IsStuck r = (r.update_running ≡ true) × (r.phase ≡ no_thread)

  -- No exception leaves the step of the thread, and no request comes between UpdateRunning_.clear and
  -- the end of run.
  abbrev pub IsSmooth : RefreshEvent → Phase → State env → Type 0
  IsSmooth requested no_thread s = Unit
  IsSmooth requested in_read s = Unit
  IsSmooth requested (has_bucket b) s = Unit
  IsSmooth requested stored s = Unit
  IsSmooth requested cleared s = ⊥
  IsSmooth (thread_reads client running fuel) in_read s =
      read_bucket J client uri_base running fuel ≢ thrown
  IsSmooth (thread_reads client running fuel) p s = Unit
  IsSmooth thread_stores (has_bucket b) s =
      add_manifest_to_db env (compute_manifest J s.now max_age b) s ≢ none
  IsSmooth thread_stores p s = Unit
  IsSmooth thread_clears p s = Unit
  IsSmooth thread_returns p s = Unit

  abbrev pub AllSmooth : List RefreshEvent → Refresh env → Type 0
  AllSmooth [] r = Unit
  AllSmooth (e ∷ es) r =
      IsSmooth e r.phase r.service × AllSmooth es (step env J uri_base max_age e r)

  has_read-IsCoherent :
      (o : ReadOutcome) (s : State env) (r : Refresh env)
      → o ≢ thrown
      → r.update_running ≡ true
      → IsCoherent r
      → IsCoherent (has_read env o s r)
  has_read-IsCoherent (finished b) s r smooth on h = on
  has_read-IsCoherent (failed b) s r smooth on h = on
  has_read-IsCoherent thrown s r smooth on h = absurd (smooth refl)
  has_read-IsCoherent out_of_fuel s r smooth on h = h

  has_stored-IsCoherent :
      (o : Option (State env)) (r : Refresh env)
      → o ≢ none
      → r.update_running ≡ true
      → IsCoherent (has_stored env o r)
  has_stored-IsCoherent none r smooth on = absurd (smooth refl)
  has_stored-IsCoherent (some s) r smooth on = on

  advance-IsCoherent :
      (e : RefreshEvent) (p : Phase) (r : Refresh env)
      → r.phase ≡ p
      → IsSmooth e p r.service
      → IsCoherent r
      → IsCoherent (advance env J uri_base max_age e p r)
  unfolding advance
  advance-IsCoherent (thread_reads client running fuel) in_read r at smooth h =
      has_read-IsCoherent (read_bucket J client uri_base running fuel) _ r smooth
        (h ∙ ap is_active at) h
  advance-IsCoherent thread_stores (has_bucket b) r at smooth h =
      has_stored-IsCoherent (add_manifest_to_db env _ r.service) r smooth (h ∙ ap is_active at)
  advance-IsCoherent thread_clears stored r at smooth h = refl
  advance-IsCoherent thread_returns cleared r at smooth h = h ∙ ap is_active at
  advance-IsCoherent requested p r at smooth h = h
  advance-IsCoherent (thread_reads client running fuel) no_thread r at smooth h = h
  advance-IsCoherent (thread_reads client running fuel) (has_bucket b) r at smooth h = h
  advance-IsCoherent (thread_reads client running fuel) stored r at smooth h = h
  advance-IsCoherent (thread_reads client running fuel) cleared r at smooth h = h
  advance-IsCoherent thread_stores no_thread r at smooth h = h
  advance-IsCoherent thread_stores in_read r at smooth h = h
  advance-IsCoherent thread_stores stored r at smooth h = h
  advance-IsCoherent thread_stores cleared r at smooth h = h
  advance-IsCoherent thread_clears no_thread r at smooth h = h
  advance-IsCoherent thread_clears in_read r at smooth h = h
  advance-IsCoherent thread_clears (has_bucket b) r at smooth h = h
  advance-IsCoherent thread_clears cleared r at smooth h = h
  advance-IsCoherent thread_returns no_thread r at smooth h = h
  advance-IsCoherent thread_returns in_read r at smooth h = h
  advance-IsCoherent thread_returns (has_bucket b) r at smooth h = h
  advance-IsCoherent thread_returns stored r at smooth h = h

  start_thread-IsCoherent :
      (p : Phase) (r : Refresh env)
      → r.phase ≡ p
      → IsSmooth requested p r.service
      → IsCoherent (start_thread env p r).1
  start_thread-IsCoherent no_thread r at smooth = refl
  start_thread-IsCoherent in_read r at smooth = sym (ap is_active at)
  start_thread-IsCoherent (has_bucket b) r at smooth = sym (ap is_active at)
  start_thread-IsCoherent stored r at smooth = sym (ap is_active at)
  start_thread-IsCoherent cleared r at smooth = absurd smooth

  request_refused :
      (r : Refresh env) → r.update_running ≡ true → run_update_task env r ≡ (refused, r)
  unfolding run_update_task
  request_refused r h = if_true r.update_running (refused, r) _ h

  request_started :
      (r : Refresh env)
      → r.update_running ≡ false
      → run_update_task env r ≡ start_thread env r.phase r
  unfolding run_update_task
  request_started r h = if_false r.update_running (refused, r) _ h

  step-IsCoherent :
      (e : RefreshEvent) (r : Refresh env)
      → IsSmooth e r.phase r.service
      → IsCoherent r
      → IsCoherent (step env J uri_base max_age e r)
  unfolding step
  step-IsCoherent requested r smooth h = elim (Bool-cases r.update_running) [
    | inl on ↦ subst (λ p. IsCoherent p.1) (sym (request_refused r on)) h
    | inr off ↦
        subst (λ p. IsCoherent p.1) (sym (request_started r off))
          (start_thread-IsCoherent r.phase r refl smooth)
  ]
  step-IsCoherent (thread_reads client running fuel) r smooth h =
      advance-IsCoherent (thread_reads client running fuel) r.phase r refl smooth h
  step-IsCoherent thread_stores r smooth h =
      advance-IsCoherent thread_stores r.phase r refl smooth h
  step-IsCoherent thread_clears r smooth h =
      advance-IsCoherent thread_clears r.phase r refl smooth h
  step-IsCoherent thread_returns r smooth h =
      advance-IsCoherent thread_returns r.phase r refl smooth h

  steps-IsCoherent :
      (es : List RefreshEvent) (r : Refresh env)
      → AllSmooth es r
      → IsCoherent r
      → IsCoherent (steps env J uri_base max_age es r)
  unfolding steps
  steps-IsCoherent [] r smooth h = h
  steps-IsCoherent (e ∷ es) r smooth h =
      steps-IsCoherent es (step env J uri_base max_age e r) smooth.1
        (step-IsCoherent e r smooth.0 h)

  -- Requests that come while UpdateRunning_ is set change nothing.
  steps-requested :
      (n : ℕ) (es : List RefreshEvent) (r : Refresh env)
      → r.update_running ≡ true
      → steps env J uri_base max_age (replicate n requested ++ es) r
        ≡ steps env J uri_base max_age es r
  unfolding steps step
  steps-requested zero es r on = refl
  steps-requested (suc n) es r on =
      ap (λ p. steps env J uri_base max_age (replicate n requested ++ es) p.1)
        (request_refused r on)
      ∙ steps-requested n es r on

  -- The steps of the thread from the end of ReadBucket to UpdateRunning_.clear, with `j` requests before
  -- the bucket is stored and `k` before the flag is cleared, and what comes then.
  abbrev pub rest_of_run : ℕ → ℕ → List RefreshEvent → List RefreshEvent
  rest_of_run j k es =
      replicate j requested ++ (thread_stores ∷ (replicate k requested ++ (thread_clears ∷ es)))

  or_thrown-some :
      (client : S3Client) (o : Option (State env)) (s0 s : State env)
      → or_thrown env J client uri_base s0 o ≡ some (true, s)
      → o ≡ some s
  or_thrown-some client none s0 s e =
      absurd (false≢true (ap (λ p. p.0) (some-injective (false, s0) (true, s) e)))
  or_thrown-some client (some s') s0 s e =
      ap (λ p. some p.1) (some-injective (true, s') (true, s) e)

  abbrev after_clear : List RefreshEvent → State env → Refresh env
  after_clear es s =
      steps env J uri_base max_age es
        (record { update_running = false; last_update = s.now; phase = cleared; service = s })

  stored-rest :
      (j k last_update : ℕ) (es : List RefreshEvent) (b : S3BucketContent) (s0 s : State env)
      → add_manifest_to_db env (compute_manifest J s0.now max_age b) s0 ≡ some s
      → steps env J uri_base max_age (rest_of_run j k es) (record {
        update_running = true;
        last_update = last_update;
        phase = has_bucket b;
        service = s0;
      })
        ≡ after_clear es s
  unfolding steps step advance
  stored-rest j k last_update es b s0 s e =
      steps-requested j _ _ refl
      ∙ (ap
            (λ o. steps env J uri_base max_age (replicate k requested ++ (thread_clears ∷ es)) (
              has_stored env o (record {
                update_running = true;
                last_update = last_update;
                phase = has_bucket b;
                service = s0;
              })))
            e
          ∙ steps-requested k _ _ refl)

  read-rest :
      (j k last_update : ℕ) (es : List RefreshEvent) (client : S3Client) (o : ReadOutcome)
      (s0 s1 s : State env)
      → store_bucket env J client uri_base max_age o s0 ≡ some (true, s)
      → steps env J uri_base max_age (rest_of_run j k es) (
          has_read env o s0 (record {
            update_running = true;
            last_update = last_update;
            phase = in_read;
            service = s1;
          }))
        ≡ after_clear es s
  unfolding store_bucket
  read-rest j k last_update es client (finished b) s0 s1 s e =
      stored-rest j k last_update es b s0 s (or_thrown-some client _ s0 s e)
  read-rest j k last_update es client (failed b) s0 s1 s e =
      stored-rest j k last_update es b s0 s (or_thrown-some client _ s0 s e)
  read-rest j k last_update es client thrown s0 s1 s e =
      absurd (false≢true (ap (λ p. p.0) (some-injective (false, s0) (true, s) e)))
  read-rest j k last_update es client out_of_fuel s0 s1 s e = absurd (none-ne-some _ e)

  carried_out :
      (i j k : ℕ) (es : List RefreshEvent) (client : S3Client) (running : ℕ → Bool) (fuel : ℕ)
      (r : Refresh env) (s : State env)
      → r.update_running ≡ false
      → r.phase ≡ no_thread
      → run env J client uri_base max_age running fuel r.service ≡ some (true, s)
      → steps env J uri_base max_age
          (requested
            ∷ (replicate i requested ++ (thread_reads client running fuel ∷ rest_of_run j k es)))
          r
        ≡ after_clear es s
  unfolding steps step advance run
  carried_out i j k es client running fuel r s off at e =
      let begun : Refresh env = record r { update_running = true; phase = in_read } in
      let started : run_update_task env r ≡ (accepted, begun) =
        request_started r off ∙ ap (λ p. start_thread env p r) at in
      ap
        (λ p.
          steps env J uri_base max_age
            (replicate i requested ++ (thread_reads client running fuel ∷ rest_of_run j k es)) p.1)
        started
      ∙ (steps-requested i _ begun refl
          ∙ read-rest j k r.last_update es client (read_bucket J client uri_base running fuel)
              (remove_old_firmware env max_age r.service) r.service s e)

  -- From a start where UpdateRunning_ is set exactly from the start of the thread to its last but one
  -- step, and after any requests and steps of the thread, none of which an exception leaves and with no
  -- request between UpdateRunning_.clear and the end of run: when no thread is there a refresh that is
  -- requested is carried out. However many further requests come before the end of ReadBucket, before
  -- the bucket is stored and before UpdateRunning_ is cleared, the steps of the thread leave the service
  -- as one run on the service at the request does, if that gets to its end, with its time in
  -- LastUpdate_, UpdateRunning_ clear and no thread, so that the next request is carried out as well.
  pub steps-carried_out :
      (es : List RefreshEvent) (r : Refresh env)
      → IsCoherent r
      → AllSmooth es r
      → (steps env J uri_base max_age es r).phase ≡ no_thread
      → (i j k : ℕ) (client : S3Client) (running : ℕ → Bool) (fuel : ℕ) (s : State env)
      → run env J client uri_base max_age running fuel (steps env J uri_base max_age es r).service
        ≡ some (true, s)
      → steps env J uri_base max_age
          (requested
            ∷ (replicate i requested
                ++ (thread_reads client running fuel ∷ rest_of_run j k (thread_returns ∷ []))))
          (steps env J uri_base max_age es r)
        ≡ record { update_running = false; last_update = s.now; phase = no_thread; service = s }
  unfolding steps step advance
  steps-carried_out es r h smooth at i j k client running fuel s e =
      let now = steps env J uri_base max_age es r in
      carried_out i j k (thread_returns ∷ []) client running fuel now s
        (steps-IsCoherent es r smooth h ∙ ap is_active at) at e

  advance_stuck :
      (e : RefreshEvent) (r : Refresh env) → advance env J uri_base max_age e no_thread r ≡ r
  unfolding advance
  advance_stuck requested r = refl
  advance_stuck (thread_reads client running fuel) r = refl
  advance_stuck thread_stores r = refl
  advance_stuck thread_clears r = refl
  advance_stuck thread_returns r = refl

  step_stuck :
      (e : RefreshEvent) (r : Refresh env) → IsStuck r → step env J uri_base max_age e r ≡ r
  unfolding step
  step_stuck requested r h = ap (λ p. p.1) (request_refused r h.0)
  step_stuck (thread_reads client running fuel) r h =
      ap (λ p. advance env J uri_base max_age (thread_reads client running fuel) p r) h.1
      ∙ advance_stuck (thread_reads client running fuel) r
  step_stuck thread_stores r h =
      ap (λ p. advance env J uri_base max_age thread_stores p r) h.1 ∙ advance_stuck thread_stores r
  step_stuck thread_clears r h =
      ap (λ p. advance env J uri_base max_age thread_clears p r) h.1 ∙ advance_stuck thread_clears r
  step_stuck thread_returns r h =
      ap (λ p. advance env J uri_base max_age thread_returns p r) h.1
      ∙ advance_stuck thread_returns r

  -- No event changes a service that is stuck.
  steps_stuck :
      (es : List RefreshEvent) (r : Refresh env) → IsStuck r → steps env J uri_base max_age es r ≡ r
  unfolding steps
  steps_stuck [] r h = refl
  steps_stuck (e ∷ es) r h =
      ap (steps env J uri_base max_age es) (step_stuck e r h) ∙ steps_stuck es r h

  -- A refresh that runs to its end, and a request that comes between UpdateRunning_.clear and the end of
  -- run: the thread cannot be started, and whatever is requested or happens afterwards, no refresh is
  -- carried out any more. UpdateRunning_ stays set, and LastUpdate_ and the service stay as that refresh
  -- left them.
  pub steps-overlapped :
      (r : Refresh env) (i j k : ℕ) (client : S3Client) (running : ℕ → Bool) (fuel : ℕ)
      (s : State env) (es : List RefreshEvent)
      → r.update_running ≡ false
      → r.phase ≡ no_thread
      → run env J client uri_base max_age running fuel r.service ≡ some (true, s)
      → steps env J uri_base max_age
          (requested
            ∷ (replicate i requested
                ++ (thread_reads client running fuel
                    ∷ rest_of_run j k (requested ∷ thread_returns ∷ es))))
          r
        ≡ record { update_running = true; last_update = s.now; phase = no_thread; service = s }
  unfolding steps step advance run_update_task
  steps-overlapped r i j k client running fuel s es off at e =
      carried_out i j k (requested ∷ thread_returns ∷ es) client running fuel r s off at e
      ∙ steps_stuck es
          (record { update_running = true; last_update = s.now; phase = no_thread; service = s })
          (refl, refl)

  -- Before the end of ReadBucket, or with no thread: the next bucket that is read is the one that a
  -- request now gets.
  abbrev pub AwaitsBucket : Phase → Type 0
  AwaitsBucket no_thread = Unit
  AwaitsBucket in_read = Unit
  AwaitsBucket (has_bucket b) = ⊥
  AwaitsBucket stored = ⊥
  AwaitsBucket cleared = ⊥

  abbrev waiting : Refresh env → Refresh env
  waiting r = record {
    update_running = true;
    last_update = r.last_update;
    phase = in_read;
    service = r.service;
  }

  start_thread_waiting :
      (p : Phase) (r : Refresh env)
      → r.phase ≡ p
      → AwaitsBucket p
      → r.update_running ≡ is_active p
      → (run_update_task env r).1 ≡ waiting r
  start_thread_waiting no_thread r at w h =
      ap (λ p. p.1) (request_started r h) ∙ ap (λ p. (start_thread env p r).1) at
  start_thread_waiting in_read r at w h =
      ap (λ p. p.1) (request_refused r h) ∙ rw (sym h, sym at) refl
  start_thread_waiting (has_bucket b) r at w h = absurd w
  start_thread_waiting stored r at w h = absurd w
  start_thread_waiting cleared r at w h = absurd w

  -- When a page of the listing has a manifest that the JSON parser throws on, the refresh that reads it
  -- is the last one: whatever is requested or happens afterwards, UpdateRunning_ stays set, and
  -- LastUpdate_ and the service, which lost its old firmware in the beginning of run, stay as they are.
  -- (The page is the first one, nothing stops the reading, and the request comes when no bucket is being
  -- stored.)
  pub steps-malformed :
      (r : Refresh env) (client : S3Client) (page : S3Page) (x : S3Object) (content : Text)
      (running : ℕ → Bool) (fuel : ℕ) (es : List RefreshEvent)
      → IsCoherent r
      → AwaitsBucket r.phase
      → client.list_objects none ≡ some page
      → In x page.contents
      → x.extension ≡ codes "json"
      → client.get_object x.file_name ≡ some content
      → J.parse content ≡ none
      → ((k : ℕ) → running k ≡ true)
      → steps env J uri_base max_age (requested ∷ thread_reads client running (suc fuel) ∷ es) r
        ≡ record {
          update_running = true;
          last_update = r.last_update;
          phase = no_thread;
          service = remove_old_firmware env max_age r.service;
        }
  unfolding steps step advance
  steps-malformed r client page x content running fuel es h awaits listed at json got bad on =
      let stuck : Refresh env = record {
        update_running = true;
        last_update = r.last_update;
        phase = no_thread;
        service = remove_old_firmware env max_age r.service;
      } in
      let read =
        read_bucket-malformed J client uri_base running fuel page x content listed at json got bad
          on in
      ap (λ w. steps env J uri_base max_age (thread_reads client running (suc fuel) ∷ es) w)
        (start_thread_waiting r.phase r refl awaits h)
      ∙ (ap
            (λ o.
              steps env J uri_base max_age es
                (has_read env o (remove_old_firmware env max_age r.service) (waiting r)))
            read
          ∙ steps_stuck es stuck (refl, refl))

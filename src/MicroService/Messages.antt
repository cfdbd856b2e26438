-- ===== src/MicroService/Messages.antt =====
-- What one service sends and another one keeps.
use wlan_cloud_ucentralfms.Common.{
  ℕ, ◌+◌, ◌≤◌, ◌<◌, ◌≡◌, refl, sym, ap, ◌∙◌, ◌≢◌, ◌⊎◌, inl, inr, Bool, true, false, ◌||◌, some,
  List, [], ◌∷◌, arith, num_eq, if◌then◌else◌, if_true, if_false, num_eq_iff, ◌>>=◌, keep, All, In,
  Text, codes, text_eq, text_eq_refl, text_lt, Map, insert,
}
use wlan_cloud_ucentralfms.Poco.{Poco}
use wlan_cloud_ucentralfms.Json.{Json, JsonLaws}
use wlan_cloud_ucentralfms.Service.{word64}
use wlan_cloud_ucentralfms.SecurityObjects.Users.{UserInfoAndPolicy}
use wlan_cloud_ucentralfms.AuthClient.{ExpireCache, ApiKeyCacheEntry}
use wlan_cloud_ucentralfms.MicroService.{
  MicroServiceMeta, Infra, Identity, event_join, event_leave, event_keep_alive, is_zombie,
  remove_zombies, all_services, get_services, has_key, read_text, system_event,
  make_system_event_message, service_info, has_all, change_services, handle_event, handle_message,
  swept, bus_message_received,
}
use wlan_cloud_ucentralfms.MicroService.Laws.{IsRecent, remove_zombies-IsRecent}

In-insert : {V : Type 0} (k : Text) (v : V) (m : Map V) → In (k, v) (insert k v m)
unfolding insert
In-insert k v [] = inl refl
In-insert k v ((j, w) ∷ m) =
    let rest = In-insert k v m in
    let behind : In (k, v) (if text_lt k j then (k, v) ∷ (j, w) ∷ m else (j, w) ∷ insert k v m) =
      elim (text_lt k j)
        as (λ b. In (k, v) (if b then (k, v) ∷ (j, w) ∷ m else (j, w) ∷ insert k v m)) [
          | true ↦ inl refl
          | false ↦ inr rest
        ] in
    elim (text_eq j k)
      as (λ b.
        In (k, v)
          (if b
            then (k, v) ∷ m
            else if text_lt k j
            then (k, v) ∷ (j, w) ∷ m
            else (j, w) ∷ insert k v m)) [ true ↦ inl refl | false ↦ behind ]

In-remove_zombies :
    (now : ℕ) (k : Text) (s : MicroServiceMeta) (m : Map MicroServiceMeta)
    → is_zombie now s ≡ false
    → In (k, s) m
    → In (k, s) (remove_zombies now m)
unfolding remove_zombies
In-remove_zombies now k s [] z h = h
In-remove_zombies now k s ((j, r) ∷ m) z (inl e) =
    let same : s ≡ r = ap (λ p. p.1) e in
    let alive : is_zombie now r ≡ false = rw (sym same) z in
    rw (if_false (is_zombie now r) (remove_zombies now m) ((j, r) ∷ remove_zombies now m) alive)
      (inl e)
In-remove_zombies now k s ((j, r) ∷ m) z (inr h) =
    let rest = In-remove_zombies now k s m z h in
    elim (is_zombie now r)
      as (λ b. In (k, s) (if b then remove_zombies now m else (j, r) ∷ remove_zombies now m)) [
        | true ↦ rest
        | false ↦ inr rest
      ]

In-all_services :
    (k : Text) (s : MicroServiceMeta) (m : Map MicroServiceMeta)
    → In (k, s) m
    → In s (all_services m)
In-all_services k s [] h = h
In-all_services k s ((j, r) ∷ m) (inl e) = inl (ap (λ p. p.1) e)
In-all_services k s ((j, r) ∷ m) (inr h) = inr (In-all_services k s m h)

In-keep :
    {A : Type 0} (p : A → Bool) (a : A) (xs : List A) → p a ≡ true → In a xs → In a (keep p xs)
In-keep p a [] t h = h
In-keep p a (x ∷ xs) t (inl e) =
    rw (if_true (p x) (x ∷ keep p xs) (keep p xs) (ap p (sym e) ∙ t)) (inl e)
In-keep p a (x ∷ xs) t (inr h) =
    let rest = In-keep p a xs t h in
    elim (p x) as (λ b. In a (if b then x ∷ keep p xs else keep p xs)) [
      | true ↦ inr rest
      | false ↦ rest
    ]

-- What is put down of a service that announces itself.
abbrev pub met : Poco → Identity → ℕ → MicroServiceMeta
met poco me now = record {
  id = me.id;
  service_type = poco.to_lower (poco.to_lower me.app_name);
  private_end_point = me.private_end_point;
  public_end_point = me.public_end_point;
  access_key = me.hash;
  version = me.version;
  last_update = now;
}

module _ (poco : Poco) {Var Object : Type 0} (J : Json Var Object) (laws : JsonLaws J)
    (event : Text) (me : Identity) where
  abbrev sent : Object
  sent = J.reread (system_event poco J event me)

  event_field : J.get (codes "event") sent ≡ some (J.reread_value (J.of_text event))
  unfolding system_event text_eq
  event_field = simp (laws.get-reread, laws.get-set)

  id_field : J.get (codes "id") sent ≡ some (J.reread_value (J.of_number me.id))
  unfolding system_event text_eq
  id_field = simp (laws.get-reread, laws.get-set)

  type_field :
      J.get (codes "type") sent ≡ some (J.reread_value (J.of_text (poco.to_lower me.app_name)))
  unfolding system_event text_eq
  type_field = simp (laws.get-reread, laws.get-set)

  public_field :
      J.get (codes "publicEndPoint") sent ≡ some (J.reread_value (J.of_text me.public_end_point))
  unfolding system_event text_eq
  public_field = simp (laws.get-reread, laws.get-set)

  private_field :
      J.get (codes "privateEndPoint") sent ≡ some (J.reread_value (J.of_text me.private_end_point))
  unfolding system_event text_eq
  private_field = simp (laws.get-reread, laws.get-set)

  key_field : J.get (codes "key") sent ≡ some (J.reread_value (J.of_text me.hash))
  unfolding system_event text_eq
  key_field = simp (laws.get-reread, laws.get-set)

  version_field : J.get (codes "version") sent ≡ some (J.reread_value (J.of_text me.version))
  unfolding system_event text_eq
  version_field = simp (laws.get-reread, laws.get-set)

  has : {f : Text} {v : Var} → J.get f sent ≡ some v → has_key poco J f sent ≡ true
  has {f} {v} e = rw (e, has_key) refl

  read :
      {f t : Text}
      → J.get f sent ≡ some (J.reread_value (J.of_text t))
      → read_text poco J f sent ≡ some t
  read {f} {t} e = rw (e, read_text) (laws.to_text-of_text t)

  sent-has_all : has_all poco J sent ≡ true
  sent-has_all =
      rw
        (
          has type_field,
          has public_field,
          has private_field,
          has version_field,
          has key_field,
          has_all,
        )
        refl

abbrev pub IsAnnouncement : Text → Type 0
IsAnnouncement event = (event ≡ event_join) ⊎ (event ≡ event_keep_alive)

not_leave : (event : Text) → IsAnnouncement event → text_eq event event_leave ≡ false
unfolding text_eq
not_leave event (inl e) = rw e refl
not_leave event (inr e) = rw e refl

is_change :
    (event : Text)
    → IsAnnouncement event
    → text_eq event event_join || text_eq event event_keep_alive || text_eq event event_leave ≡ true
unfolding text_eq
is_change event (inl e) = rw e refl
is_change event (inr e) = rw e refl

module _ (poco : Poco) {Var Object : Type 0} (J : Json Var Object) (laws : JsonLaws J)
    (tokens : ExpireCache UserInfoAndPolicy) (api_keys : ExpireCache ApiKeyCacheEntry)
    (event : Text) (me : Identity) (announced : IsAnnouncement event) (now : ℕ) where
  abbrev put_down : Infra tokens.Store api_keys.Store → Infra tokens.Store api_keys.Store
  put_down s = record s { services = insert me.private_end_point (met poco me now) s.services }

  sent-change_services :
      (m : Map MicroServiceMeta)
      → change_services poco J now me.id event (sent poco J laws event me) m
        ≡ some (insert me.private_end_point (met poco me now) m)
  sent-change_services m =
      rw
        (
          read poco J laws event me (private_field poco J laws event me),
          change_services,
          not_leave event announced,
          read poco J laws event me (type_field poco J laws event me),
          read poco J laws event me (public_field poco J laws event me),
          read poco J laws event me (key_field poco J laws event me),
          read poco J laws event me (version_field poco J laws event me),
          service_info,
        )
        refl

  sent-handle_event :
      (s : Infra tokens.Store api_keys.Store)
      → handle_event poco J tokens api_keys now me.id event (sent poco J laws event me) s
        ≡ some (put_down s)
  sent-handle_event s =
      rw
        (
          handle_event,
          is_change event announced,
          sent-has_all poco J laws event me,
          sent-change_services s.services,
        )
        refl

  sent-handle_message :
      (own : ℕ) (s : Infra tokens.Store api_keys.Store)
      → me.id ≢ own
      → me.id < word64
      → handle_message poco J tokens api_keys own now (sent poco J laws event me) s
        ≡ some (put_down s)
  sent-handle_message own s other small =
      let e : text_eq event event ≡ true = text_eq_refl event in
      let differ : num_eq me.id own ≡ false = ground (arith, num_eq_iff me.id own) in
      rw
        (
          has poco J laws event me (id_field poco J laws event me),
          has poco J laws event me (event_field poco J laws event me),
          read poco J laws event me (event_field poco J laws event me),
          id_field poco J laws event me,
          laws.to_number-of_number me.id small,
          handle_message,
          differ,
          sent-handle_event s,
        )
        refl

  -- A service that another one with an identifier of its own hears of by a join or a keep-alive, when
  -- the clock has not gone back between its two readings nor on by more than 120 seconds: it is one of
  -- the services of its type that GetServices lists, and none of those that are kept has been silent
  -- for more than 120 seconds. Poco's toLower changes nothing the second time.
  pub bus_message_received-make_system_event_message :
      (stringify : Object → Text)
      → ((o : Object) → J.parse (stringify o) ≡ some (J.reread_value (J.of_object o)))
      → ((t : Text) → poco.to_lower (poco.to_lower t) ≡ poco.to_lower t)
      → (own later : ℕ) (s : Infra tokens.Store api_keys.Store) → me.id ≢ own
      → me.id < word64
      → now ≤ later
      → later ≤ now + 120
      → later < word64
      → let kept =
          (bus_message_received poco J tokens api_keys own now later
            (make_system_event_message poco J stringify event me)
            s).services in
        In (met poco me now) (get_services poco me.app_name kept) × All (IsRecent later) kept
  unfolding bus_message_received make_system_event_message get_services
  bus_message_received-make_system_event_message stringify parses lower own later s other small h k
        l =
      let there : Map MicroServiceMeta = insert me.private_end_point (met poco me now) s.services in
      let heard : (J.parse (stringify (system_event poco J event me)) >>= J.to_object)
          ≡ some (sent poco J laws event me) =
        rw (parses (system_event poco J event me)) (laws.to_object-of_object _) in
      let alive : is_zombie later (met poco me now) ≡ false = ground arith in
      let same_type : text_eq (poco.to_lower (poco.to_lower me.app_name))
            (poco.to_lower me.app_name)
          ≡ true =
        rw (lower me.app_name) (text_eq_refl (poco.to_lower me.app_name)) in
      rw (heard, swept, sent-handle_message own s other small)
        (
          In-keep _ (met poco me now) (all_services (remove_zombies later there)) same_type (
              In-all_services me.private_end_point (met poco me now) (remove_zombies later there) (
                In-remove_zombies later me.private_end_point (met poco me now) there alive
                  (In-insert me.private_end_point (met poco me now) s.services))),
          remove_zombies-IsRecent later there,
        )

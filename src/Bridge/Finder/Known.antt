-- ===== src/Bridge/Finder/Known.antt =====
-- A bridge that `getBridge` gave back is known to the finder.
use hueplusplus.Base.{
  ℕ, zero, suc, ◌-◌, [], ◌∷◌, ◌≡◌, refl, ap, subst, ◌∙◌, true, false, ltb, Bytes, bytes_eq, length,
  ◌==◌, Option, none, some, Result, ok, err, Error, arith, ◌⊎◌, inl, inr, Bool-cases, if◌then◌else◌,
  if_both, codes,
}
use mathlib.Core.Option.{some-injective}
use hueplusplus.Base.Int.{ℤ, pos, eqb_ℤ}
use hueplusplus.Base.Keys.{bytes_eq_iff}
use hueplusplus.Json.{JsonLib, has}
use hueplusplus.Commands.{ApiError, create}
use hueplusplus.Bridge.{
  Bridge, Handler, Attempt, Requested, attempt, answer_to, go_on, ask, request_username, again,
  ended, connected, accepted, by_code, refused, nth, set_http_handler,
}
use hueplusplus.Bridge.Username.{member_of}
use hueplusplus.Bridge.Finder.{
  Finder, Found, BridgeIdentification, is_alnum, to_lower, normalize_mac, value_of, add_username,
  add_client_key, bridge_of, or_empty, add_bridge, add_requested, by_request, known_or, get_bridge,
}

lower_again :
    (c : ℕ)
    → is_alnum c ≡ true
    → (is_alnum (to_lower c) ≡ true) × (to_lower (to_lower c) ≡ to_lower c)
lower_again c h = ground arith

-- A normalized MAC address stays as it is.
pub normalize_mac-twice : (s : Bytes) → normalize_mac (normalize_mac s) ≡ normalize_mac s
unfolding normalize_mac
normalize_mac-twice [] = refl
normalize_mac-twice (c ∷ s) = by_class (Bool-cases (is_alnum c)) (normalize_mac-twice s)
  where
    by_class :
        (is_alnum c ≡ true) ⊎ (is_alnum c ≡ false)
        → normalize_mac (normalize_mac s) ≡ normalize_mac s
        → normalize_mac (if is_alnum c then to_lower c ∷ normalize_mac s else normalize_mac s)
          ≡ (if is_alnum c then to_lower c ∷ normalize_mac s else normalize_mac s)
    by_class (inl kept) rest =
        rw (kept, (lower_again c kept).0, (lower_again c kept).1) (ap (λ t. to_lower c ∷ t) rest)
    by_class (inr dropped) rest = rw dropped rest

-- A bridge after a pass has the address of the one before it.
abbrev KeepsAddress : Bridge → Attempt → Type 0
KeepsAddress b again = Unit {0}
KeepsAddress b (ended r after) = (after.ip ≡ b.ip) × (after.port ≡ b.port)

module _ (J : JsonLib) (H : Handler J) (refresh_duration : ℤ) where
  by_code-KeepsAddress :
      (b : Bridge) (r : Result (ApiError J)) → KeepsAddress b (by_code J H refresh_duration b r)
  by_code-KeepsAddress b (err e) = (refl, refl)
  by_code-KeepsAddress b (ok e) = if_both (KeepsAddress b) (eqb_ℤ e.error (pos 101)) tt (refl, refl)

  refused-KeepsAddress :
      (b : Bridge) (answer : J.Json) → KeepsAddress b (refused J H refresh_duration b answer)
  refused-KeepsAddress b answer = if_both (KeepsAddress b) (length (J.elements answer) == 0) tt (
      if_both (KeepsAddress b) (J.is_array answer)
        (if_both (KeepsAddress b) (has J (nth J (J.elements answer) 0) (codes "error"))
          (by_code-KeepsAddress b (create J (nth J (J.elements answer) 0))) tt)
        (refl, refl))

  connected-KeepsAddress :
      (b : Bridge) (key : J.Json) (r : Result (Unit {0}))
      → KeepsAddress b (connected J H refresh_duration b key r)
  connected-KeepsAddress b key (err e) = (refl, refl)
  connected-KeepsAddress b key (ok _) =
      if_both (KeepsAddress b) (J.is_null key) (refl, refl) (by_text (J.to_text key))
    where
      by_text :
          (o : Option Bytes)
          → KeepsAddress b (elim o [
            | none ↦ ended (err Error.json_exception) b
            | some k ↦ ended (ok tt) (record b { clientkey = k })
          ])
      by_text none = (refl, refl)
      by_text (some k) = (refl, refl)

  accepted-KeepsAddress :
      (b : Bridge) (user key : J.Json) → KeepsAddress b (accepted J H refresh_duration b user key)
  accepted-KeepsAddress b user key = by_text (J.to_text user)
    where
      by_text :
          (o : Option Bytes)
          → KeepsAddress b (elim o [
            | none ↦ ended (err Error.json_exception) b
            | some u ↦
                connected J H refresh_duration
                  (record b { username = u })
                  key
                  (set_http_handler J H refresh_duration (record b { username = u }))
          ])
      by_text none = (refl, refl)
      by_text (some u) =
          connected-KeepsAddress (record b { username = u }) key
            (set_http_handler J H refresh_duration (record b { username = u }))

  attempt-KeepsAddress :
      (b : Bridge) (r : Result J.Json) → KeepsAddress b (attempt J H refresh_duration b r)
  unfolding attempt
  attempt-KeepsAddress b (err e) = (refl, refl)
  attempt-KeepsAddress b (ok answer) =
      if_both (KeepsAddress b) (J.is_null (member_of J answer (codes "username")))
        (refused-KeepsAddress b answer)
        (accepted-KeepsAddress b (member_of J answer (codes "username"))
          (member_of J answer (codes "clientkey")))

  module _ (timeout : ℕ) where
    ask_address :
        (fuel n : ℕ) (b : Bridge) (r : Requested)
        → ask J H refresh_duration timeout fuel n b ≡ some r
        → (r.bridge.ip ≡ b.ip) × (r.bridge.port ≡ b.port)
    unfolding ask
    ask_address zero n b r done = cc
    ask_address (suc fuel) n b r done =
        by_attempt (attempt J H refresh_duration b (answer_to J H refresh_duration b n))
          (attempt-KeepsAddress b (answer_to J H refresh_duration b n))
          (ask_address fuel (suc n) b r) done
      where
        by_attempt :
            (a : Attempt)
            → KeepsAddress b a
            → (ask J H refresh_duration timeout fuel (suc n) b ≡ some r
                → (r.bridge.ip ≡ b.ip) × (r.bridge.port ≡ b.port))
            → go_on J H refresh_duration timeout n b
                (ask J H refresh_duration timeout fuel (suc n) b)
                a
              ≡ some r
            → (r.bridge.ip ≡ b.ip) × (r.bridge.port ≡ b.port)
        by_attempt (ended x after) address later e =
            subst (λ q. (q.bridge.ip ≡ b.ip) × (q.bridge.port ≡ b.port)) (some-injective _ _ e)
              address
        by_attempt again address later e =
            if_both (λ o. o ≡ some r → (r.bridge.ip ≡ b.ip) × (r.bridge.port ≡ b.port))
              (ltb (H.clock (suc n) - H.clock 0) timeout) later
              (λ h.
                subst (λ q. (q.bridge.ip ≡ b.ip) × (q.bridge.port ≡ b.port)) (some-injective _ _ h)
                  (refl, refl))
              e

  ok_injective : {A : Type 0} {a b : A} → ok a ≡ ok b → a ≡ b
  ok_injective {a = a} h = ap (λ r. elim r [ ok x ↦ x | err e ↦ a ]) h

  bytes_same : (s : Bytes) → bytes_eq s s ≡ true
  bytes_same s = (bytes_eq_iff s s).1 refl

  module _ (timeout : ℕ) where
    entry_known :
        (fuel : ℕ) (f : Finder) (i : BridgeIdentification) (u k : Bytes)
        → value_of f.usernames (normalize_mac i.mac) ≡ some u
        → or_empty (value_of f.clientkeys (normalize_mac i.mac)) ≡ k
        → get_bridge J H refresh_duration timeout fuel f i
          ≡ some (record { result = ok (bridge_of i u k); finder = f; attempts = 0 })
    unfolding get_bridge
    entry_known fuel f i u k here key =
        ap
          (known_or f i (
            by_request (normalize_mac i.mac) f
              (request_username J H refresh_duration timeout fuel (bridge_of i [] []))))
          here
        ∙ ap (λ x. some (record { result = ok (bridge_of i u x); finder = f; attempts = 0 })) key

    -- What `getBridge` gives for a bridge that has been added.
    added_known :
        (fuel : ℕ) (f : Finder) (i : BridgeIdentification) (b : Bridge)
        → (b.ip ≡ i.ip) × (b.port ≡ i.port)
        → get_bridge J H refresh_duration timeout fuel (add_bridge (normalize_mac i.mac) b f) i
          ≡ some (record {
            result = ok b;
            finder = add_bridge (normalize_mac i.mac) b f;
            attempts = 0;
          })
    unfolding add_username add_client_key
    added_known fuel f i b (ip, port) =
        entry_known fuel (add_bridge (normalize_mac i.mac) b f) i b.username b.clientkey (rw twice)
          (rw twice)
        ∙ rw (ip, port)
      where
        twice : bytes_eq (normalize_mac (normalize_mac i.mac)) (normalize_mac i.mac) ≡ true
        twice = rw (normalize_mac-twice i.mac) (bytes_same (normalize_mac i.mac))

    -- Another call gives the bridge again.
    abbrev IsKnown : ℕ → BridgeIdentification → Bridge → Finder → Type 0
    IsKnown fuel i b f =
        get_bridge J H refresh_duration timeout fuel f i
        ≡ some (record { result = ok b; finder = f; attempts = 0 })

    requested-IsKnown :
        (fuel : ℕ) (f : Finder) (i : BridgeIdentification) (b : Bridge) (r : Requested)
        → (r.bridge.ip ≡ i.ip) × (r.bridge.port ≡ i.port)
        → (add_requested (normalize_mac i.mac) f r).result ≡ ok b
        → IsKnown fuel i b (add_requested (normalize_mac i.mac) f r).finder
    requested-IsKnown fuel f i b r address given = by_result r.result given
      where
        by_result :
            (x : Result Bytes)
            → (add_requested (normalize_mac i.mac) f (record r { result = x })).result ≡ ok b
            → IsKnown fuel i b
                (add_requested (normalize_mac i.mac) f (record r { result = x })).finder
        by_result (err e) h = cc
        by_result (ok u) h =
            if_both (λ (q : Found). q.result ≡ ok b → IsKnown fuel i b q.finder)
              (length r.bridge.username == 0) (λ no. cc)
              (λ same.
                subst (λ q. IsKnown fuel i q (add_bridge (normalize_mac i.mac) r.bridge f))
                  (ok_injective same) (added_known fuel f i r.bridge address))
              h

    -- If getBridge gives a bridge back, then another call for the same identification gives the
    -- same bridge, without asking for a user name, and leaves the finder as it is.
    pub get_bridge-known :
        (fuel fuel2 : ℕ) (f : Finder) (i : BridgeIdentification) (found : Found) (b : Bridge)
        → get_bridge J H refresh_duration timeout fuel f i ≡ some found
        → found.result ≡ ok b
        → get_bridge J H refresh_duration timeout fuel2 found.finder i
          ≡ some (record { result = ok b; finder = found.finder; attempts = 0 })
    unfolding get_bridge request_username
    get_bridge-known fuel fuel2 f i found b done given =
        by_name (value_of f.usernames (normalize_mac i.mac)) refl done
      where
        carry :
            (q : Found)
            → some q ≡ some found
            → (q.result ≡ ok b → IsKnown fuel2 i b q.finder)
            → IsKnown fuel2 i b found.finder
        carry q same known =
            subst (λ p. p.result ≡ ok b → IsKnown fuel2 i b p.finder) (some-injective _ _ same)
              known given

        by_request_result :
            (o : Option Requested)
            → request_username J H refresh_duration timeout fuel (bridge_of i [] []) ≡ o
            → by_request (normalize_mac i.mac) f o ≡ some found
            → IsKnown fuel2 i b found.finder
        by_request_result none e h = cc
        by_request_result (some r) e h =
            carry (add_requested (normalize_mac i.mac) f r) h
              (requested-IsKnown fuel2 f i b r (ask_address timeout fuel 0 (bridge_of i [] []) r e))

        by_name :
            (o : Option Bytes)
            → value_of f.usernames (normalize_mac i.mac) ≡ o
            → known_or f i
                (by_request
                  (normalize_mac i.mac)
                  f
                  (request_username J H refresh_duration timeout fuel (bridge_of i [] [])))
                o
              ≡ some found
            → IsKnown fuel2 i b found.finder
        by_name none e h = by_request_result _ refl h
        by_name (some u) e h = carry _ h (λ same.
            entry_known fuel2 f i u (or_empty (value_of f.clientkeys (normalize_mac i.mac))) e refl
            ∙ ap (λ x. some (record { result = x; finder = f; attempts = 0 })) same)

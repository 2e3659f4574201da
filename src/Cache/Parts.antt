-- ===== src/Cache/Parts.antt =====
-- A refresh of one part of a base cache.
use hueplusplus.Base.{
  List, ◌∷◌, ◌≡◌, ap₂, ◌∙◌, true, false, some, Bytes, bytes_eq, length, ok, if◌then◌else◌,
}
use hueplusplus.Json.{JsonLib, ObjectLaws, takes_keys}
use hueplusplus.Cache.{
  Surroundings, World, Info, request_path, caught_up, is_due, store, store_in, answered, fetch,
  refresh,
}
use hueplusplus.Cache.Requests.{is_due-sent, path_over}

module _ (J : JsonLib) (S : Surroundings J) where
  fetch_part :
      (i b : Info J) (bs : List (Info J)) (w : World) (v : J.Json)
      → takes_keys J b.value ≡ true
      → S.answer (length w.sent) (request_path J i (b ∷ bs)) ≡ ok v
      → ((fetch J S i (b ∷ bs) w).result ≡ ok tt)
        × ((fetch J S i (b ∷ bs) w).bases ≡ record b { value = J.set b.value i.path v } ∷ bs)
  unfolding fetch answered store store_in
  fetch_part i b bs w v keys answer = (rw (answer, answered, keys), rw (answer, answered, keys))

module _ (J : JsonLib) (S : Surroundings J) (laws : ObjectLaws J) where
  -- If the base of a cache is not due, and its value is an object or null: the refresh of the cache
  -- stores the bridge's answer as its entry in the base, and leaves all other entries as they were.
  pub refresh_part :
      (i b : Info J) (bs : List (Info J)) (w : World) (v : J.Json)
      → (is_due J S (caught_up J b bs) w).0 ≡ false
      → takes_keys J b.value ≡ true
      → S.answer (length w.sent) (request_path J i (b ∷ bs)) ≡ ok v
      → ((refresh J S i (b ∷ bs) w).result ≡ ok tt)
        × ((b' : Info J) × ((refresh J S i (b ∷ bs) w).bases ≡ b' ∷ bs)
            × ((k : Bytes)
                → J.find b'.value k ≡ (if bytes_eq i.path k then some v else J.find b.value k)))
  unfolding refresh
  refresh_part i b bs w v fresh keys answer =
      rw fresh (parts.0, (base', parts.1, λ k. laws.find-set b.value i.path k v keys))
    where
      base : Info J
      base = caught_up J b bs

      base' : Info J
      base' = record base { value = J.set b.value i.path v }

      same_request :
          S.answer (length (is_due J S base w).1.sent) (request_path J i (base ∷ bs))
          ≡ S.answer (length w.sent) (request_path J i (b ∷ bs))
      same_request = ap₂ (λ s p. S.answer (length s) p) (is_due-sent J S base w) (path_over i b bs)

      parts :
          ((fetch J S i (base ∷ bs) (is_due J S base w).1).result ≡ ok tt)
          × ((fetch J S i (base ∷ bs) (is_due J S base w).1).bases ≡ base' ∷ bs)
      parts = fetch_part J S i base bs (is_due J S base w).1 v keys (same_request ∙ answer)

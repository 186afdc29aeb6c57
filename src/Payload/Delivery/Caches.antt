-- ===== src/Payload/Delivery/Caches.antt =====
-- The list of caches with one cache for a group at its end.
use eioie_client.Base.{◌≡◌, refl, ap, [], ◌∷◌, ◌++◌, true, none, some, Bool-cases, inl, inr}
use eioie_client.Packet.{Header}
use eioie_client.Payload.{Cache, RecvBuffer, is_for, find_cache, replace_cache, delete_cache}

-- The caches are found by the group and the destination alone: headers that agree in these are
-- for the same cache, whatever their sources are.
pub find_cache_congr :
    (h h' : Header) (rb : RecvBuffer)
    → h.gidx ≡ h'.gidx
    → h.dst ≡ h'.dst
    → find_cache h rb ≡ find_cache h' rb
unfolding find_cache is_for
find_cache_congr h h' [] e d = refl
find_cache_congr h h' (c ∷ cs) e d = rw (e, d, find_cache_congr h h' cs e d)

module _ (h : Header) (c : Cache) (own : is_for h c ≡ true) where
  pub find_cache-append :
      (rb : RecvBuffer) → find_cache h rb ≡ none → find_cache h (rb ++ c ∷ []) ≡ some c
  unfolding find_cache
  find_cache-append [] absent = rw own
  find_cache-append (d ∷ ds) absent = elim (Bool-cases (is_for h d)) [
    | inl other ↦ cc (rw other at absent)
    | inr pass ↦ rw pass (find_cache-append ds (rw pass at absent))
  ]

  pub replace_cache-append :
      (c' : Cache) (rb : RecvBuffer)
      → find_cache h rb ≡ none
      → replace_cache h c' (rb ++ c ∷ []) ≡ rb ++ c' ∷ []
  unfolding find_cache replace_cache
  replace_cache-append c' [] absent = rw own
  replace_cache-append c' (d ∷ ds) absent = elim (Bool-cases (is_for h d)) [
    | inl other ↦ cc (rw other at absent)
    | inr pass ↦ rw pass (ap (λ l. d ∷ l) (replace_cache-append c' ds (rw pass at absent)))
  ]

  pub delete_cache-append :
      (rb : RecvBuffer) → find_cache h rb ≡ none → delete_cache h (rb ++ c ∷ []) ≡ rb
  unfolding find_cache delete_cache
  delete_cache-append [] absent = rw own
  delete_cache-append (d ∷ ds) absent = elim (Bool-cases (is_for h d)) [
    | inl other ↦ cc (rw other at absent)
    | inr pass ↦ rw pass (ap (λ l. d ∷ l) (delete_cache-append ds (rw pass at absent)))
  ]

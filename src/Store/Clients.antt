-- ===== src/Store/Clients.antt =====
-- What the clients of a state answer after each change (src/objects/state.cpp).
use state.Common.{
  ℕ, ◌≡◌, refl, sym, ap, ◌∙◌, ◌≢◌, true, false, not, ◌&&◌, none, some, is_some, any, arith, ◌==◌,
  ==_iff, if◌then◌else◌, Bool-cases, inl, inr,
}
use state.MultiIndex.{has_key, clash}
use state.MultiIndex.Laws.{
  find-insert_new, find-insert_ne, find-erase_range, find-erase_range_ne, is_some-find,
  range-is_some-find, any-ext,
}
use state.Clients.{Client, by_client, clients_spec}
use state.Platform.{Platform}
use state.World.{World}
use state.Store.{get_client, add_client, remove_client}

-- Two clients clash exactly if they have one id: the composite index adds nothing.
clash_iff : (a b : Client) → clash clients_spec a b ≡ has_key clients_spec by_client a.id b
clash_iff a b = ground arith

module _ ⦃p : Platform⦄ where
  open p use {clients as table}

  add_client_accepts :
      (c : Client) (w : World) → (add_client c w).1 ≡ not (is_some (get_client c.id w))
  unfolding add_client get_client
  add_client_accepts c w =
      table.insert-accepts by_client c w.clients
      ∙ ap not (any-ext _ _ (table.traverse by_client w.clients) (clash_iff c))
      ∙ ap not (sym (is_some-find table by_client c.id w.clients))

  -- No older client has the id of one that is accepted.
  add_client_fresh :
      (c : Client) (w : World)
      → (table.insert c w.clients).1 ≡ true
      → any (has_key clients_spec by_client c.id) (table.traverse by_client w.clients) ≡ false
  add_client_fresh c w new =
      let e : any (clash clients_spec c) (table.traverse by_client w.clients)
          ≡ any (has_key clients_spec by_client c.id) (table.traverse by_client w.clients) =
        any-ext _ _ (table.traverse by_client w.clients) (clash_iff c) in
      ground (arith, table.insert-accepts by_client c w.clients, e)

  add_client_lookup :
      (c : Client) (id : ℕ) (w : World)
      → get_client id (add_client c w).0
        ≡ (if (add_client c w).1 && c.id == id then some c else get_client id w)
  unfolding add_client get_client
  add_client_lookup c id w = elim (Bool-cases (table.insert c w.clients).1) [
    | inr old ↦ rw old (ap (table.find by_client id) (table.insert-refused c w.clients old))
    | inl new ↦ elim (Bool-cases (c.id == id)) [
      | inl same ↦
          rw (new, same)
            (find-insert_new table by_client id c w.clients new same
              (rw (← (==_iff c.id id).0 same) (add_client_fresh c w new)))
      | inr other ↦ rw (new, other) (find-insert_ne table by_client id c w.clients other)
    ]
  ]

  -- `add_client` inserts exactly if no client has the id, whatever its session; then the id leads
  -- to the new client, and every other id to what it led to before. A refused client changes
  -- nothing.
  pub get_client-add_client :
      (c : Client) (w : World)
      → ((add_client c w).1 ≡ not (is_some (get_client c.id w)))
        × ((id : ℕ)
            → get_client id (add_client c w).0
              ≡ (if (add_client c w).1 && c.id == id then some c else get_client id w))
  get_client-add_client c w = (add_client_accepts c w, λ id. add_client_lookup c id w)

  -- After `remove_client` the id leads nowhere and every other id to what it led to before; the
  -- result says whether a client had the id. Subscriptions and sessions stay.
  pub get_client-remove_client :
      (id : ℕ) (w : World)
      → ((remove_client id w).1 ≡ is_some (get_client id w))
        × (get_client id (remove_client id w).0 ≡ none)
        × ((other : ℕ) → other ≢ id → get_client other (remove_client id w).0 ≡ get_client other w)
        × ((remove_client id w).0.subscriptions ≡ w.subscriptions)
        × ((remove_client id w).0.sessions ≡ w.sessions)
  unfolding get_client remove_client
  get_client-remove_client id w = (
    range-is_some-find table by_client id w.clients,
    find-erase_range table by_client id w.clients,
    λ other h.
        find-erase_range_ne table by_client by_client id other w.clients (λ e k. ground arith),
    refl,
    refl,
  )

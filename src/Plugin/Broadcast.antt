-- ===== src/Plugin/Broadcast.antt =====
-- Network events go to every plugin.
use mptcpd.Common.{ℕ, true, some, List, [], ◌∷◌, ◌≡◌, ◌↔◌, arith, refl, Bool-cases, inl, inr, ◌⊎◌}
use mptcpd.Ell.HashMap.{Has}
use mptcpd.Plugin.Calls.{Ops, Event, Call, callback}
use mptcpd.Plugin.{
  Platform, Registry, invoke_all, new_interface, update_interface, delete_interface,
  new_local_address, delete_local_address,
}
use mptcpd.Sockaddr.{Sockaddr}

-- A change of a network interface or of its addresses.
pub data NetworkEvent : Type 0 where
  added updated deleted : ℕ → NetworkEvent
  address_added address_deleted : ℕ → Sockaddr → NetworkEvent

module _ (p : Platform) where
  open p use {names, tokens, name_len}

  -- The function of the file that handles an event.
  unfoldable pub broadcast : Registry p → NetworkEvent → List Call
  broadcast r (added i) = new_interface p r i
  broadcast r (updated i) = update_interface p r i
  broadcast r (deleted i) = delete_interface p r i
  broadcast r (address_added i sa) = new_local_address p r i sa
  broadcast r (address_deleted i sa) = delete_local_address p r i sa

  abbrev pub network_event : NetworkEvent → Event
  network_event (added i) = Event.new_interface i
  network_event (updated i) = Event.update_interface i
  network_event (deleted i) = Event.delete_interface i
  network_event (address_added i sa) = Event.new_local_address i sa
  network_event (address_deleted i sa) = Event.delete_local_address i sa

  broadcast_lem :
      (r : Registry p) (e : NetworkEvent)
      → broadcast r e ≡ invoke_all p (names.entries r.pm_plugins) (network_event e)
  unfolding broadcast new_interface update_interface delete_interface new_local_address
      delete_local_address
  broadcast_lem r (added i) = refl
  broadcast_lem r _ = refl

  called :
      (l : List (List ℕ × Ops)) (e : Event) (name : List ℕ) (ops : Ops)
      → Has (name, ops) l
      → ops.implements (callback e) ≡ true
      → Has (ops, e) (invoke_all p l e)
  unfolding invoke_all
  called [] e name ops h i = absurd h
  called ((n, o) ∷ rest) e name ops (inl h) i = ground (arith, h, i)
  called ((n, o) ∷ rest) e name ops (inr h) i = ground (arith, called rest e name ops h i)

  caller :
      (l : List (List ℕ × Ops)) (e f : Event) (ops : Ops)
      → Has (ops, f) (invoke_all p l e)
      → (f ≡ e) × (ops.implements (callback e) ≡ true) × ((name : List ℕ) × Has (name, ops) l)
  unfolding invoke_all
  caller [] e f ops h = absurd h
  caller ((n, o) ∷ rest) e f ops h = elim (Bool-cases (o.implements (callback e))) [
    | inl i ↦ elim (head_or_rest (ground (arith, h, i))) [
      | inl q ↦ (cc, ground (arith, q, i), (n, inl (ground (arith, q))))
      | inr k ↦
          let (same_event, set, (name, at)) = caller rest e f ops k in
          (same_event, set, (name, inr at))
    ]
    | inr i ↦
        let (same_event, set, (name, at)) = caller rest e f ops (ground (arith, h, i)) in
        (same_event, set, (name, inr at))
  ]
    where
      head_or_rest :
          Has (ops, f) ((o, e) ∷ invoke_all p rest e)
          → (◌≡◌ {A = Call} (ops, f) (o, e)) ⊎ Has (ops, f) (invoke_all p rest e)
      head_or_rest k = k

  -- A change of an interface or address is reported to exactly the registered plugins that
  -- implement its function, with the arguments of the change.
  pub broadcast_iff :
      (r : Registry p) (e : NetworkEvent) (f : Event) (ops : Ops)
      → names.Distinct r.pm_plugins
      → Has (ops, f) (broadcast r e) ↔ (
          (f ≡ network_event e)
          × (ops.implements (callback (network_event e)) ≡ true)
          × ((name : List ℕ) × (names.lookup r.pm_plugins name ≡ some ops)))
  broadcast_iff r e f ops d = rw (broadcast_lem r e) (
    λ h.
        let (same_event, set, (name, at)) =
          caller (names.entries r.pm_plugins) (network_event e) f ops h in
        (same_event, set, (name, names.lookup-entries r.pm_plugins name ops d at)),
    λ (same_event, set, (name, found)).
        let (j, s, at) = names.entries-lookup r.pm_plugins name ops found in
        rw same_event (called (names.entries r.pm_plugins) (network_event e) j ops at set),
  )

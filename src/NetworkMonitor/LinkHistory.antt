-- ===== src/NetworkMonitor/LinkHistory.antt =====
-- Histories of link messages.
use mptcpd.Common.{ℕ, Option, none, some, List, [], ◌∷◌, ◌++◌, ◌≡◌, refl, ap, ◌∙◌, fun_ext, arith}
use mptcpd.Ell.Queue.{Queue}
use mptcpd.NetworkMonitor.{
  LinkMsg, Event, Call, Nm, Interface, OpsInfo, AddrInfo, nm_create, nm_foreach_interface, links_at,
}
use mptcpd.NetworkMonitor.Links.{LinkType, handle_link}
use mptcpd.NetworkMonitor.LinkList.{Increasing, find_link}
use mptcpd.NetworkMonitor.LinkSpec.{Table, Change, table_step, table_event, Takes, Inv, view}
use mptcpd.NetworkMonitor.LinkRefines.{calls_of, change_of, handle_link-Refines}

-- A message of the link group.
abbrev pub Message : Type 0
Message = LinkType × LinkMsg

-- The table after some changes.
abbrev pub table_run : List Change → Table → Table
table_run [] t = t
table_run (c ∷ cs) t = table_run cs (table_step c t)

module _ (queue : Queue ℕ) where
  open queue use {entries}

  -- The handler on one message after the other, with the calls that it makes.
  unfoldable pub run : List Message → Nm queue → Nm queue × List Call
  run [] nm = (nm, [])
  run ((kind, m) ∷ ms) nm =
      let now = handle_link queue kind m nm in
      let later = run ms now.0 in (later.0, now.1 ++ later.1)

  abbrev pub changes : Nm queue → List Message → List Change
  changes nm [] = []
  changes nm ((kind, m) ∷ ms) = change_of kind nm.monitor_loopback m ∷ changes nm ms

  -- The calls that the changes make, each told of the table at its time.
  abbrev pub calls_run : Nm queue → List Change → Table → List Call
  calls_run nm [] t = []
  calls_run nm (c ∷ cs) t = calls_of queue nm (table_event c t) ++ calls_run nm cs (table_step c t)

  changes_same :
      (nm nm' : Nm queue) (ms : List Message)
      → nm'.monitor_loopback ≡ nm.monitor_loopback
      → changes nm' ms ≡ changes nm ms
  changes_same nm nm' [] h = refl
  changes_same nm nm' ((kind, m) ∷ ms) h = ground (arith, h, changes_same nm nm' ms h)

  calls_same :
      (nm nm' : Nm queue) (o : Option Event)
      → nm'.ops ≡ nm.ops
      → nm'.ops_at ≡ nm.ops_at
      → calls_of queue nm' o ≡ calls_of queue nm o
  calls_same nm nm' none h k = refl
  calls_same nm nm' (some e) h k = rw (h, k)

  calls_run_same :
      (nm nm' : Nm queue) (cs : List Change) (t : Table)
      → nm'.ops ≡ nm.ops
      → nm'.ops_at ≡ nm.ops_at
      → calls_run nm' cs t ≡ calls_run nm cs t
  calls_run_same nm nm' [] t h k = refl
  calls_run_same nm nm' (c ∷ cs) t h k =
      rw (calls_same nm nm' (table_event c t) h k, calls_run_same nm nm' cs (table_step c t) h k)

  -- After any history of link messages on a valid monitor, it is valid, it holds the table that the
  -- messages describe, and each of its observers that has the callback was told once of each change
  -- of that table as it happened, if the queue takes every entry.
  pub run-table :
      (ms : List Message) (nm : Nm queue)
      → Takes queue
      → Inv queue nm
      → Inv queue (run ms nm).0
        × ((j : ℕ) → view queue (run ms nm).0 j ≡ table_run (changes nm ms) (view queue nm) j)
        × ((run ms nm).1 ≡ calls_run nm (changes nm ms) (view queue nm))
  unfolding run
  run-table [] nm takes i = (i, λ j. refl, refl)
  run-table ((kind, m) ∷ ms) nm takes i =
      let s = handle_link-Refines queue kind m nm takes i in
      let now = handle_link queue kind m nm in
      let nm' = now.0 in
      let c = change_of kind nm.monitor_loopback m in
      let step : view queue nm' ≡ table_step c (view queue nm) = fun_ext s.table in
      let same = changes_same nm nm' ms s.loopback in
      let (valid, table, calls) = run-table ms nm' takes s.valid in
      (
        valid,
        λ j.
            table j
            ∙ ap (λ cs. table_run cs (view queue nm') j) same
            ∙ ap (λ t. table_run (changes nm ms) t j) step,
        ap (λ l. now.1 ++ l)
              (calls
                ∙ ap (λ cs. calls_run nm' cs (view queue nm')) same
                ∙ ap (calls_run nm' (changes nm ms)) step
                ∙ calls_run_same nm nm' (changes nm ms) (table_step c (view queue nm)) s.ops
                    s.ops_at)
            ∙ ap (λ l. l ++ calls_run nm (changes nm ms) (table_step c (view queue nm))) s.told,
      )

  -- A new monitor is valid, and its table is empty.
  pub nm_create-Inv :
      (flags : ℕ) (iface_at : ℕ → Interface queue) (addr_at : ℕ → AddrInfo) (ops_at : ℕ → OpsInfo)
      → Inv queue (nm_create queue flags iface_at addr_at ops_at)
        × ((j : ℕ) → view queue (nm_create queue flags iface_at addr_at ops_at) j ≡ none)
  unfolding nm_create view nm_foreach_interface links_at find_link Increasing
  nm_create-Inv flags iface_at addr_at ops_at = (
    record { below = rw queue.entries-new tt; sorted = rw queue.entries-new tt },
    λ j. rw queue.entries-new,
  )

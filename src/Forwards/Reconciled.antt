-- ===== src/Forwards/Reconciled.antt =====
-- What `syncListeningForwards` keeps: the slots of a workspace stay unshared.
use zedspaces.Base.{
  ℕ, Bool, true, false, not, Text, Option, none, some, List, [], ◌∷◌, ◌≡◌, ◌≢◌, refl, sym, ◌∙◌, ap,
  ◌==◌, ◌||◌, All, contains, filter, Bool-cases, inl, inr, if◌then◌else◌,
}
use zedspaces.Schema.{Forward, Workspace, Env, is_infra_port}
use zedspaces.Forwards.{Ports, find_port, slot_of, upsert, new_forward, is_local}
use zedspaces.Forwards.Sync.{
  Loop, with_slot, write_slot, sync_slot, sync_port, sync_ports, sync_rows, sync_listening_forwards,
  is_closed, is_current, chosen_private, is_running, sort_ports,
}
use zedspaces.Forwards.Slots.{
  Reserved, Unique, Unheld, Distinct, All-map, All-both, All-filter, Unheld-Reserved, Unheld-upsert,
  Unique-upsert, Unique-upsert_right, free_slots-Unheld, free_slots-Distinct,
}
use zedspaces.Forwards.Allocation.{find_port-Reserved}

Unique-filter :
    (test : Forward → Bool) (rows : List Forward)
    → Unique rows rows
    → Unique (filter test rows) (filter test rows)
Unique-filter test rows h =
    All-filter (λ k. (slot : ℕ) → k.slot ≡ some slot → Reserved slot k.port (filter test rows)) test
      rows
      (All-map (λ k. (slot : ℕ) → k.slot ≡ some slot → Reserved slot k.port rows)
        (λ k. (slot : ℕ) → k.slot ≡ some slot → Reserved slot k.port (filter test rows)) rows
        (λ k hk slot e.
          All-filter (λ r. r.slot ≡ some slot → r.port ≡ k.port) test rows (hk slot e))
        h)

-- The loop's invariant: `kept` are the rows at its start.
record IsSound (kept : List Forward) (available : List ℕ) (rows : List Forward) : Type 0 where
  unique : Unique rows rows
  with_kept : Unique kept rows
  free : All (λ slot. Unheld slot rows) available
  free_kept : All (λ slot. Unheld slot kept) available
  distinct : Distinct available

module _ (e : Env) (ws : Workspace) (kept : List Forward) (kept_unique : Unique kept kept) where
  written :
      (port slot : ℕ) (existing : Option Forward) (url : Option Text) (available : List ℕ)
      (rows : List Forward)
      → IsSound kept available rows
      → Reserved slot port rows
      → Reserved slot port kept
      → All (λ a. a ≢ slot) available
      → IsSound kept available (write_slot ws port existing slot url rows)
  unfolding with_slot new_forward
  written port slot existing none available rows h mine mine_kept others = h
  written port slot existing (some url) available rows h mine mine_kept others =
      keep (is_current existing slot url)
    where
      f : Forward → Forward
      f = with_slot slot url

      new : Forward
      new = with_slot slot url (new_forward ws port)

      keep : (b : Bool) → IsSound kept available (if b then rows else upsert port f new rows)
      keep true = h
      keep false = record {
        unique = Unique-upsert slot port f new (λ r. refl) (λ r. refl) refl refl rows h.unique mine;
        with_kept =
            Unique-upsert_right slot port f new (λ r. refl) (λ r. refl) refl refl kept rows
              h.with_kept mine_kept;
        free =
            All-both (λ a. Unheld a rows) (λ a. a ≢ slot) (λ a. Unheld a (upsert port f new rows))
              available
              (λ a k apart.
                Unheld-upsert slot port f new (λ r. refl) (λ r. refl) refl refl a rows apart k)
              h.free others;
        free_kept = h.free_kept;
        distinct = h.distinct;
      }

  -- A free slot is not the one that a kept row holds.
  apart_from_held :
      (port slot : ℕ) (rows : List Forward) (available : List ℕ)
      → slot_of (find_port port rows) ≡ some slot
      → All (λ a. Unheld a rows) available
      → All (λ a. a ≢ slot) available
  unfolding find_port slot_of
  apart_from_held port slot rows available found h =
      All-map (λ a. Unheld a rows) (λ a. a ≢ slot) available (λ a k same. clash a rows k same found)
        h
    where
      clash :
          (a : ℕ) (xs : List Forward)
          → Unheld a xs
          → a ≡ slot
          → slot_of (find_port port xs) ≡ some slot
          → ⊥
      clash a [] k same q = cc
      clash a (x ∷ xs) k same q = elim (Bool-cases (x.port == port)) [
        | inl hit ↦ k.0 (rw hit at q ∙ ap some (sym same))
        | inr miss ↦ clash a xs k.1 same (rw miss at q)
      ]

  slot-IsSound :
      (port : ℕ) (l : Loop) (o : Option ℕ) (available : List ℕ)
      → l.available ≡ available
      → IsSound kept available l.rows
      → slot_of (find_port port kept) ≡ o
      → IsSound kept
          (sync_slot e ws port (find_port port kept) o available l).available
          (sync_slot e ws port (find_port port kept) o available l).rows
  slot-IsSound port l (some slot) available same h q = rw same (
      written port slot (find_port port kept) _ available l.rows h
        (find_port-Reserved port slot kept l.rows h.with_kept q)
        (find_port-Reserved port slot kept kept kept_unique q)
        (apart_from_held port slot kept available q h.free_kept))
  slot-IsSound port l none [] same h q = rw same h
  slot-IsSound port l none (slot ∷ slots) same h q =
      written port slot (find_port port kept) _ slots l.rows
        (record {
          unique = h.unique;
          with_kept = h.with_kept;
          free = h.free.1;
          free_kept = h.free_kept.1;
          distinct = h.distinct.1;
        })
        (Unheld-Reserved slot port l.rows h.free.0) (Unheld-Reserved slot port kept h.free_kept.0)
        h.distinct.0

  port-IsSound :
      (muted : List ℕ) (port : ℕ) (l : Loop)
      → IsSound kept l.available l.rows
      → IsSound kept
          (sync_port e ws kept muted port l).available
          (sync_port e ws kept muted port l).rows
  unfolding sync_port
  port-IsSound muted port l h = branch (contains muted port) (chosen_private (find_port port kept))
    where
      next : Loop
      next = sync_slot e ws port (find_port port kept) (slot_of (find_port port kept)) l.available l

      branch :
          (b b' : Bool)
          → IsSound kept
              (if b then l else if b' then l else next).available
              (if b then l else if b' then l else next).rows
      branch true b' = h
      branch false true = h
      branch false false = slot-IsSound port l _ l.available refl h refl

  ports-IsSound :
      (muted ports : List ℕ) (l : Loop)
      → IsSound kept l.available l.rows
      → Unique (sync_ports e ws kept muted ports l).rows (sync_ports e ws kept muted ports l).rows
  unfolding sync_ports
  ports-IsSound muted [] l h = h.unique
  ports-IsSound muted (port ∷ ports) l h = ports-IsSound muted ports _ (port-IsSound muted port l h)

sync_rows-Unique :
    (e : Env) (ws : Workspace) (ports : List ℕ) (ps : Ports)
    → Unique ps.rows ps.rows
    → Unique (sync_rows e ws ports ps).rows (sync_rows e ws ports ps).rows
unfolding sync_rows
sync_rows-Unique e ws ports ps h =
    ports-IsSound e ws kept kept_unique _ (sort_ports ports) _ (record {
      unique = kept_unique;
      with_kept = kept_unique;
      free = free_slots-Unheld kept;
      free_kept = free_slots-Unheld kept;
      distinct = free_slots-Distinct kept;
    })
  where
    kept : List Forward
    kept = filter (λ r. not (is_closed ports r)) ps.rows

    kept_unique : Unique kept kept
    kept_unique = Unique-filter _ ps.rows h

-- If no two ports of a workspace share a preview slot, then none do after a report of the
-- listening ports has been reconciled with the rows.
pub sync_listening_forwards-Unique :
    (e : Env) (ws : Workspace) (listening : Option (List ℕ)) (ps : Ports)
    → Unique ps.rows ps.rows
    → Unique
        (sync_listening_forwards e ws listening ps).rows
        (sync_listening_forwards e ws listening ps).rows
unfolding sync_listening_forwards
sync_listening_forwards-Unique e ws none ps h = h
sync_listening_forwards-Unique e ws (some listening) ps h =
    branch (not (is_running ws.state) || is_local e.sandbox_backend)
  where
    ports : List ℕ
    ports = filter (λ port. not (is_infra_port e port)) listening

    branch :
        (b : Bool)
        → Unique
            (if b then ps else sync_rows e ws ports ps).rows
            (if b then ps else sync_rows e ws ports ps).rows
    branch true = h
    branch false = sync_rows-Unique e ws ports ps h

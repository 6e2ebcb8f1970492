-- ===== src/Forwards/Sync.antt =====
-- `syncListeningForwards`: one report of the listening ports, in one transaction.
use zedspaces.Base.{
  ℕ, ◌+◌, Bool, true, false, not, ◌&&◌, ◌||◌, Text, text_eq, Option, none, some, List, [], ◌∷◌,
  filter, contains, leb, ◌==◌, if◌then◌else◌,
}
use zedspaces.Schema.{
  Forward, PortVisibility, private, public, Workspace, WorkspaceState, Env, is_infra_port,
}
use zedspaces.Forwards.{
  Ports, find_port, slot_of, free_slots, public_slot_url, upsert, new_forward, holds_slot, is_local,
}

-- The loop's state: the slots left, the rows, and the ports that found no slot.
pub record Loop : Type 0 where
  pub available : List ℕ
  pub rows : List Forward
  pub pending : ℕ

abbrev pub is_private : PortVisibility → Bool
is_private private = true
is_private public = false

abbrev pub is_running : WorkspaceState → Bool
is_running WorkspaceState.running = true
is_running _ = false

abbrev same_url : Option Text → Text → Bool
same_url none url = false
same_url (some held) url = text_eq held url

unfoldable pub with_slot : ℕ → Text → Forward → Forward
with_slot slot url r = record r { slot = some slot; url = some url }

-- The row is there already, with this slot and URL.
abbrev pub is_current : Option Forward → ℕ → Text → Bool
is_current none slot url = false
is_current (some r) slot url = same_url r.url url && holds_slot slot r.slot

abbrev pub write_slot :
    Workspace → ℕ → Option Forward → ℕ → Option Text → List Forward → List Forward
write_slot ws port existing slot none rows = rows
write_slot ws port existing slot (some url) rows =
    if is_current existing slot url
    then rows
    else upsert port (with_slot slot url) (with_slot slot url (new_forward ws port)) rows

-- `existing?.slot ?? available.shift()`
abbrev pub sync_slot : Env → Workspace → ℕ → Option Forward → Option ℕ → List ℕ → Loop → Loop
sync_slot e ws port existing (some slot) available l = record l {
  rows = write_slot ws port existing slot (public_slot_url e ws slot) l.rows;
}
sync_slot e ws port existing none [] l = record l { pending = l.pending + 1 }
sync_slot e ws port existing none (slot ∷ slots) l = record l {
  available = slots;
  rows = write_slot ws port existing slot (public_slot_url e ws slot) l.rows;
}

abbrev pub chosen_private : Option Forward → Bool
chosen_private none = false
chosen_private (some r) = is_private r.visibility

unfoldable pub sync_port : Env → Workspace → List Forward → List ℕ → ℕ → Loop → Loop
unfolding find_port slot_of upsert with_slot new_forward public_slot_url
sync_port e ws kept muted port l =
    if contains muted port
    then l
    else if chosen_private (find_port port kept)
    then l
    else sync_slot e ws port (find_port port kept) (slot_of (find_port port kept)) l.available l

unfoldable pub sync_ports : Env → Workspace → List Forward → List ℕ → List ℕ → Loop → Loop
unfolding sync_port
sync_ports e ws kept muted [] l = l
sync_ports e ws kept muted (port ∷ ports) l =
    sync_ports e ws kept muted ports (sync_port e ws kept muted port l)

-- The set as an ascending list without repetitions.
unfoldable pub insert_port : ℕ → List ℕ → List ℕ
insert_port port [] = port ∷ []
insert_port port (q ∷ qs) =
    let rest = insert_port port qs in
    if port == q then q ∷ qs else if leb port q then port ∷ q ∷ qs else q ∷ rest

unfoldable pub sort_ports : List ℕ → List ℕ
unfolding insert_port
sort_ports [] = []
sort_ports (port ∷ ports) = insert_port port (sort_ports ports)

-- A public row whose port no longer listens.
abbrev pub is_closed : List ℕ → Forward → Bool
is_closed ports r = not (is_private r.visibility) && not (contains ports r.port)

unfoldable pub sync_rows : Env → Workspace → List ℕ → Ports → Ports
unfolding sync_ports sort_ports free_slots
sync_rows e ws ports ps =
    let muted = filter (contains ports) ps.muted in
    let kept = filter (λ r. not (is_closed ports r)) ps.rows in
    let l =
      sync_ports e ws kept muted (sort_ports ports)
        (record { available = free_slots kept; rows = kept; pending = 0 }) in
    record { rows = l.rows; muted = muted }

unfoldable pub sync_listening_forwards : Env → Workspace → Option (List ℕ) → Ports → Ports
unfolding sync_rows
sync_listening_forwards e ws none ps = ps
sync_listening_forwards e ws (some listening) ps =
    if not (is_running ws.state) || is_local e.sandbox_backend
    then ps
    else sync_rows e ws (filter (λ port. not (is_infra_port e port)) listening) ps

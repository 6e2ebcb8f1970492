-- ===== src/Forwards/Allocation.antt =====
-- What `allocateSlot` and `createForward` promise.
use zedspaces.Base.{
  ℕ, Option, none, some, List, [], ◌∷◌, ◌≡◌, refl, All, ◌==◌, ==_iff, Bool-cases, inl, inr,
}
use zedspaces.Schema.{Forward, Workspace, Env}
use zedspaces.Forwards.{
  Ports, ForwardRequest, PortError, Outcome, ok, refused, find_port, slot_of, free_slots,
  allocate_slot, held_or_first, first, create_forward, forward_unless, forward_at, with_request,
  new_forward,
}
use zedspaces.Forwards.Slots.{
  Reserved, Unique, Unheld, Unheld-Reserved, free_slots-Unheld, Unique-upsert,
}

-- The outcome, if it is a value, satisfies `P`.
abbrev pub Granted : {A : Type 0} → (A → Type 0) → Outcome A → Type 0
Granted P (ok a) = P a
Granted P (refused err) = Unit

-- A row found for the port reserves its slot.
pub find_port-Reserved :
    (port slot : ℕ) (xs ys : List Forward)
    → Unique xs ys
    → slot_of (find_port port xs) ≡ some slot
    → Reserved slot port ys
unfolding find_port slot_of
find_port-Reserved port slot [] ys h e = cc
find_port-Reserved port slot (r ∷ rs) ys (hr, h) e = elim (Bool-cases (r.port == port)) [
  | inl hit ↦ rw ((==_iff _ _).0 hit) at (hr slot (rw hit at e))
  | inr miss ↦ find_port-Reserved port slot rs ys h (rw miss at e)
]

-- If no two ports of a workspace share a preview slot, then the slot allocated to a port is held
-- by no row of another port.
pub allocate_slot-Reserved :
    (port : ℕ) (rows : List Forward)
    → Unique rows rows
    → Granted (λ slot. Reserved slot port rows) (allocate_slot port rows)
unfolding allocate_slot
allocate_slot-Reserved port rows h = pick (slot_of (find_port port rows)) refl
  where
    head :
        (free : List ℕ)
        → All (λ slot. Unheld slot rows) free
        → Granted (λ slot. Reserved slot port rows) (first free)
    head [] k = tt
    head (slot ∷ slots) k = Unheld-Reserved slot port rows k.0

    pick :
        (o : Option ℕ)
        → slot_of (find_port port rows) ≡ o
        → Granted (λ slot. Reserved slot port rows) (held_or_first o (free_slots rows))
    pick none e = head (free_slots rows) (free_slots-Unheld rows)
    pick (some slot) e = find_port-Reserved port slot rows rows h e

-- If no two ports of a workspace share a preview slot, then none do after a port has been
-- forwarded.
pub create_forward-Unique :
    (e : Env) (ws : Workspace) (request : ForwardRequest) (ps : Ports)
    → Unique ps.rows ps.rows
    → Granted (λ ps'. Unique ps'.rows ps'.rows) (create_forward e ws request ps)
unfolding create_forward
create_forward-Unique e ws request ps h = checked _
  where
    at :
        (o : Outcome ℕ)
        → Granted (λ slot. Reserved slot request.port ps.rows) o
        → Granted (λ ps'. Unique ps'.rows ps'.rows) (forward_at e ws request ps o)
    at (refused err) k = tt
    at (ok slot) k =
        unfold with_request in
        unfold new_forward in
        Unique-upsert slot request.port (with_request e ws request slot)
          (with_request e ws request slot (new_forward ws request.port)) (λ r. refl) (λ r. refl)
          refl refl ps.rows h k

    checked :
        (o : Option PortError)
        → Granted (λ ps'. Unique ps'.rows ps'.rows) (forward_unless e ws request ps o)
    checked (some err) = tt
    checked none =
        at (allocate_slot request.port ps.rows) (allocate_slot-Reserved request.port ps.rows h)

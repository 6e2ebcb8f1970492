-- ===== src/Forwards.antt =====
-- apps/web/lib/forwards.ts and apps/web/lib/ports.ts: the preview ports of a workspace. `rows` are
-- the rows of the table `forwards` with the workspace's id, which every statement asks for; `muted`
-- is the set of ports that the key-value entry of the workspace holds as JSON, as a list.
pub mod Slots
pub mod Sync
pub mod Allocation
pub mod Reconciled
use zedspaces.Base.{
  ℕ, ◌+◌, Bool, true, false, not, ◌&&◌, ◌||◌, Text, text_eq, lit, ◌++◌, decimal, Option, none, some,
  List, [], ◌∷◌, filter, find, contains, ltb, leb, ◌==◌, if◌then◌else◌, any, map, get_or,
}
use zedspaces.Schema.{
  Forward, PortVisibility, private, public, Workspace, WorkspaceState, Env, is_infra_port,
  proxy_slots, SandboxBackend, vercel, local,
}

-- What a request is refused with.
pub data PortError : Type 0 where
  invalid_port infra_port no_free_slot : PortError

pub data Outcome (A : Type 0) : Type 0 where
  ok : A → Outcome A
  refused : PortError → Outcome A

unfoldable pub assert_forwardable_port : Env → ℕ → Option PortError
assert_forwardable_port e port =
    if ltb port 1 || ltb 65535 port
    then some invalid_port
    else if is_infra_port e port
    then some infra_port
    else none

abbrev pub holds_slot : ℕ → Option ℕ → Bool
holds_slot slot none = false
holds_slot slot (some held) = held == slot

-- `taken.has(slot)`
unfoldable pub is_taken : List Forward → ℕ → Bool
is_taken [] slot = false
is_taken (r ∷ rs) slot = holds_slot slot r.slot || is_taken rs slot

unfoldable pub find_port : ℕ → List Forward → Option Forward
find_port port [] = none
find_port port (r ∷ rs) = if r.port == port then some r else find_port port rs

unfoldable pub slot_of : Option Forward → Option ℕ
slot_of none = none
slot_of (some r) = r.slot

unfoldable pub free_slots : List Forward → List ℕ
unfolding is_taken
free_slots rows = filter (λ slot. not (is_taken rows slot)) proxy_slots

abbrev first : List ℕ → Outcome ℕ
first [] = refused no_free_slot
first (slot ∷ slots) = ok slot

abbrev held_or_first : Option ℕ → List ℕ → Outcome ℕ
held_or_first (some slot) free = ok slot
held_or_first none free = first free

-- `allocateSlot`: the port's own slot, or the first free one.
unfoldable pub allocate_slot : ℕ → List Forward → Outcome ℕ
unfolding find_port slot_of free_slots
allocate_slot port rows = held_or_first (slot_of (find_port port rows)) (free_slots rows)

abbrev is_vercel : SandboxBackend → Bool
is_vercel vercel = true
is_vercel _ = false

abbrev pub is_local : SandboxBackend → Bool
is_local local = true
is_local _ = false

abbrev host_at : ℕ → List (ℕ × Text) → Option Text
host_at slot [] = none
host_at slot (h ∷ hs) = if h.0 == slot then some h.1 else host_at slot hs

unfoldable pub slot_host : Workspace → ℕ → Option Text
slot_host ws slot = elim ws.current_slot_hosts [ none ↦ none | some hosts ↦ host_at slot hosts ]

-- An empty host is no host.
abbrev url_of : Env → Option Text → Option Text
url_of e none = none
url_of e (some []) = none
url_of e (some (c ∷ s)) =
    some ((if is_vercel e.sandbox_backend then lit "https" else lit "http") ++ lit "://" ++ c ∷ s)

unfoldable pub public_slot_url : Env → Workspace → ℕ → Option Text
unfolding slot_host
public_slot_url e ws slot = url_of e (slot_host ws slot)

unfoldable pub private_forward_url : Env → Text → ℕ → Text
private_forward_url e id port =
    e.api_base ++ lit "/workspaces/" ++ id ++ lit "/ports/" ++ decimal port ++ lit "/open"

-- `insert … on conflict (workspaceId, port) do update set f`
unfoldable pub upsert : ℕ → (Forward → Forward) → Forward → List Forward → List Forward
upsert port f new [] = new ∷ []
upsert port f new (r ∷ rs) = if r.port == port then f r ∷ rs else r ∷ upsert port f new rs

unfoldable pub remove_from : ℕ → List ℕ → List ℕ
remove_from port muted = filter (λ m. not (m == port)) muted

-- `CreateForwardRequest`
pub record ForwardRequest : Type 0 where
  pub port : ℕ
  pub visibility : PortVisibility
  pub label : Option Text

-- The workspace's rows and muted ports.
pub record Ports : Type 0 where
  pub rows : List Forward
  pub muted : List ℕ

abbrev url_for : Env → Workspace → ForwardRequest → ℕ → PortVisibility → Option Text
url_for e ws request slot private = some (private_forward_url e ws.id request.port)
url_for e ws request slot public = public_slot_url e ws slot

unfoldable pub with_request : Env → Workspace → ForwardRequest → ℕ → Forward → Forward
unfolding public_slot_url private_forward_url
with_request e ws request slot r = record r {
  visibility = request.visibility;
  label = request.label;
  slot = some slot;
  url = url_for e ws request slot request.visibility;
}

unfoldable pub new_forward : Workspace → ℕ → Forward
new_forward ws port = record {
  workspace_id = ws.id;
  port = port;
  visibility = public;
  label = none;
  url = none;
  slot = none;
}

abbrev forward_at : Env → Workspace → ForwardRequest → Ports → Outcome ℕ → Outcome Ports
forward_at e ws request ps (refused err) = refused err
forward_at e ws request ps (ok slot) = ok (record {
  rows =
      upsert request.port (with_request e ws request slot)
        (with_request e ws request slot (new_forward ws request.port)) ps.rows;
  muted = remove_from request.port ps.muted;
})

abbrev forward_unless : Env → Workspace → ForwardRequest → Ports → Option PortError → Outcome Ports
forward_unless e ws request ps (some err) = refused err
forward_unless e ws request ps none =
    forward_at e ws request ps (allocate_slot request.port ps.rows)

unfoldable pub create_forward : Env → Workspace → ForwardRequest → Ports → Outcome Ports
unfolding assert_forwardable_port allocate_slot upsert with_request new_forward remove_from
create_forward e ws request ps =
    forward_unless e ws request ps (assert_forwardable_port e request.port)

abbrev remove_unless : ℕ → Ports → Option PortError → Outcome Ports
remove_unless port ps (some err) = refused err
remove_unless port ps none = ok (record {
  rows = filter (λ r. not (r.port == port)) ps.rows;
  muted = if contains ps.muted port then ps.muted else ps.muted ++ port ∷ [];
})

unfoldable pub remove_forward : Env → ℕ → Ports → Outcome Ports
unfolding assert_forwardable_port
remove_forward e port ps = remove_unless port ps (assert_forwardable_port e port)

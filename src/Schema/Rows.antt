-- ===== src/Schema/Rows.antt =====
-- Rows of the tables, from apps/web/lib/schema.ts.
use zedspaces.Base.{ℕ, Bool, Text, lit, Option, List}

pub data WorkspaceState : Type 0 where
  creating running stopping stopped rebuilding deleting error : WorkspaceState

pub data MachineType : Type 0 where
  vcpu2 vcpu4 vcpu8 vcpu32 : MachineType

pub data Region : Type 0 where
  iad1 sfo1 cle1 cdg1 : Region

abbrev pub region_text : Region → Text
region_text iad1 = lit "iad1"
region_text sfo1 = lit "sfo1"
region_text cle1 = lit "cle1"
region_text cdg1 = lit "cdg1"

pub data PortVisibility : Type 0 where
  private public : PortVisibility

pub data RestoreKind : Type 0 where
  fresh snapshot tarball : RestoreKind

pub data SettingsKind : Type 0 where
  settings keymap dotfiles : SettingsKind

pub record Workspace : Type 0 where
  pub id : Text
  pub owner_user_id : Text
  pub org_id : Option Text
  pub repo_id : Text
  pub name : Text
  pub branch : Option Text
  pub workshop_key : Option Text
  pub revision : Option Text
  pub git_ref : Option Text
  pub pull_request : Option ℕ
  pub machine : MachineType
  pub region : Region
  pub sandbox_name : Text
  pub previous_sandbox_name : Option Text
  pub sandbox_generation : ℕ
  pub image_ref : Text
  pub server_build : Text
  pub client_build : Text
  pub restore_kind : RestoreKind
  pub restore_blob_pathname : Option Text
  pub state : WorkspaceState
  pub state_reason : Option Text
  pub audience : Text
  pub sandbox_token_hash : Option Text
  pub sandbox_token_generation : ℕ
  pub supervisor_cmd_id : Option Text
  pub current_ws_host : Option Text
  pub current_slot_hosts : Option (List (ℕ × Text))
  pub current_health_host : Option Text
  pub current_sandbox_session_id : Option Text
  pub session_started_at : Option ℕ
  pub sandbox_expires_at : Option ℕ
  pub snapshot_size_bytes : Option ℕ
  pub workflow_run_id : Option Text
  pub workflow_run_started_at : Option ℕ
  pub last_active_at : ℕ
  pub idle_minutes : ℕ
  pub installed_extensions : List Text
  pub retention_until : Option ℕ
  pub retention_warned_at : Option ℕ
  pub created_at : ℕ
  pub updated_at : ℕ
  pub last_stopped_at : Option ℕ
  pub deleted_at : Option ℕ

pub record Session : Type 0 where
  pub id : Text
  pub workspace_id : Text
  pub user_id : Text
  pub sandbox_generation : ℕ
  pub sandbox_session_id : Option Text
  pub holder_tab_id : Text
  pub ws_host : Text
  pub client_build : Option Text
  pub server_build : Option Text
  pub started_at : ℕ
  pub ended_at : Option ℕ
  pub end_reason : Option Text
  pub tokens_minted : ℕ
  pub last_connect_id : Option Text

pub record Forward : Type 0 where
  pub workspace_id : Text
  pub port : ℕ
  pub visibility : PortVisibility
  pub label : Option Text
  pub url : Option Text
  pub slot : Option ℕ

pub record SettingsDoc : Type 0 where
  pub user_id : Text
  pub kind : SettingsKind
  pub content : Text
  pub version : ℕ
  pub updated_at : ℕ

pub record KvEntry : Type 0 where
  pub key : Text
  pub value : Text
  pub expires_at : Option ℕ

pub data Plan : Type 0 where
  free pro team enterprise : Plan

pub data ActorType : Type 0 where
  user sandbox system cron : ActorType

pub record User : Type 0 where
  pub id : Text
  pub github_id : Option ℕ
  pub github_login : Option Text
  pub email : Option Text
  pub name : Text
  pub email_verified : Bool
  pub image : Option Text
  pub plan : Plan
  pub idle_minutes_default : ℕ
  pub flagged_at : Option ℕ
  pub flag_reason : Option Text
  pub auth_epoch : ℕ
  pub created_at : ℕ
  pub updated_at : ℕ
  pub deleted_at : Option ℕ

pub record AuthSession : Type 0 where
  pub id : Text
  pub user_id : Text
  pub token : Text
  pub expires_at : ℕ
  pub created_at : ℕ
  pub updated_at : ℕ
  pub ip_address : Option Text
  pub user_agent : Option Text

pub record AuthVerification : Type 0 where
  pub id : Text
  pub identifier : Text
  pub value : Text
  pub expires_at : ℕ
  pub created_at : ℕ
  pub updated_at : ℕ

-- An entry of the audit log (apps/web/lib/audit.ts); the generated id, the time, the metadata and
-- the address are left out.
pub record AuditEntry : Type 0 where
  pub actor_type : ActorType
  pub actor_id : Text
  pub action : Text
  pub target_type : Text
  pub target_id : Text

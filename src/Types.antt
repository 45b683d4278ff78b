-- ===== src/Types.antt =====
-- apps/frontend-webxr/src/types.ts: the messages that the client and the master service exchange.
-- A status or a reason that arrives with another spelling is outside this model: the casts of the
-- source (`as SlaveState`) assume the enumerations.
use hackz_megalo.Base.{ℕ, Bool, true, false, Text}

pub data SlaveStatus : Type 0 where
  status_unspecified live terminating gone : SlaveStatus

pub data DeathReason : Type 0 where
  reason_unspecified lifespan disease process_down pod_down user_action : DeathReason

pub record SessionMeta : Type 0 where
  pub session_id : Text
  pub started_at : Text

pub record SessionMetrics : Type 0 where
  pub session_id : Text
  pub live_slaves : ℕ
  pub gone_slaves : ℕ
  pub updated_at : Text

pub record SlaveState : Type 0 where
  pub session_id : Text
  pub slave_id : Text
  pub k8s_pod_name : Text
  pub k8s_pod_uid : Text
  pub pod_ip : Text
  pub status : SlaveStatus
  pub death_reason : DeathReason
  pub turns_lived : ℕ
  pub remaining_turns : ℕ
  pub stress : ℕ
  pub fear : ℕ
  pub infected : Bool
  pub firewall : Bool
  pub observed_at : Text
  pub source : Text

pub data ActivityKind : Type 0 where
  system action state : ActivityKind

pub record ActivityEntry : Type 0 where
  pub id : Text
  pub kind : ActivityKind
  pub message : Text
  pub created_at : Text

-- `status === "SLAVE_STATUS_GONE"`
abbrev pub is_gone : SlaveStatus → Bool
is_gone gone = true
is_gone _ = false

-- `status === "SLAVE_STATUS_TERMINATING"`
abbrev pub is_terminating : SlaveStatus → Bool
is_terminating terminating = true
is_terminating _ = false

-- `left.status === right.status`
abbrev pub same_status : SlaveStatus → SlaveStatus → Bool
same_status status_unspecified status_unspecified = true
same_status live live = true
same_status terminating terminating = true
same_status gone gone = true
same_status _ _ = false

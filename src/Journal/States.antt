-- ===== src/Journal/States.antt =====
-- The states that the apply journal of updater/ApplyJournal.cpp records, and their names. The
-- enumerations have no other values here, so no name is "invalid".
use lib_auto_updater.Base.{
  ◌≡◌, refl, ap, ◌∙◌, List, [], ◌∷◌, All, Bool-cases, inl, inr, if◌then◌else◌,
}
use lib_auto_updater.Base.Text.{Bytes, codes, bytes_eq, bytes_eq_iff}
use lib_auto_updater.Error.{Result, ok, fail, ok_inj, apply_failed}

pub data JournalFileState : Type 0 where
  prepared applying rolling_back rolled_back files_applied complete recovery_failed :
      JournalFileState

pub data JournalRestartState : Type 0 where
  not_requested not_attempted intent launched failed outcome_unknown : JournalRestartState

pub data JournalBackupState : Type 0 where
  pending intent durable not_required : JournalBackupState

pub data JournalApplyState : Type 0 where
  pending intent complete : JournalApplyState

pub data JournalRollbackState : Type 0 where
  not_started intent complete failed not_required : JournalRollbackState

-- A chain of `if (value == "name") return state;`, with the failure at its end.
unfoldable pub state_named {ℓ} : {State : Type ℓ} → List (Bytes × State) → Bytes → Result State
state_named [] value = fail apply_failed
state_named ((name, state) ∷ rest) value =
    if bytes_eq value name then ok state else state_named rest value

module _ {ℓ} {State : Type ℓ} (name_of : State → Bytes) where
  abbrev IsTable : List (Bytes × State) → Type 0
  IsTable = All (λ e. e.0 ≡ name_of e.1)

  state_named-name :
      (table : List (Bytes × State)) (value : Bytes) (state : State)
      → IsTable table
      → state_named table value ≡ ok state
      → value ≡ name_of state
  unfolding state_named
  state_named-name [] value state h e = cc
  state_named-name ((name, s) ∷ rest) value state h e = elim (Bool-cases (bytes_eq value name)) [
    | inl k ↦
        let same : s ≡ state = ok_inj (rw k at e) in
        (bytes_eq_iff value name).0 k ∙ h.0 ∙ ap name_of same
    | inr k ↦ state_named-name rest value state h.1 (rw k at e)
  ]

abbrev pub journal_file_state_name : JournalFileState → Bytes
journal_file_state_name prepared = codes "prepared"
journal_file_state_name applying = codes "applying"
journal_file_state_name rolling_back = codes "rolling_back"
journal_file_state_name rolled_back = codes "rolled_back"
journal_file_state_name files_applied = codes "files_applied"
journal_file_state_name JournalFileState.complete = codes "complete"
journal_file_state_name recovery_failed = codes "recovery_failed"

abbrev file_state_table : List (Bytes × JournalFileState)
file_state_table =
    (codes "prepared", prepared)
    ∷ (codes "applying", applying)
    ∷ (codes "rolling_back", rolling_back)
    ∷ (codes "rolled_back", rolled_back)
    ∷ (codes "files_applied", files_applied)
    ∷ (codes "complete", JournalFileState.complete)
    ∷ (codes "recovery_failed", recovery_failed)
    ∷ []

abbrev pub file_state_from_name : Bytes → Result JournalFileState
file_state_from_name = state_named file_state_table

pub file_state_from_name-journal_file_state_name :
    (s : JournalFileState) → file_state_from_name (journal_file_state_name s) ≡ ok s
unfolding state_named bytes_eq
file_state_from_name-journal_file_state_name prepared = refl
file_state_from_name-journal_file_state_name applying = refl
file_state_from_name-journal_file_state_name rolling_back = refl
file_state_from_name-journal_file_state_name rolled_back = refl
file_state_from_name-journal_file_state_name files_applied = refl
file_state_from_name-journal_file_state_name JournalFileState.complete = refl
file_state_from_name-journal_file_state_name recovery_failed = refl

pub journal_file_state_name-file_state_from_name :
    (value : Bytes) (s : JournalFileState)
    → file_state_from_name value ≡ ok s
    → value ≡ journal_file_state_name s
journal_file_state_name-file_state_from_name value s h =
    state_named-name journal_file_state_name file_state_table value s
      (refl, (refl, (refl, (refl, (refl, (refl, (refl, tt))))))) h

abbrev pub journal_restart_state_name : JournalRestartState → Bytes
journal_restart_state_name not_requested = codes "not_requested"
journal_restart_state_name not_attempted = codes "not_attempted"
journal_restart_state_name JournalRestartState.intent = codes "intent"
journal_restart_state_name launched = codes "launched"
journal_restart_state_name JournalRestartState.failed = codes "failed"
journal_restart_state_name outcome_unknown = codes "outcome_unknown"

abbrev restart_state_table : List (Bytes × JournalRestartState)
restart_state_table =
    (codes "not_requested", not_requested)
    ∷ (codes "not_attempted", not_attempted)
    ∷ (codes "intent", JournalRestartState.intent)
    ∷ (codes "launched", launched)
    ∷ (codes "failed", JournalRestartState.failed)
    ∷ (codes "outcome_unknown", outcome_unknown)
    ∷ []

abbrev pub restart_state_from_name : Bytes → Result JournalRestartState
restart_state_from_name = state_named restart_state_table

pub restart_state_from_name-journal_restart_state_name :
    (s : JournalRestartState) → restart_state_from_name (journal_restart_state_name s) ≡ ok s
unfolding state_named bytes_eq
restart_state_from_name-journal_restart_state_name not_requested = refl
restart_state_from_name-journal_restart_state_name not_attempted = refl
restart_state_from_name-journal_restart_state_name JournalRestartState.intent = refl
restart_state_from_name-journal_restart_state_name launched = refl
restart_state_from_name-journal_restart_state_name JournalRestartState.failed = refl
restart_state_from_name-journal_restart_state_name outcome_unknown = refl

pub journal_restart_state_name-restart_state_from_name :
    (value : Bytes) (s : JournalRestartState)
    → restart_state_from_name value ≡ ok s
    → value ≡ journal_restart_state_name s
journal_restart_state_name-restart_state_from_name value s h =
    state_named-name journal_restart_state_name restart_state_table value s
      (refl, (refl, (refl, (refl, (refl, (refl, tt)))))) h

abbrev pub journal_backup_state_name : JournalBackupState → Bytes
journal_backup_state_name JournalBackupState.pending = codes "pending"
journal_backup_state_name JournalBackupState.intent = codes "intent"
journal_backup_state_name durable = codes "durable"
journal_backup_state_name JournalBackupState.not_required = codes "not_required"

abbrev backup_state_table : List (Bytes × JournalBackupState)
backup_state_table =
    (codes "pending", JournalBackupState.pending)
    ∷ (codes "intent", JournalBackupState.intent)
    ∷ (codes "durable", durable)
    ∷ (codes "not_required", JournalBackupState.not_required)
    ∷ []

abbrev pub backup_state_from_name : Bytes → Result JournalBackupState
backup_state_from_name = state_named backup_state_table

pub backup_state_from_name-journal_backup_state_name :
    (s : JournalBackupState) → backup_state_from_name (journal_backup_state_name s) ≡ ok s
unfolding state_named bytes_eq
backup_state_from_name-journal_backup_state_name JournalBackupState.pending = refl
backup_state_from_name-journal_backup_state_name JournalBackupState.intent = refl
backup_state_from_name-journal_backup_state_name durable = refl
backup_state_from_name-journal_backup_state_name JournalBackupState.not_required = refl

pub journal_backup_state_name-backup_state_from_name :
    (value : Bytes) (s : JournalBackupState)
    → backup_state_from_name value ≡ ok s
    → value ≡ journal_backup_state_name s
journal_backup_state_name-backup_state_from_name value s h =
    state_named-name journal_backup_state_name backup_state_table value s
      (refl, (refl, (refl, (refl, tt)))) h

abbrev pub journal_apply_state_name : JournalApplyState → Bytes
journal_apply_state_name JournalApplyState.pending = codes "pending"
journal_apply_state_name JournalApplyState.intent = codes "intent"
journal_apply_state_name JournalApplyState.complete = codes "complete"

abbrev apply_state_table : List (Bytes × JournalApplyState)
apply_state_table =
    (codes "pending", JournalApplyState.pending)
    ∷ (codes "intent", JournalApplyState.intent)
    ∷ (codes "complete", JournalApplyState.complete)
    ∷ []

abbrev pub apply_state_from_name : Bytes → Result JournalApplyState
apply_state_from_name = state_named apply_state_table

pub apply_state_from_name-journal_apply_state_name :
    (s : JournalApplyState) → apply_state_from_name (journal_apply_state_name s) ≡ ok s
unfolding state_named bytes_eq
apply_state_from_name-journal_apply_state_name JournalApplyState.pending = refl
apply_state_from_name-journal_apply_state_name JournalApplyState.intent = refl
apply_state_from_name-journal_apply_state_name JournalApplyState.complete = refl

pub journal_apply_state_name-apply_state_from_name :
    (value : Bytes) (s : JournalApplyState)
    → apply_state_from_name value ≡ ok s
    → value ≡ journal_apply_state_name s
journal_apply_state_name-apply_state_from_name value s h =
    state_named-name journal_apply_state_name apply_state_table value s (refl, (refl, (refl, tt))) h

abbrev pub journal_rollback_state_name : JournalRollbackState → Bytes
journal_rollback_state_name not_started = codes "not_started"
journal_rollback_state_name JournalRollbackState.intent = codes "intent"
journal_rollback_state_name JournalRollbackState.complete = codes "complete"
journal_rollback_state_name JournalRollbackState.failed = codes "failed"
journal_rollback_state_name JournalRollbackState.not_required = codes "not_required"

abbrev rollback_state_table : List (Bytes × JournalRollbackState)
rollback_state_table =
    (codes "not_started", not_started)
    ∷ (codes "intent", JournalRollbackState.intent)
    ∷ (codes "complete", JournalRollbackState.complete)
    ∷ (codes "failed", JournalRollbackState.failed)
    ∷ (codes "not_required", JournalRollbackState.not_required)
    ∷ []

abbrev pub rollback_state_from_name : Bytes → Result JournalRollbackState
rollback_state_from_name = state_named rollback_state_table

pub rollback_state_from_name-journal_rollback_state_name :
    (s : JournalRollbackState) → rollback_state_from_name (journal_rollback_state_name s) ≡ ok s
unfolding state_named bytes_eq
rollback_state_from_name-journal_rollback_state_name not_started = refl
rollback_state_from_name-journal_rollback_state_name JournalRollbackState.intent = refl
rollback_state_from_name-journal_rollback_state_name JournalRollbackState.complete = refl
rollback_state_from_name-journal_rollback_state_name JournalRollbackState.failed = refl
rollback_state_from_name-journal_rollback_state_name JournalRollbackState.not_required = refl

pub journal_rollback_state_name-rollback_state_from_name :
    (value : Bytes) (s : JournalRollbackState)
    → rollback_state_from_name value ≡ ok s
    → value ≡ journal_rollback_state_name s
journal_rollback_state_name-rollback_state_from_name value s h =
    state_named-name journal_rollback_state_name rollback_state_table value s
      (refl, (refl, (refl, (refl, (refl, tt))))) h

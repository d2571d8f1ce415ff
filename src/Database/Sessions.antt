-- ===== src/Database/Sessions.antt =====
-- tessera/db/memory.py: the session table.
use auth_manager.Base.Errors.{Action, err, value_error, ok}
use auth_manager.Base.{
  Text, ℕ, Option, Bool, List, if◌then◌else◌, ◌==◌, keep, some, ◌&&◌, nat_eq, none, false, true,
  ◌∷◌, [], ◌+◌,
}
use auth_manager.Records.{SessionDoc, revoked, is_active_status}
use auth_manager.Base.Dict.{Dict, lookup, values, insert}

abbrev pub Table : Type 0
Table = Dict Text SessionDoc

unfoldable pub save_session : SessionDoc → Action Table (Unit {0})
save_session d table =
    if d.user_id == 0 then (err value_error, table) else (ok tt, insert d.id d table)

-- `get_session`
abbrev pub get_session : Text → Table → Option SessionDoc
get_session = lookup

abbrev pub is_active_of : Text → SessionDoc → Bool
is_active_of user_id d = d.user_id == user_id && is_active_status d.status

unfoldable pub get_active_sessions : Text → Table → List SessionDoc
get_active_sessions user_id table = keep (is_active_of user_id) (values table)

abbrev pub revoke_doc : ℕ → SessionDoc → SessionDoc
revoke_doc now d = record d { status = revoked; revoked_at = some now }

-- Only the first revocation of an active session succeeds.
unfoldable pub revoke_session : ℕ → Text → Table → Bool × Table
revoke_session now session_id table = elim (lookup session_id table) [
  | none ↦ (false, table)
  | some d ↦
      if is_active_status d.status
      then (true, insert session_id (revoke_doc now d) table)
      else (false, table)
]

-- The loop of `revoke_all_user_sessions`, with the number revoked.
unfoldable pub revoke_all_user_sessions : ℕ → Text → Table → ℕ × Table
revoke_all_user_sessions now user_id [] = (0, [])
revoke_all_user_sessions now user_id ((k, d) ∷ table) =
    let (n, rest) = revoke_all_user_sessions now user_id table in
    if is_active_of user_id d then (n + 1, (k, revoke_doc now d) ∷ rest) else (n, (k, d) ∷ rest)

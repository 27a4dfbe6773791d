-- ===== src/Store/Closing.antt =====
-- `close_room` and `recover_running` of backend/src/store.rs.
pub mod Effect
use ryu_rooms.Prelude.{
  ℕ, ◌+◌, String, Bool, true, false, ◌&&◌, ◌||◌, not, Option, none, some, List, [], ◌∷◌, eqb,
  is_some, if◌then◌else◌, ◌==◌,
}
use ryu_rooms.Result.{Result, ok, err}
use ryu_rooms.Table.{count_where, select, update_where}
use ryu_rooms.Model.{is_active}
use ryu_rooms.Store.{
  RunRow, Db, StoreError, not_found, RoomStore, External, Draw, Exec, continue, pure, lift,
  reject_if, query, update_rooms, update_runs, update_invites, update_participants, ◌>>=◌, ◌>>◌,
}
use ryu_rooms.Store.Ids.{ctx, seal, validate_room_id}
use ryu_rooms.Store.Invites.{revoke_sessions}

abbrev pub interrupted : String → Option String → RunRow → RunRow
interrupted now message r = record r {
  status = "failed";
  error_code = some "nodeRestarted";
  error_message = message;
  finished_at = some now;
}

module _ (x : External) where
  unfoldable pub close_room : Draw → String → Exec (Unit {0})
  unfolding validate_room_id count_where update_where
  close_room d room_id = do
    room_id ← lift (validate_room_id room_id)
    changed ←
        update_rooms (λ r. r.id == room_id && not (r.status == "closed"))
          (λ r. record r { status = "closed"; updated_at = x.to_rfc3339 (d.now 0) })
    reject_if (eqb changed 0) not_found
    _ ←
        update_invites (λ i. i.room_id == room_id && not (is_some i.revoked_at))
          (λ i. record i { revoked_at = some (x.to_rfc3339 (d.now 1)) })
    _ ← revoke_sessions room_id (x.to_rfc3339 (d.now 2))
    _ ← update_participants (λ p. p.room_id == room_id) (λ p. record p { online = 0 })
    pure tt

  -- The message of a recovered run: none on a store that cannot be written to.
  abbrev pub recovery_message : ℕ → Bool → String → Exec (Option String)
  recovery_message nonce false id = pure none
  recovery_message nonce true id = do
    message ←
        seal x nonce "generation interrupted by node restart" (ctx "room_runs" "error_message" id)
    pure (some message)

  -- One update for each run that was active, with a nonce of its own.
  unfoldable pub recover_each : (ℕ → ℕ) → ℕ → String → List RunRow → Exec ℕ
  unfolding count_where update_where
  recover_each nonce k now [] = pure 0
  recover_each nonce k now (run ∷ runs) = do
    message ← recovery_message (nonce k) x.sealing.is_writable run.id
    changed ← update_runs (λ r. r.id == run.id && is_active r.status) (interrupted now message)
    rest ← recover_each nonce (k + 1) now runs
    pure (changed + rest)

  unfoldable pub recover_running : Draw → Exec ℕ
  unfolding select recover_each
  recover_running d = do
    let now = x.to_rfc3339 (d.now 0)
    runs ← query (λ db. select (λ (r : RunRow). is_active r.status) db.runs)
    changed ← recover_each d.nonce 0 now runs
    _ ←
        update_rooms (λ r. r.status == "running")
          (λ r. record r { status = "failed"; updated_at = now })
    pure changed

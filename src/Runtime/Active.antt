-- ===== src/Runtime/Active.antt =====
-- The map `active` of backend/src/inference.rs.
use ryu_rooms.Prelude.{String, ◌≡◌, refl, inl, inr, ◌⊎◌, true, ◌&&◌, none, some, ◌==◌, arith}
use ryu_rooms.Result.{Result-cases, err}
use ryu_rooms.Table.{count_where, find_where}
use ryu_rooms.Table.Counts.{count-delete_all}
use ryu_rooms.Store.{StoreError, External, Draw}
use ryu_rooms.Store.Read.{snapshot as read_snapshot}
use ryu_rooms.Store.Runs.{stop_run as stop_run_in_store}
use ryu_rooms.Runtime.{
  ActiveRun, RoomRuntime, publish, remove_active, is_entry_of, is_canceled, send_cancel, snapshot,
  stop_run,
}

module _ (x : External) where
  -- The task of an entry is told.
  cancel_entry-told :
      (room_id run_id : String) (rt : RoomRuntime) (run : ActiveRun)
      → find_where (is_entry_of room_id) rt.active ≡ some run
      → (run.run_id == run_id) ≡ true
      → is_canceled run.channel (send_cancel room_id run_id rt).1.canceled ≡ true
  unfolding send_cancel is_canceled
  cancel_entry-told room_id run_id rt run f e = rw (f, e) (ground arith)

  pub snapshot-canceled :
      (room_id : String) (rt : RoomRuntime)
      → ((snapshot x room_id rt).1.canceled ≡ rt.canceled)
        × ((snapshot x room_id rt).1.active ≡ rt.active)
  unfolding snapshot
  snapshot-canceled room_id rt = elim (Result-cases (read_snapshot x room_id rt.store).0) [
    | inr (e, p) ↦ rw p (refl, refl)
    | inl (none, p) ↦ rw p (refl, refl)
    | inl (some found, p) ↦ rw p (refl, refl)
  ]

  -- Stopping the run that a room's generation is for tells its task to stop, whether the store then
  -- cancels the run or fails; when it succeeds the room has no entry for the run any more.
  pub stop_run_tells :
      (d : Draw) (room_id run_id : String) (rt : RoomRuntime) (run : ActiveRun)
      → find_where (is_entry_of room_id) rt.active ≡ some run
      → (run.run_id == run_id) ≡ true
      → (is_canceled run.channel (stop_run x d room_id run_id rt).1.canceled ≡ true)
        × (((e : StoreError) × ((stop_run x d room_id run_id rt).0 ≡ err e))
            ⊎ (count_where
                  (λ (q : ActiveRun). is_entry_of room_id q && q.run_id == run_id)
                  (stop_run x d room_id run_id rt).1.active
                ≡ 0))
  unfolding stop_run remove_active publish is_canceled send_cancel
  stop_run_tells d room_id run_id rt run f e =
      let rt' = (send_cancel room_id run_id rt).1 in
      let told = cancel_entry-told room_id run_id rt run f e in
      elim (Result-cases (stop_run_in_store x d room_id run_id rt'.store).0) [
        | inr (er, p) ↦ (rw p told, inl (er, rw p refl))
        | inl (_, p) ↦
            let t =
              (remove_active room_id run_id
                (record rt' { store = (stop_run_in_store x d room_id run_id rt'.store).1 })).1 in
            let (canceled, active) = snapshot-canceled room_id t in
            let gone =
              count-delete_all (λ (q : ActiveRun). is_entry_of room_id q && q.run_id == run_id)
                (λ q. is_entry_of room_id q && q.run_id == run_id) rt'.active (λ q e. e) in
            elim (Result-cases (snapshot x room_id t).0) [
              | inr (er, q) ↦ (rw (p, q, canceled) told, inl (er, rw (p, q) refl))
              | inl (found, q) ↦ (rw (p, q, canceled) told, inr (rw (p, q, active) gone))
            ]
      ]

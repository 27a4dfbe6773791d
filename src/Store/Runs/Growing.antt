-- ===== src/Store/Runs/Growing.antt =====
-- What a run has said so far, around `append_delta` of backend/src/store.rs.
use Prim.Native.String.{◌++◌ as append}
use ryu_rooms.Prelude.{◌≤◌, String, ◌≡◌, inl, inr, some, arith}
use ryu_rooms.Result.{ok}
use ryu_rooms.Text.{char_count}
use ryu_rooms.Limits.{max_message_chars}
use ryu_rooms.Table.{find_where}
use ryu_rooms.Table.Finds.{find-update}
use ryu_rooms.Seal.{IsFaithful}
use ryu_rooms.Store.{RunRow, RoomStore, External, Draw}
use ryu_rooms.Store.Ids.{ctx, open_value}
use ryu_rooms.Store.Runs.{append_delta}
use ryu_rooms.Store.Runs.Extending.{is_running_run, append_delta_cases}

module _ (x : External) (room_id run_id : String) where
  -- The running run and what its partial text opens to.
  pub record Says (s : RoomStore) (text : String) : Type 0 where
    pub run : RunRow
    pub found : find_where (is_running_run room_id run_id) s.db.runs ≡ some run
    pub opened : open_value x run.partial_text (ctx "room_runs" "partial_text" run_id) ≡ ok text

  -- Where what is sealed opens again, a delta that is accepted is appended to what the running run
  -- said before: read back from the new database, the run says the old text with the delta at its
  -- end, within the limit on a message.
  pub append_delta-Says :
      (d : Draw) (delta : String) (s t : RoomStore)
      → IsFaithful x.sealing
      → append_delta x d room_id run_id delta s ≡ (ok tt, t)
      → (current : String) × Says s current
        × Says t (append current delta)
        × (char_count (append current delta) ≤ max_message_chars)
  append_delta-Says d delta s t law h = elim (append_delta_cases x d room_id run_id delta s) [
    | inl (e, q) ↦ absurd (ground (arith, q, h))
    | inr (run, current, sealed, f, _, o, short, sealing, q) ↦
        let f' =
          find-update (is_running_run room_id run_id) (λ r. record r { partial_text = sealed })
            s.db.runs run (λ r e. e) f in
        (
          current,
          record { run = run; found = f; opened = o },
          record {
            run = record run { partial_text = sealed };
            found = ground (arith, q, h, f');
            opened = ground (
              arith,
              law.open-seal (d.nonce 0) (append current delta)
                  (ctx "room_runs" "partial_text" run_id) sealed sealing,
            );
          },
          short,
        )
  ]

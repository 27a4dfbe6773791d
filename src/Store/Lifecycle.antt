-- ===== src/Store/Lifecycle.antt =====
-- The life of a store: any sequence of the locked sections of backend/src/store.rs, by any number of
-- callers and in any order, from an empty database.
pub mod Closed
pub mod Ending
use ryu_rooms.Prelude.{ℕ, String, ◌≡◌, refl, false, Option, List, ◌==◌}
use ryu_rooms.Result.{map_err}
use ryu_rooms.Model.{is_active, run_status_text}
use ryu_rooms.Limits.{validate_display_name, validate_model_id, validate_share_origin}
use ryu_rooms.Seal.{Sealing}
use ryu_rooms.Text.{trim}
use ryu_rooms.Store.{
  RoomRow, InviteRow, ParticipantRow, SessionRow, invite_unavailable, Db, RoomStore, External, Draw,
  Exec, empty, invalid,
}
use ryu_rooms.Store.Read.{snapshot}
use ryu_rooms.Store.Read.Keeps.{snapshot-IsReading}
use ryu_rooms.Store.Ids.{validate_room_id}
use ryu_rooms.Store.Rooms.{CreateRoomInput, create_rows, insert_new_room}
use ryu_rooms.Store.Invites.{
  admit, enter, exchange_invite, guest_row, guest_session, is_bad_invite, issue_invite,
  revoke_invite, rotate,
}
use ryu_rooms.Store.Turns.{accept_turn}
use ryu_rooms.Store.Runs.{RunTerminal, append_delta, settle, stop_run}
use ryu_rooms.Store.Closing.{close_room, recover_running}
use ryu_rooms.Store.Keeps.{
  Keeps, Keeps-bind, Keeps-lift, Keeps-or_raise, Keeps-reject_if, Keeps-of_reading,
}
use ryu_rooms.Store.Consistent.{IsConsistent, IsConsistent-empty}
use ryu_rooms.Store.Consistent.Turns.{accept_turn-IsConsistent}
use ryu_rooms.Store.Consistent.Runs.{settle-IsConsistent}
use ryu_rooms.Store.Consistent.Endings.{
  append_delta-IsConsistent, close_room-IsConsistent, stop_run-IsConsistent,
}
use ryu_rooms.Store.Consistent.Restart.{recover_running-IsConsistent}
use ryu_rooms.Store.Consistent.Rooms.{
  admit-IsConsistent, insert_new_room-IsConsistent, revoke_invite-IsConsistent, rotate-IsConsistent,
}

module _ (x : External) where
  -- One locked section, with whatever it returns.
  pub data Step : RoomStore → RoomStore → Type 0 where
    creates :
        {s : RoomStore} (d : Draw) (input : CreateRoomInput) → Step s (create_rows x d input s).1
    exchanges :
        {s : RoomStore} (d : Draw) (raw name : String) → Step s (exchange_invite x d raw name s).1
    issues : {s : RoomStore} (d : Draw) (room_id : String) → Step s (issue_invite x d room_id s).1
    revokes : {s : RoomStore} (d : Draw) (room_id : String) → Step s (revoke_invite x d room_id s).1
    accepts :
        {s : RoomStore} (d : Draw) (room_id participant_id : String) (key : Option String)
        (text : String)
        → Step s (accept_turn x d room_id participant_id key text s).1
    extends :
        {s : RoomStore} (d : Draw) (room_id run_id delta : String)
        → Step s (append_delta x d room_id run_id delta s).1
    settles :
        {s : RoomStore} (d : Draw) (room_id run_id : String) (terminal : RunTerminal)
        → is_active (run_status_text terminal.status) ≡ false
        → Step s (settle x d room_id run_id terminal s).1
    stops :
        {s : RoomStore} (d : Draw) (room_id run_id : String)
        → Step s (stop_run x d room_id run_id s).1
    closes : {s : RoomStore} (d : Draw) (room_id : String) → Step s (close_room x d room_id s).1
    recovers : {s : RoomStore} (d : Draw) → Step s (recover_running x d s).1
    reads : {s : RoomStore} (room_id : String) → Step s (snapshot x room_id s).1

  pub data Reach (s : RoomStore) : RoomStore → Type 0 where
    here : Reach s s
    next : {t u : RoomStore} → Reach s t → Step t u → Reach s u

  -- A property of the database that every locked section keeps.
  pub record IsLasting (P : Db → Type 0) : Type 0 where
    pub on_create :
        (room : RoomRow) (invite : InviteRow) (host : ParticipantRow)
        → Keeps P (insert_new_room room invite host)
    pub on_admit :
        (now : ℕ) (digest : List ℕ) (participant : String → ParticipantRow)
        (session : String → SessionRow)
        → Keeps P (admit x now digest participant session)
    pub on_rotate :
        (room_id : String) (digest : List ℕ) (expires_at now_text : String)
        → Keeps P (rotate room_id digest expires_at now_text)
    pub on_revoke : (d : Draw) (room_id : String) → Keeps P (revoke_invite x d room_id)
    pub on_accept :
        (d : Draw) (room_id participant_id : String) (key : Option String) (text : String)
        → Keeps P (accept_turn x d room_id participant_id key text)
    pub on_extend :
        (d : Draw) (room_id run_id delta : String) → Keeps P (append_delta x d room_id run_id delta)
    pub on_settle :
        (d : Draw) (room_id run_id : String) (terminal : RunTerminal)
        → is_active (run_status_text terminal.status) ≡ false
        → Keeps P (settle x d room_id run_id terminal)
    pub on_stop : (d : Draw) (room_id run_id : String) → Keeps P (stop_run x d room_id run_id)
    pub on_close : (d : Draw) (room_id : String) → Keeps P (close_room x d room_id)
    pub on_recover : (d : Draw) → Keeps P (recover_running x d)

  module _ {P : Db → Type 0} (lasting : IsLasting P) where
    create_rows-Keeps : (d : Draw) (input : CreateRoomInput) → Keeps P (create_rows x d input)
    unfolding create_rows
    create_rows-Keeps d input =
        Keeps-bind _ _ (Keeps-lift (map_err invalid (validate_model_id input.model_id))) λ model_id.
          Keeps-bind _ _
            (Keeps-lift (map_err invalid (validate_share_origin x.parse_url input.share_origin)))
            λ origin. Keeps-bind _ _ (Keeps-lift _) λ name.
              Keeps-bind (insert_new_room _ _ _) _ (lasting.on_create _ _ _)
                λ done. record { at = λ s c. c }

    enter-Keeps : (d : Draw) (raw name : String) → Keeps P (enter x d raw name)
    unfolding enter
    enter-Keeps d raw name = Keeps-bind _ _ (Keeps-lift _) λ sealed.
        Keeps-bind (admit x (d.now 0) (x.sha256 raw) (guest_row x d sealed) (guest_session x d)) _
          (lasting.on_admit _ _ _ _) λ room_id. record { at = λ s c. c }

    exchange_invite-Keeps : (d : Draw) (raw name : String) → Keeps P (exchange_invite x d raw name)
    unfolding exchange_invite
    exchange_invite-Keeps d raw name =
        Keeps-bind _ _ (Keeps-lift (map_err invalid (validate_display_name name))) λ name.
          Keeps-bind _ _ (Keeps-reject_if (is_bad_invite (trim raw)) invite_unavailable)
            λ checked. enter-Keeps d (trim raw) name

    issue_invite-Keeps : (d : Draw) (room_id : String) → Keeps P (issue_invite x d room_id)
    unfolding issue_invite
    issue_invite-Keeps d room_id = Keeps-bind _ _ (Keeps-lift (validate_room_id room_id)) λ room_id.
        Keeps-bind (rotate _ _ _ _) _ (lasting.on_rotate _ _ _ _) λ origin. record { at = λ s c. c }

    Step-lasting : {s t : RoomStore} → Step s t → P s.db → P t.db
    Step-lasting {s} (creates d input) c = (create_rows-Keeps d input).at s c
    Step-lasting {s} (exchanges d raw name) c = (exchange_invite-Keeps d raw name).at s c
    Step-lasting {s} (issues d room_id) c = (issue_invite-Keeps d room_id).at s c
    Step-lasting {s} (revokes d room_id) c = (lasting.on_revoke d room_id).at s c
    Step-lasting {s} (accepts d room_id participant_id key text) c =
        (lasting.on_accept d room_id participant_id key text).at s c
    Step-lasting {s} (extends d room_id run_id delta) c =
        (lasting.on_extend d room_id run_id delta).at s c
    Step-lasting {s} (settles d room_id run_id terminal final) c =
        (lasting.on_settle d room_id run_id terminal final).at s c
    Step-lasting {s} (stops d room_id run_id) c = (lasting.on_stop d room_id run_id).at s c
    Step-lasting {s} (closes d room_id) c = (lasting.on_close d room_id).at s c
    Step-lasting {s} (recovers d) c = (lasting.on_recover d).at s c
    Step-lasting {s} (reads room_id) c =
        (Keeps-of_reading {P = P} (snapshot x room_id) (snapshot-IsReading x room_id)).at s c

    -- What every section keeps, every sequence of sections keeps.
    pub Reach-lasting : {s t : RoomStore} → P s.db → Reach s t → P t.db
    Reach-lasting h here = h
    Reach-lasting h (next r st) = Step-lasting st (Reach-lasting h r)

  pub IsConsistent-lasting : IsLasting IsConsistent
  IsConsistent-lasting = record {
    on_create = λ room invite host. record { at = insert_new_room-IsConsistent room invite host };
    on_admit = λ now digest participant session. record {
      at = admit-IsConsistent x now digest participant session;
    };
    on_rotate = λ room_id digest expires_at now_text. record {
      at = rotate-IsConsistent room_id digest expires_at now_text;
    };
    on_revoke = λ d room_id. record { at = revoke_invite-IsConsistent x d room_id };
    on_accept = λ d room_id participant_id key text. record {
      at = accept_turn-IsConsistent x d room_id participant_id key text;
    };
    on_extend = λ d room_id run_id delta. record {
      at = append_delta-IsConsistent x d room_id run_id delta;
    };
    on_settle = λ d room_id run_id terminal final. record {
      at = λ s c. settle-IsConsistent x d room_id run_id terminal s final c;
    };
    on_stop = λ d room_id run_id. record { at = stop_run-IsConsistent x d room_id run_id };
    on_close = λ d room_id. record { at = close_room-IsConsistent x d room_id };
    on_recover = λ d. record { at = recover_running-IsConsistent x d };
  }

  -- After any sequence of sections from an empty database, whoever calls them and whatever they
  -- return, no two rooms, runs or messages have one id, every run belongs to a room, at most one run
  -- of a room is queued or running, and a room with such a run is running or closed.
  pub Reach-IsConsistent : {s t : RoomStore} → s.db ≡ empty → Reach s t → IsConsistent t.db
  Reach-IsConsistent e r = Reach-lasting IsConsistent-lasting (rw e IsConsistent-empty) r
